-- ===== src/BootVar/Records/Created.antt =====
-- lib/bootvar.c: an entry that was created is found, and boots first.
use clr_boot_manager.Prelude.{
  All, ◌≡◌, ◌∙◌, refl, ap, ℕ, ◌==◌, Bool, true, false, not, Option, none, some, List, ◌∷◌, Bytes,
  codes, streq, streq_iff, starts_with, keep, inl, inr, Bool-cases,
}
use clr_boot_manager.BootLoaders.SdClass.Vtable.{Variable}
use clr_boot_manager.BootVar.Numbers.{new_boot_order, new_boot_order-keep}
use clr_boot_manager.BootVar.Records.Added.{
  IsEfi, IsNumbered, find_first-is_some, IsEntry, Added, add_boot_rec-Added,
}
use clr_boot_manager.BootVar.Names.{num_of_name, hex_value, hex_of, bytes_of, words_of}
use clr_boot_manager.BootVar.EspData.{make_boot_rec_data}
use clr_boot_manager.BootVar.Records.{
  Efi, EfiVariable, BootRec, BootVars, has_content, find_boot_rec, push_to_boot_order, add_boot_rec,
  push_added, create_data, create, has_data, has_boot_rec,
}

-- The boot order is no entry.
numbered-apart : (r : BootRec) → IsNumbered r → streq (codes "BootOrder") r.name ≡ false
numbered-apart r h = elim (Bool-cases (streq (codes "BootOrder") r.name)) [
  | inl same ↦
      (let e : num_of_name (codes "BootOrder") ≡ some r.num =
          rw ((streq_iff (codes "BootOrder") r.name).0 same) h in
        let no_number : num_of_name (codes "BootOrder") ≡ none =
          unfold num_of_name hex_of hex_value starts_with in refl in
        cc)
  | inr apart ↦ apart
]

module _ {S : Type 0} (E : Efi S) (V : Variable S BootVars) where
  -- The boot order of the state is a number that is that of the entry, and others.
  abbrev pub IsFirst : S → BootRec → Type 0
  IsFirst s r =
      (rest : List ℕ) × (attributes : ℕ) × (E.get_variable s (codes "BootOrder")
        ≡ some (record { content = bytes_of (r.num ∷ rest); attributes = attributes }))

  -- An entry that holds the data is the first of the boot order.
  abbrev pub IsBootedFirst : Bytes → S → Type 0
  IsBootedFirst content s = (r : BootRec) × IsEntry E V content s r × IsFirst s r

  module _ (law : IsEfi E V) where
    module _ (content order : Bytes) (attributes : ℕ) (s : S) (r : BootRec)
        (entry : IsEntry E V content s r) where
      set_order-IsEntry :
          IsEntry E V content (E.set_variable (codes "BootOrder") order attributes s).1 r
      unfolding has_content
      set_order-IsEntry =
          let apart = numbered-apart r entry.0 in
          let kept = law.same_vars (codes "BootOrder") order attributes s in
          (
            entry.0,
            rw (has_content, law.others (codes "BootOrder") order r.name attributes s apart)
                entry.1,
            rw kept entry.2,
            rw kept entry.3,
          )

    push-IsFirst :
        (content : Bytes) (s : S) (r : BootRec)
        → IsEntry E V content s r
        → (push_to_boot_order E V r s).0 ≡ true
        → IsEntry E V content (push_to_boot_order E V r s).1 r
          × IsFirst (push_to_boot_order E V r s).1 r
          × (E.devices (push_to_boot_order E V r s).1 ≡ E.devices s)
          × (V.get (push_to_boot_order E V r s).1 ≡ V.get s)
    unfolding push_to_boot_order
    push-IsFirst content s r entry h = of_order (E.get_variable s (codes "BootOrder")) h
      where
        pushed : Option EfiVariable → Bool × S
        pushed none = (false, s)
        pushed (some v) =
            E.set_variable (codes "BootOrder")
              (bytes_of (new_boot_order r.num (words_of v.content))) v.attributes s

        of_order :
            (o : Option EfiVariable)
            → (pushed o).0 ≡ true
            → IsEntry E V content (pushed o).1 r
              × IsFirst (pushed o).1 r
              × (E.devices (pushed o).1 ≡ E.devices s)
              × (V.get (pushed o).1 ≡ V.get s)
        of_order none h = cc
        of_order (some v) h =
            let order = bytes_of (new_boot_order r.num (words_of v.content)) in
            (
              set_order-IsEntry content order v.attributes s r entry,
              (
                keep (λ n. not (n == r.num)) (words_of v.content),
                v.attributes,
                law.stored (codes "BootOrder") order v.attributes s h
                    ∙ ap (λ ns. some (record { content = bytes_of ns; attributes = v.attributes }))
                        (new_boot_order-keep r.num (words_of v.content)),
              ),
              law.same_devices (codes "BootOrder") order v.attributes s,
              law.same_vars (codes "BootOrder") order v.attributes s,
            )

    module _ (qsort : List ℕ → List ℕ) where
      has_data-IsEntry :
          (content : Bytes) (s : S) (r : BootRec)
          → IsEntry E V content s r
          → has_data E V qsort (some content) s ≡ true
      unfolding has_data find_boot_rec
      has_data-IsEntry content s r (numbered, holds, there, counted) =
          rw counted
            (find_first-is_some (has_content E V content s) r (V.get s).boot_recs there holds)

      -- In a state with the devices and the mode of the first.
      abbrev Created : Bytes → S → S → Type 0
      Created content s s' =
          IsBootedFirst content s'
          × (has_data E V qsort (some content) s' ≡ true)
          × (E.devices s' ≡ E.devices s)
          × ((V.get s').test_mode ≡ (V.get s).test_mode)

      push_added-Created :
          (content : Bytes) (s : S) (r : Option BootRec × S)
          → Added E V content s r
          → (push_added E V qsort r).0 ≡ true
          → Created content s (push_added E V qsort r).1
      unfolding push_added
      push_added-Created content s (none, s') a h = cc
      push_added-Created content s (some r, s') (entry, d, t) h =
          let pushed = push-IsFirst content s' r entry h in
          (
            (r, pushed.0, pushed.1),
            has_data-IsEntry content _ r pushed.0,
            pushed.2 ∙ d,
            ap (λ v. v.test_mode) pushed.3 ∙ t,
          )

      create-push_added :
          (esp_mount_path bootloader_esp_path content : Bytes) (s : S)
          → (V.get s).test_mode ≡ false
          → make_boot_rec_data (E.devices s) esp_mount_path bootloader_esp_path ≡ some content
          → create E V qsort esp_mount_path bootloader_esp_path s
            ≡ push_added E V qsort (add_boot_rec E V qsort content s)
      unfolding create create_data
      create-push_added esp_mount_path bootloader_esp_path content s real made =
          rw (real, made) refl

      has_boot_rec-has_data :
          (esp_mount_path bootloader_esp_path content : Bytes) (s : S)
          → (V.get s).test_mode ≡ false
          → make_boot_rec_data (E.devices s) esp_mount_path bootloader_esp_path ≡ some content
          → has_boot_rec E V qsort s esp_mount_path bootloader_esp_path
            ≡ has_data E V qsort (some content) s
      unfolding has_boot_rec
      has_boot_rec-has_data esp_mount_path bootloader_esp_path content s real made =
          rw (real, made) refl

      -- Where `bootvar_create` returns true, `bootvar_has_boot_rec` finds the entry then, and an
      -- entry that holds its data, and is one of the records, is the first of the boot order, whether
      -- it was there before or not. The records have the numbers of their names, and the file is not in
      -- the test mode.
      pub create-IsBootedFirst :
          (esp_mount_path bootloader_esp_path content : Bytes) (s : S)
          → All IsNumbered (V.get s).boot_recs
          → (V.get s).test_mode ≡ false
          → make_boot_rec_data (E.devices s) esp_mount_path bootloader_esp_path ≡ some content
          → (create E V qsort esp_mount_path bootloader_esp_path s).0 ≡ true
          → (has_boot_rec E V qsort
                (create E V qsort esp_mount_path bootloader_esp_path s).1
                esp_mount_path
                bootloader_esp_path
              ≡ true)
            × IsBootedFirst content (create E V qsort esp_mount_path bootloader_esp_path s).1
      create-IsBootedFirst esp_mount_path bootloader_esp_path content s numbered real made h =
          let e = create-push_added esp_mount_path bootloader_esp_path content s real made in
          let created =
            push_added-Created content s (add_boot_rec E V qsort content s)
              (add_boot_rec-Added E V law qsort content s numbered) (rw⁻¹ e h) in
          rw e (
            has_boot_rec-has_data esp_mount_path bootloader_esp_path content _ (created.3 ∙ real) (
                  ap (λ d. make_boot_rec_data d esp_mount_path bootloader_esp_path) created.2
                  ∙ made)
                ∙ created.1,
            created.0,
          )
