-- ===== src/BootVar/Records/Added.antt =====
-- lib/bootvar.c: an entry is found, or created and then found.
use mathlib.Core.Path.{subst}
use clr_boot_manager.Prelude.{
  All, Among, ◌≡◌, ◌∙◌, refl, sym, ap, ℕ, ◌==◌, Bool, true, false, Option, none, some, List, [],
  ◌∷◌, Bytes, streq, streq_iff, length, find_first, is_some, inl, inr, arith, if◌then◌else◌,
  Bool-cases,
}
use clr_boot_manager.BootLoaders.SdClass.Vtable.{Variable}
use clr_boot_manager.BootVar.Names.{num_of_name}
use clr_boot_manager.BootVar.Records.{
  Efi, BootRec, BootVars, recs_of, read_boot_recs, has_content, boot_attributes, find_boot_rec,
  reread, create_named, add_boot_rec, free_slot, name_of_slot,
}

-- What is relied on: a variable that was set is there, others and the devices are left alone, and
-- the variables of the program are none of the firmware's.
pub record IsEfi {S : Type 0} (E : Efi S) (V : Variable S BootVars) : Type 0 where
  pub stored :
      (name content : Bytes) (attributes : ℕ) (s : S)
      → (E.set_variable name content attributes s).0 ≡ true
      → E.get_variable (E.set_variable name content attributes s).1 name
        ≡ some (record { content = content; attributes = attributes })
  pub others :
      (name content other : Bytes) (attributes : ℕ) (s : S)
      → streq name other ≡ false
      → E.get_variable (E.set_variable name content attributes s).1 other ≡ E.get_variable s other
  pub same_devices :
      (name content : Bytes) (attributes : ℕ) (s : S)
      → E.devices (E.set_variable name content attributes s).1 ≡ E.devices s
  pub same_vars :
      (name content : Bytes) (attributes : ℕ) (s : S)
      → V.get (E.set_variable name content attributes s).1 ≡ V.get s
  pub put_get : (v : BootVars) (s : S) → V.get (V.put v s) ≡ v
  pub put_variable :
      (v : BootVars) (s : S) (name : Bytes)
      → E.get_variable (V.put v s) name ≡ E.get_variable s name
  pub put_devices : (v : BootVars) (s : S) → E.devices (V.put v s) ≡ E.devices s

-- The record has the number of its name.
abbrev pub IsNumbered : BootRec → Type 0
IsNumbered r = num_of_name r.name ≡ some r.num

module _ (p : BootRec → Bool) where
  -- What a search returns.
  abbrev Found : (BootRec → Type 0) → List BootRec → Option BootRec → Type 0
  Found R xs none = Unit
  Found R xs (some r) = R r × (p r ≡ true) × Among r xs

  find_first-Found :
      (R : BootRec → Type 0) (xs : List BootRec) → All R xs → Found R xs (find_first p xs)
  find_first-Found R [] h = tt
  find_first-Found R (x ∷ xs) (h, hs) = elim (Bool-cases (p x)) [
    | inl yes_ ↦ rw yes_ (h, yes_, inl refl)
    | inr no_ ↦ rw no_ (later (find_first p xs) (find_first-Found R xs hs))
  ]
    where
      later : (o : Option BootRec) → Found R xs o → Found R (x ∷ xs) o
      later none f = tt
      later (some r) (a, b, c) = (a, b, inr c)

  pub find_first-is_some :
      (r : BootRec) (xs : List BootRec) → Among r xs → p r ≡ true → is_some (find_first p xs) ≡ true
  find_first-is_some r [] m h = absurd m
  find_first-is_some r (x ∷ xs) (inl e) h = rw (subst (λ y. p y ≡ true) e h)
  find_first-is_some r (x ∷ xs) (inr m) h = elim (Bool-cases (p x)) [
    | inl yes_ ↦ rw yes_
    | inr no_ ↦ rw no_ (find_first-is_some r xs m h)
  ]

Among-length : (r : BootRec) (xs : List BootRec) → Among r xs → (length xs == 0) ≡ false
Among-length r [] m = absurd m
Among-length r (x ∷ xs) m = ground arith

module _ {S : Type 0} (E : Efi S) (V : Variable S BootVars) where
  recs_of-IsNumbered : (names : List (Bytes × Bytes)) → All IsNumbered (recs_of E V names)
  unfolding recs_of
  recs_of-IsNumbered [] = tt
  recs_of-IsNumbered ((guid, name) ∷ rest) =
      of_num (num_of_name name) refl (recs_of-IsNumbered rest)
    where
      of_num :
          (o : Option ℕ)
          → o ≡ num_of_name name
          → All IsNumbered (recs_of E V rest)
          → All IsNumbered (elim o [
            | none ↦ recs_of E V rest
            | some num ↦
                if streq guid E.global_guid
                then record { name = name; num = num } ∷ recs_of E V rest
                else recs_of E V rest
          ])
      of_num none e others = others
      of_num (some num) e others = elim (Bool-cases (streq guid E.global_guid)) [
        | inl own ↦ rw own (sym e, others)
        | inr foreign ↦ rw foreign others
      ]

  -- The entry is one of the records, has its number, and its variable holds the data.
  abbrev pub IsEntry : Bytes → S → BootRec → Type 0
  IsEntry content s r =
      IsNumbered r
      × (has_content E V content s r ≡ true)
      × Among r (V.get s).boot_recs
      × (((V.get s).boot_recs_cnt == 0) ≡ false)

  -- An entry is found, in a state with the devices and the mode of the first.
  abbrev pub Added : Bytes → S → Option BootRec × S → Type 0
  Added content s (none, s') = Unit
  Added content s (some r, s') =
      IsEntry content s' r
      × (E.devices s' ≡ E.devices s)
      × ((V.get s').test_mode ≡ (V.get s).test_mode)

  has_content-stored :
      (content : Bytes) (s : S) (name : Bytes) (attributes : ℕ)
      → E.get_variable s name ≡ some (record { content = content; attributes = attributes })
      → (r : BootRec) → streq r.name name ≡ true
      → has_content E V content s r ≡ true
  unfolding has_content
  has_content-stored content s name attributes e r same =
      let e' : E.get_variable s r.name
          ≡ some (record { content = content; attributes = attributes }) =
        subst
          (λ n. E.get_variable s n ≡ some (record { content = content; attributes = attributes }))
          (sym ((streq_iff r.name name).0 same)) e in
      rw (has_content, e') ((streq_iff content content).1 refl)

  module _ (law : IsEfi E V) where
    reread-Added :
        (content name : Bytes) (s : S) (attributes : ℕ)
        → E.get_variable s name ≡ some (record { content = content; attributes = attributes })
        → Added content s (reread E V name s)
    unfolding reread read_boot_recs
    reread-Added content name s attributes e = elim (Bool-cases (E.names s).1) [
      | inl all_ ↦
          rw (all_, law.put_get vars s)
            (of_found (find_first (λ c. streq c.name name) recs) (
              find_first-Found (λ c. streq c.name name) IsNumbered recs
                (recs_of-IsNumbered (E.names s).0)))
      | inr cut ↦ rw cut tt
    ]
      where
        recs : List BootRec
        recs = recs_of E V (E.names s).0

        vars : BootVars
        vars = record (V.get s) { boot_recs = recs; boot_recs_cnt = length recs }

        of_found :
            (o : Option BootRec)
            → Found (λ c. streq c.name name) IsNumbered recs o
            → Added content s (o, V.put vars s)
        of_found none f = tt
        of_found (some r) (numbered, same, there) =
            let e' = law.put_variable vars s name ∙ e in
            let got = law.put_get vars s in
            (
              (
                numbered,
                has_content-stored content (V.put vars s) name attributes e' r same,
                rw got there,
                rw got (Among-length r recs there),
              ),
              law.put_devices vars s,
              rw got refl,
            )

    create_named-Added :
        (content : Bytes) (o : Option Bytes) (s : S)
        → Added content s (create_named E V content o s)
    unfolding create_named
    create_named-Added content none s = tt
    create_named-Added content (some name) s =
        elim (Bool-cases (E.set_variable name content boot_attributes s).0) [
          | inl set_ ↦ rw set_ (
              of_set (reread E V name s₁) (
                reread-Added content name s₁ boot_attributes
                  (law.stored name content boot_attributes s set_)))
          | inr failed ↦ rw failed tt
        ]
      where
        s₁ : S
        s₁ = (E.set_variable name content boot_attributes s).1

        of_set : (r : Option BootRec × S) → Added content s₁ r → Added content s r
        of_set (none, s') a = tt
        of_set (some r, s') (entry, d, t) = (
          entry,
          d ∙ law.same_devices name content boot_attributes s,
          t ∙ ap (λ v. v.test_mode) (law.same_vars name content boot_attributes s),
        )

    -- What a search among the records returns.
    abbrev EntryIn : Bytes → S → Option BootRec → Type 0
    EntryIn content s none = Unit
    EntryIn content s (some r) = IsEntry content s r

    find_boot_rec-EntryIn :
        (content : Bytes) (s : S)
        → All IsNumbered (V.get s).boot_recs
        → EntryIn content s (find_boot_rec E V content s)
    unfolding find_boot_rec
    find_boot_rec-EntryIn content s numbered = elim (Bool-cases ((V.get s).boot_recs_cnt == 0)) [
      | inl no_recs ↦ rw no_recs tt
      | inr counted ↦ rw counted (
          of_found counted (find_first (has_content E V content s) (V.get s).boot_recs)
            (find_first-Found (has_content E V content s) IsNumbered (V.get s).boot_recs numbered))
    ]
      where
        of_found :
            ((V.get s).boot_recs_cnt == 0) ≡ false
            → (o : Option BootRec)
            → Found (has_content E V content s) IsNumbered (V.get s).boot_recs o
            → EntryIn content s o
        of_found counted none f = tt
        of_found counted (some r) (a, b, c) = (a, b, c, counted)

    module _ (qsort : List ℕ → List ℕ) where
      pub add_boot_rec-Added :
          (content : Bytes) (s : S)
          → All IsNumbered (V.get s).boot_recs
          → Added content s (add_boot_rec E V qsort content s)
      unfolding add_boot_rec
      add_boot_rec-Added content s numbered =
          of_find (find_boot_rec E V content s) (find_boot_rec-EntryIn content s numbered)
        where
          of_find :
              (o : Option BootRec)
              → EntryIn content s o
              → Added content s (elim o [
                | some r ↦ (some r, s)
                | none ↦
                    create_named E V content
                      (name_of_slot E V qsort (free_slot E V qsort (V.get s)))
                      s
              ])
          of_find none h =
              create_named-Added content (name_of_slot E V qsort (free_slot E V qsort (V.get s))) s
          of_find (some r) h = (h, refl, refl)
