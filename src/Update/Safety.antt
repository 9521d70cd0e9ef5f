-- ===== src/Update/Safety.antt =====
-- bootman/update.c: what a native update leaves alone. A property of the world that every call
-- keeps, except perhaps the removal of the running kernel, is kept by the whole update.
use clr_boot_manager.Prelude.{
  ◌≡◌, ◌≢◌, inl, inr, refl, Bool, true, false, Option, none, some, List, [], ◌∷◌, ◌++◌, Bytes,
  if◌then◌else◌, streq, Bool-cases, length, ◌==◌, All, All-of, All-append, Among, Among-append,
}
use clr_boot_manager.Kernel.{Kernel}
use clr_boot_manager.Kernel.Inspect.{get_kernels}
use clr_boot_manager.Kernel.Select.{map_kernel, map_onto, map_kernels, kernel_compare_reverse}
use clr_boot_manager.Laws.{IsLawful}
use clr_boot_manager.Platform.{Platform, World}
use clr_boot_manager.Monad.{
  pure, ◌>>=◌, ◌>>◌, and_then, asks, Keeps, keeps, run-Keeps, pure-Keeps, asks-Keeps, >>=-Keeps,
  if-Keeps, and_then-Keeps, for_all-Keeps-All,
}
use clr_boot_manager.BootMan.Freestanding.{copy_initrd_freestanding, remove_initrd_freestanding}
use clr_boot_manager.BootMan.Kernels.{install_kernel, remove_kernel, set_default_kernel}
use clr_boot_manager.Update.Removals.{removable_iff}
use clr_boot_manager.Update.{
  removable, find_running, sorted, update_bootloader, update_type, install_if_any, set_if_any,
  update_types, finish_native, cleanup_native, update_kernels, native_with, native_found,
  update_native,
}

-- Every kernel of a group is one of the list.
abbrev FromList : List Kernel → Bytes × List Kernel → Type 0
FromList kernels (type, ks) = (k : Kernel) → Among k ks → Among k kernels

map_kernel-FromList :
    (kernels : List Kernel) (m : List (Bytes × List Kernel)) (k : Kernel)
    → All (FromList kernels) m
    → Among k kernels
    → All (FromList kernels) (map_kernel m k)
unfolding map_kernel
map_kernel-FromList kernels [] k h a = (one, tt)
  where
    one : (j : Kernel) → Among j (k ∷ []) → Among j kernels
    one j (inl e) = rw e a
    one j (inr absent) = elim absent [ ]
map_kernel-FromList kernels ((type, ks) ∷ m) k (h, t) a =
    elim (Bool-cases (streq type k.meta.ktype)) [
      | inl same ↦ rw same (grown, t)
      | inr differ ↦ rw differ (h, map_kernel-FromList kernels m k t a)
    ]
  where
    grown : (j : Kernel) → Among j (ks ++ (k ∷ [])) → Among j kernels
    grown j m = elim (Among-append j ks (k ∷ []) m) [
      | inl old ↦ h j old
      | inr (inl e) ↦ rw e a
      | inr (inr none_left) ↦ absurd none_left
    ]

map_onto-FromList :
    (kernels : List Kernel) (m : List (Bytes × List Kernel)) (ks : List Kernel)
    → All (FromList kernels) m
    → ((k : Kernel) → Among k ks → Among k kernels)
    → All (FromList kernels) (map_onto m ks)
unfolding map_onto
map_onto-FromList kernels m [] h a = h
map_onto-FromList kernels m (k ∷ ks) h a =
    map_onto-FromList kernels (map_kernel m k) ks
      (map_kernel-FromList kernels m k h (a k (inl refl))) (λ j i. a j (inr i))

-- The groups of the map hold kernels of the array alone.
pub map_kernels-FromList : (kernels : List Kernel) → All (FromList kernels) (map_kernels kernels)
unfolding map_kernels
map_kernels-FromList kernels = map_onto-FromList kernels [] kernels tt (λ k a. a)

module _ (P : Platform) where
  -- What the update may do with a kernel that it removes: it is one of the list, the running kernel
  -- is known, and it is another.
  abbrev pub Spare : Option Kernel → List Kernel → Kernel → Type 0
  Spare none kernels k = ⊥
  Spare (some r) kernels k = Among k kernels × (k.addr ≢ r.addr)

  -- The property of the list that a call may return.
  abbrev Every : (Kernel → Type 0) → Option (List Kernel) → Type 0
  Every R none = Unit
  Every R (some ks) = All R ks

  removable-Spare :
      (running tip last_good : Option Kernel) (kernels ks : List Kernel)
      → ((k : Kernel) → Among k ks → Among k kernels)
      → All (Spare running kernels) (removable running tip last_good ks)
  removable-Spare none tip last_good kernels ks h = unfold removable in tt
  removable-Spare (some r) tip last_good kernels ks h =
      All-of _ _
        λ k m. let facts = (removable_iff r k tip last_good ks).0 m in (h k facts.0, facts.1)

  -- Every call of the update keeps the property, the removal of a kernel if it is `Spare`.
  pub record Spares (Q : World P.host.State → Type 0) (running : Option Kernel)
      (kernels : List Kernel) : Type 0 where
    pub loading : Keeps Q (update_bootloader P)
    pub copying : Keeps Q (copy_initrd_freestanding P)
    pub cleaning : Keeps Q (remove_initrd_freestanding P)
    pub installing : (k : Option Kernel) → Keeps Q (install_kernel P k)
    pub choosing : (k : Kernel) → Keeps Q (set_default_kernel P k)
    pub removing : (k : Kernel) → Spare running kernels k → Keeps Q (remove_kernel P k)

  module _ (law : IsLawful P) (running : Option Kernel) (kernels : List Kernel) where
    update_type-Spare :
        (removals : List Kernel) (type : Bytes) (ks : List Kernel) (w : World P.host.State)
        → All (Spare running kernels) removals
        → ((k : Kernel) → Among k ks → Among k kernels)
        → Every (Spare running kernels) (update_type P running removals type ks w).0
    unfolding update_type pure ◌>>=◌ asks
    update_type-Spare removals type ks w h a =
        pick _ _ (All-append _ removals _ h (removable-Spare running _ _ kernels ks a))
      where
        pick :
            (ks : List Kernel) (b : Bool)
            → All (Spare running kernels) ks
            → Every (Spare running kernels) (if b then some ks else none)
        pick ks true m = m
        pick ks false m = tt

    update_types-Spare :
        (groups : List (Bytes × List Kernel)) (removals : Option (List Kernel))
        (w : World P.host.State)
        → Every (Spare running kernels) removals
        → All (FromList kernels) groups
        → Every (Spare running kernels) (update_types P running groups removals w).0
    unfolding update_types pure ◌>>=◌
    update_types-Spare [] none w h a = tt
    update_types-Spare [] (some removals) w h a = h
    update_types-Spare (g ∷ groups) none w h a = tt
    update_types-Spare ((type, ks) ∷ groups) (some removals) w h (a, b) =
        update_types-Spare groups _ _
          (update_type-Spare removals type (sorted P ks) w h
            (λ k m. a k (law.qsort_among kernel_compare_reverse k ks m)))
          b

    module _ {Q : World P.host.State → Type 0} (spares : Spares Q running kernels) where
      open spares use {loading, copying, cleaning, installing, choosing, removing}

      install_if_any-Keeps : (k : Option Kernel) → Keeps Q (install_if_any P k)
      unfolding install_if_any
      install_if_any-Keeps none = pure-Keeps true
      install_if_any-Keeps (some k) = installing (some k)

      update_type-Keeps :
          (removals : List Kernel) (type : Bytes) (ks : List Kernel)
          → Keeps Q (update_type P running removals type ks)
      unfolding update_type
      update_type-Keeps removals type ks = >>=-Keeps (asks-Keeps _) λ tip.
          >>=-Keeps (and_then-Keeps (installing tip) (install_if_any-Keeps _)) λ ok. pure-Keeps _

      update_types-Keeps :
          (groups : List (Bytes × List Kernel)) (removals : Option (List Kernel))
          → Keeps Q (update_types P running groups removals)
      unfolding update_types
      update_types-Keeps [] none = pure-Keeps none
      update_types-Keeps [] (some removals) = pure-Keeps (some removals)
      update_types-Keeps (g ∷ groups) none = pure-Keeps none
      update_types-Keeps ((type, ks) ∷ groups) (some removals) =
          >>=-Keeps (update_type-Keeps removals type (sorted P ks)) (update_types-Keeps groups)

      set_if_any-Keeps : (k : Option Kernel) → Keeps Q (set_if_any P k)
      unfolding set_if_any
      set_if_any-Keeps none = pure-Keeps true
      set_if_any-Keeps (some k) = choosing k

      finish_native-Keeps :
          (updated : Bool) (removals : Option (List Kernel))
          → Every (Spare running kernels) removals
          → Keeps Q (finish_native P updated running kernels removals)
      unfolding finish_native
      finish_native-Keeps updated none h = pure-Keeps false
      finish_native-Keeps updated (some removals) h = >>=-Keeps (asks-Keeps _) λ k.
          and_then-Keeps (set_if_any-Keeps k) (
            and_then-Keeps (for_all-Keeps-All (remove_kernel P) removals (each removals h))
              (pure-Keeps updated))
        where
          each :
              (ks : List Kernel)
              → All (Spare running kernels) ks
              → All (λ k. Keeps Q (remove_kernel P k)) ks
          each [] m = tt
          each (k ∷ ks) (s, m) = (removing k s, each ks m)

      cleanup_native-Keeps : (ret : Bool) → Keeps Q (cleanup_native P ret)
      unfolding cleanup_native
      cleanup_native-Keeps ret = >>=-Keeps cleaning (λ gone. pure-Keeps _)

      update_kernels-Keeps : (updated : Bool) → Keeps Q (update_kernels P updated running kernels)
      unfolding update_kernels ◌>>=◌ ◌>>◌
      update_kernels-Keeps updated = keeps λ w q.
          let groups = P.map_order (map_kernels kernels) in
          let start = (install_if_any P running w).1 in
          let typed = update_types P running groups (some []) start in
          let removals =
            update_types-Spare groups (some []) start tt
              (law.map_order_all _ _ (map_kernels-FromList kernels)) in
          let q1 =
            run-Keeps (update_types-Keeps groups (some [])) start
              (run-Keeps (install_if_any-Keeps running) w q) in
          let q2 = run-Keeps (finish_native-Keeps updated typed.0 removals) typed.1 q1 in
          run-Keeps (cleanup_native-Keeps _) _ q2

      after_bootloader-Keeps : Keeps Q (
          update_bootloader P >>= λ updated.
          and_then (copy_initrd_freestanding P) (update_kernels P updated running kernels))
      after_bootloader-Keeps =
          >>=-Keeps loading λ updated. and_then-Keeps copying (update_kernels-Keeps updated)

  -- Whatever the host and the boot loader do, with a `qsort` that only moves elements and a hash map
  -- that yields its entries: a property of the world that every step of a native
  -- update keeps, the removal only of such kernels as were found in the kernel directory and are not
  -- the running one, is kept by the whole update. Where the running kernel is not known, the
  -- removal of no kernel has to keep it.
  pub update_native-Keeps :
      IsLawful P
      → (Q : World P.host.State → Type 0) (w : World P.host.State) (k : Kernel) (ks : List Kernel)
      → get_kernels P w ≡ some (k ∷ ks)
      → Spares Q (find_running w.manager (sorted P (k ∷ ks))) (sorted P (k ∷ ks))
      → Q w
      → Q (update_native P w).1
  unfolding update_native native_found native_with ◌>>=◌ asks
  update_native-Keeps law Q w k ks e s q =
      rw (e, native_found)
        (run-Keeps
          (if-Keeps (length (map_kernels (sorted P (k ∷ ks))) == 0) (pure-Keeps false)
            (after_bootloader-Keeps law _ _ s))
          w q)
