-- ===== src/Update/Results.antt =====
-- bootman/update.c: what the result of an update says.
use clr_boot_manager.Prelude.{
  ◌≡◌, refl, Bool, true, false, Option, none, some, List, [], ◌∷◌, Bytes, if◌then◌else◌, arith,
  Bool-cases, length, ◌==◌, inl, inr,
}
use clr_boot_manager.Kernel.{Kernel}
use clr_boot_manager.Kernel.Inspect.{get_kernels}
use clr_boot_manager.Kernel.Select.{map_kernels}
use clr_boot_manager.Platform.{Platform, World}
use clr_boot_manager.Monad.{pure, ◌>>=◌, ◌>>◌, and_then, asks}
use clr_boot_manager.BootMan.Freestanding.{copy_initrd_freestanding, remove_initrd_freestanding}
use clr_boot_manager.BootMan.Kernels.{install_kernel}
use clr_boot_manager.Update.{
  sorted, tip_of, update_bootloader, update_type, update_types, finish_native, cleanup_native,
  update_kernels, native_with, native_found, update_native, install_if_any,
}

module _ (P : Platform) where
  cleanup_native-false :
      (w : World P.host.State)
      → cleanup_native P false w ≡ (false, (remove_initrd_freestanding P w).1)
  unfolding cleanup_native pure ◌>>=◌
  cleanup_native-false w = ground arith

  update_types-none :
      (running : Option Kernel) (groups : List (Bytes × List Kernel)) (w : World P.host.State)
      → update_types P running groups none w ≡ (none, w)
  unfolding update_types pure
  update_types-none running [] w = refl
  update_types-none running (g ∷ groups) w = refl

  module _ (running : Option Kernel) (removals : List Kernel) (type : Bytes)
      (w : World P.host.State) where
    update_type-failed :
        (ks : List Kernel)
        → (install_kernel P (tip_of P type ks w) w).0 ≡ false
        → update_type P running removals type ks w
          ≡ (none, (install_kernel P (tip_of P type ks w) w).1)
    unfolding update_type pure ◌>>=◌ and_then asks
    update_type-failed ks failed = rw failed

    update_types-cons :
        (ks : List Kernel) (groups : List (Bytes × List Kernel))
        → let r = update_type P running removals type (sorted P ks) w in
          update_types P running ((type, ks) ∷ groups) (some removals) w
          ≡ update_types P running groups r.0 r.1
    unfolding update_types ◌>>=◌
    update_types-cons ks groups = refl

    update_types-failed :
        (ks : List Kernel) (groups : List (Bytes × List Kernel))
        → (install_kernel P (tip_of P type (sorted P ks) w) w).0 ≡ false
        → update_types P running ((type, ks) ∷ groups) (some removals) w
          ≡ (none, (install_kernel P (tip_of P type (sorted P ks) w) w).1)
    update_types-failed ks groups failed =
        rw (update_types-cons, update_type-failed (sorted P ks) failed)
          (update_types-none running groups _)

  finish_native-none :
      (updated : Bool) (running : Option Kernel) (kernels : List Kernel) (w : World P.host.State)
      → finish_native P updated running kernels none w ≡ (false, w)
  unfolding finish_native pure
  finish_native-none updated running kernels w = refl

  -- Where the tip of the first type cannot be installed, the update stops at once: the default
  -- kernel is not set and no kernel is removed. What is left is the clean up of the freestanding
  -- initrds, and the result is false.
  pub update_kernels-failed :
      (updated : Bool) (running : Option Kernel) (kernels typed : List Kernel) (type : Bytes)
      (groups : List (Bytes × List Kernel)) (w : World P.host.State)
      → P.map_order (map_kernels kernels) ≡ (type, typed) ∷ groups
      → (start : World P.host.State) → (install_if_any P running w).1 ≡ start
      → (install_kernel P (tip_of P type (sorted P typed) start) start).0 ≡ false
      → update_kernels P updated running kernels w ≡ (
        false,
        (remove_initrd_freestanding P
            (install_kernel P (tip_of P type (sorted P typed) start) start).1).1,
      )
  unfolding update_kernels ◌>>=◌ ◌>>◌
  update_kernels-failed updated running kernels typed type groups w e start begins failed =
      rw
        (
          e,
          begins,
          update_types-failed running [] type _ typed groups failed,
          finish_native-none updated running kernels,
        )
        (cleanup_native-false _)

  and_then-true :
      (a : Bool) (r : Bool × World P.host.State) (v : World P.host.State)
      → (if a then r else (false, v)).0 ≡ true
      → (a ≡ true) × (r.0 ≡ true)
  and_then-true true r v h = (refl, h)
  and_then-true false r v h = cc

  finish_native-true :
      (updated : Bool) (running : Option Kernel) (kernels : List Kernel)
      (removals : Option (List Kernel)) (w : World P.host.State)
      → (finish_native P updated running kernels removals w).0 ≡ true
      → updated ≡ true
  unfolding finish_native pure ◌>>=◌ and_then asks
  finish_native-true updated running kernels none w h = cc
  finish_native-true updated running kernels (some removals) w h =
      (and_then-true _ _ _ (and_then-true _ _ _ h).1).1

  cleanup_native-true :
      (ret : Bool) (w : World P.host.State) → (cleanup_native P ret w).0 ≡ true → ret ≡ true
  unfolding cleanup_native pure ◌>>=◌
  cleanup_native-true ret w h = ground arith

  update_kernels-true :
      (updated : Bool) (running : Option Kernel) (kernels : List Kernel) (w : World P.host.State)
      → (update_kernels P updated running kernels w).0 ≡ true
      → updated ≡ true
  unfolding update_kernels ◌>>=◌ ◌>>◌
  update_kernels-true updated running kernels w h =
      finish_native-true _ running kernels _ _ (cleanup_native-true _ _ h)

  native_with-true :
      (kernels : List Kernel) (w : World P.host.State)
      → (native_with P kernels w).0 ≡ true
      → let loaded = update_bootloader P w in
        (loaded.0 ≡ true) × ((copy_initrd_freestanding P loaded.1).0 ≡ true)
  unfolding native_with pure ◌>>=◌ and_then asks
  native_with-true kernels w h = elim (Bool-cases (length (map_kernels kernels) == 0)) [
    | inl empty ↦ absurd_of (rw empty at h)
    | inr filled ↦
        let parts = and_then-true _ _ _ (rw filled at h) in
        (update_kernels-true _ _ _ _ parts.1, parts.0)
  ]
    where
      absurd_of : {A : Type 0} → ◌≡◌ {A = Bool} false true → A
      absurd_of e = cc

  -- A native update of a kernel directory that has kernels, and which reports success, has updated
  -- the boot loader, or found that it needs no update, and has copied the freestanding initrds.
  update_native-true :
      (k : Kernel) (ks : List Kernel) (w : World P.host.State)
      → get_kernels P w ≡ some (k ∷ ks)
      → (update_native P w).0 ≡ true
      → let loaded = update_bootloader P w in
        (loaded.0 ≡ true) × ((copy_initrd_freestanding P loaded.1).0 ≡ true)
  unfolding update_native native_found ◌>>=◌ asks
  update_native-true k ks w e h = native_with-true (sorted P (k ∷ ks)) w (rw (e, native_found) at h)
