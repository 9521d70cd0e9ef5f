-- ===== src/Update/Plan/Native.antt =====
-- bootman/update.c: a native update that succeeds has carried out the plan.
use clr_boot_manager.Prelude.{
  ◌≡◌, ◌∙◌, refl, sym, ap, Bool, true, false, ◌&&◌, Option, none, some, List, [], ◌∷◌, Bytes,
  Bool-cases, length, ◌==◌, inl, inr,
}
use clr_boot_manager.Kernel.{Kernel}
use clr_boot_manager.Kernel.Inspect.{get_kernels}
use clr_boot_manager.Kernel.Select.{map_kernels}
use clr_boot_manager.Platform.{Platform, World}
use clr_boot_manager.Monad.{pure, ◌>>=◌, ◌>>◌, asks, for_all}
use clr_boot_manager.BootMan.Freestanding.{copy_initrd_freestanding, remove_initrd_freestanding}
use clr_boot_manager.BootMan.Kernels.{remove_kernel}
use clr_boot_manager.Update.Plan.{Succeeds, and_then-Chain, Carried, update_types-TypesDone}
use clr_boot_manager.Update.{
  update_bootloader, native_with, native_found, update_native, find_running, sorted, update_types,
  new_default, set_if_any, finish_native, cleanup_native, update_kernels, install_if_any,
}

module _ (P : Platform) (running : Option Kernel) where
  finish_native-none :
      (updated : Bool) (kernels : List Kernel) (w : World P.host.State)
      → (finish_native P updated running kernels none w).0 ≡ false
  unfolding finish_native pure
  finish_native-none updated kernels w = refl

  finish_native-Succeeds :
      (updated : Bool) (kernels removals : List Kernel) (w w' : World P.host.State)
      → Succeeds (finish_native P updated running kernels (some removals)) w w'
      → (w₁ : World P.host.State) × Succeeds (set_if_any P (new_default P running kernels w)) w w₁
        × Succeeds (for_all (remove_kernel P) removals) w₁ w'
        × (updated ≡ true)
  unfolding finish_native ◌>>=◌ asks pure
  finish_native-Succeeds updated kernels removals w w' h =
      let (w₁, set, later) = and_then-Chain _ _ w w' h in
      let (w₂, removed, done) = and_then-Chain _ _ w₁ w' later in
      (w₁, set, removed ∙ ap (λ r. (true, r.1)) done, ap (λ r. r.0) done)

  cleanup_native-Succeeds :
      (ret : Bool) (w w' : World P.host.State)
      → Succeeds (cleanup_native P ret) w w'
      → Succeeds (remove_initrd_freestanding P) w w' × (ret ≡ true)
  unfolding cleanup_native ◌>>=◌ pure
  cleanup_native-Succeeds ret w w' h = of_run (remove_initrd_freestanding P w) refl ret h
    where
      of_run :
          (r : Bool × World P.host.State)
          → r ≡ remove_initrd_freestanding P w
          → (b : Bool) → ◌≡◌ {A = Bool × World P.host.State} (r.0 && b, r.1) (true, w')
          → Succeeds (remove_initrd_freestanding P) w w' × (b ≡ true)
      of_run (true, w₁) e true h = (sym e ∙ h, refl)
      of_run (true, w₁) e false h = cc
      of_run (false, w₁) e b h = cc

  update_kernels-Carried :
      (updated : Bool) (kernels : List Kernel) (w w' : World P.host.State)
      → Succeeds (update_kernels P updated running kernels) w w'
      → Carried P running kernels (install_if_any P running w).1 w' × (updated ≡ true)
  unfolding update_kernels ◌>>=◌ ◌>>◌
  update_kernels-Carried updated kernels w w' h =
      of_types (update_types P running groups (some []) start) refl h
    where
      groups : List (Bytes × List Kernel)
      groups = P.map_order (map_kernels kernels)

      start : World P.host.State
      start = (install_if_any P running w).1

      of_types :
          (r : Option (List Kernel) × World P.host.State)
          → r ≡ update_types P running groups (some []) start
          → (let f = finish_native P updated running kernels r.0 r.1 in cleanup_native P f.0 f.1)
            ≡ (true, w')
          → Carried P running kernels start w' × (updated ≡ true)
      of_types (none, w₁) e h =
          let stopped : ◌≡◌ {A = Bool} false true =
            sym (finish_native-none updated kernels w₁) ∙ (cleanup_native-Succeeds _ _ w' h).1 in
          cc
      of_types (some removals, w₁) e h =
          let w₃ = (finish_native P updated running kernels (some removals) w₁).1 in
          let (gone, ok) = cleanup_native-Succeeds _ w₃ w' h in
          let (w₂, set, removed, loaded) =
            finish_native-Succeeds updated kernels removals w₁ w₃ (ap (λ b. (b, w₃)) ok) in
          (
            (
              removals,
              w₁,
              w₂,
              w₃,
              update_types-TypesDone P running groups [] removals start w₁ (sym e),
              set,
              removed,
              gone,
            ),
            loaded,
          )

module _ (P : Platform) where
  -- What the native update that succeeds has done with the kernels that were found.
  abbrev pub Updated : List Kernel → World P.host.State → World P.host.State → Type 0
  Updated kernels w w' =
      let running = find_running w.manager kernels in
      (loaded : World P.host.State) × (copied : World P.host.State) × Succeeds (update_bootloader P)
        w loaded
      × Succeeds (copy_initrd_freestanding P) loaded copied
      × Carried P running kernels (install_if_any P running copied).1 w'

  native_with-Updated :
      (kernels : List Kernel) (w w' : World P.host.State)
      → Succeeds (native_with P kernels) w w'
      → Updated kernels w w'
  unfolding native_with pure ◌>>=◌ asks
  native_with-Updated kernels w w' h = elim (Bool-cases (length (map_kernels kernels) == 0)) [
    | inl empty ↦ (let nothing : ◌≡◌ {A = Bool} false true = ap (λ r. r.0) (rw empty at h) in cc)
    | inr filled ↦
        let loaded = (update_bootloader P w).1 in
        let (copied, copy, rest) = and_then-Chain _ _ loaded w' (rw filled at h) in
        let (done, ok) = update_kernels-Carried P _ _ kernels copied w' rest in
        (loaded, copied, ap (λ b. (b, loaded)) ok, copy, done)
  ]

  -- A native update that succeeds has carried out this plan for the kernels that it found, each step
  -- in the world that the one before left. The boot loader is updated, or needs no update, and the
  -- freestanding initrds are copied. The running kernel is installed, if there is one; this step
  -- alone may fail. For each type of kernels, in the order of the map: its tip, and the last kernel
  -- of the type that booted, if there is one, are installed, and what `removable` selects of the type
  -- goes to the removals. Then the default kernel is set, if there is one, the removals are removed,
  -- and the freestanding initrds are cleaned up.
  pub update_native-Updated :
      (k : Kernel) (ks : List Kernel) (w w' : World P.host.State)
      → get_kernels P w ≡ some (k ∷ ks)
      → Succeeds (update_native P) w w'
      → Updated (sorted P (k ∷ ks)) w w'
  unfolding update_native native_found ◌>>=◌ asks
  update_native-Updated k ks w w' e h =
      native_with-Updated (sorted P (k ∷ ks)) w w' (rw (e, native_found) at h)
