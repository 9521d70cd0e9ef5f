-- ===== src/Update/Plan.antt =====
-- bootman/update.c: the plan of a native update, and the loop over the types.
pub mod Native
use clr_boot_manager.Prelude.{
  ◌≡◌, ◌∙◌, refl, sym, ap, Bool, true, false, ◌&&◌, Option, none, some, List, [], ◌∷◌, ◌++◌, Bytes,
  if◌then◌else◌,
}
use clr_boot_manager.Kernel.{Kernel}
use clr_boot_manager.Kernel.Select.{map_kernels, get_last_booted}
use clr_boot_manager.Platform.{Platform, World, M}
use clr_boot_manager.Monad.{pure, ◌>>=◌, ◌>>◌, and_then, asks, for_all}
use clr_boot_manager.BootMan.Freestanding.{remove_initrd_freestanding}
use clr_boot_manager.BootMan.Kernels.{install_kernel, remove_kernel}
use clr_boot_manager.Update.{
  sorted, tip_of, removable, update_type, update_types, new_default, set_if_any, finish_native,
  cleanup_native, update_kernels, install_if_any,
}

module _ {S : Type 0} where
  -- The operation succeeds, and leads from the one world to the other.
  abbrev pub Succeeds : M S Bool → World S → World S → Type 0
  Succeeds m w w' = m w ≡ (true, w')

  -- Both operations succeed, one behind the other.
  abbrev pub Chain : M S Bool → M S Bool → World S → World S → Type 0
  Chain m k w w' = (w₁ : World S) × Succeeds m w w₁ × Succeeds k w₁ w'

  pub and_then-Chain :
      (m k : M S Bool) (w w' : World S) → Succeeds (and_then m k) w w' → Chain m k w w'
  unfolding and_then
  and_then-Chain m k w w' h = pick (m w) refl h
    where
      pick :
          (r : Bool × World S)
          → r ≡ m w
          → (if r.0 then k r.1 else (false, r.1)) ≡ (true, w')
          → Chain m k w w'
      pick (true, w₁) e h = (w₁, sym e, h)
      pick (false, w₁) e h = cc

module _ (P : Platform) (running : Option Kernel) where
  -- The kernels of a type: the tip and the last kernel that booted are installed, and the removals
  -- grow by the others.
  abbrev pub TypeDone :
      Bytes
      → List Kernel
      → List Kernel
      → World P.host.State
      → List Kernel
      → World P.host.State
      → Type 0
  TypeDone type typed before w after w' =
      (tip : Kernel) × (w₁ : World P.host.State) × (tip_of P type typed w ≡ some tip)
      × Succeeds (install_kernel P (some tip)) w w₁
      × Succeeds (install_if_any P (get_last_booted typed)) w₁ w'
      × (after ≡ before ++ removable running (some tip) (get_last_booted typed) typed)

  -- All types in their order.
  abbrev pub TypesDone :
      List (Bytes × List Kernel)
      → List Kernel
      → World P.host.State
      → List Kernel
      → World P.host.State
      → Type 0
  TypesDone [] before w after w' = (before ≡ after) × (w ≡ w')
  TypesDone ((type, typed) ∷ groups) before w after w' =
      (between : List Kernel) × (w₁ : World P.host.State) × TypeDone type (sorted P typed) before w
        between w₁
      × TypesDone groups between w₁ after w'

  install_kernel-none :
      (w w' : World P.host.State) → Succeeds (install_kernel P none) w w' → false ≡ true
  unfolding install_kernel pure
  install_kernel-none w w' h = ap (λ r. r.0) h

  update_type-TypeDone :
      (type : Bytes) (typed before after : List Kernel) (w w' : World P.host.State)
      → update_type P running before type typed w ≡ (some after, w')
      → TypeDone type typed before w after w'
  unfolding update_type ◌>>=◌ asks pure
  update_type-TypeDone type typed before after w w' h = of_tip (tip_of P type typed w) refl h
    where
      last_good : Option Kernel
      last_good = get_last_booted typed

      grown : Option Kernel → Bool × World P.host.State → Option (List Kernel) × World P.host.State
      grown tip r =
          (if r.0 then some (before ++ removable running tip last_good typed) else none, r.1)

      of_chain :
          (tip : Kernel) (w₂ : World P.host.State)
          → some tip ≡ tip_of P type typed w
          → Chain (install_kernel P (some tip)) (install_if_any P last_good) w w₂
          → grown (some tip) (true, w₂) ≡ (some after, w')
          → TypeDone type typed before w after w'
      of_chain tip w₂ t (w₁, first, last) h =
          let same : w₂ ≡ w' = ap (λ r. r.1) h in
          let e : some (before ++ removable running (some tip) last_good typed) ≡ some after =
            ap (λ r. r.0) h in
          (tip, w₁, sym t, first, last ∙ ap (λ v. (true, v)) same, cc)

      of_run :
          (tip : Option Kernel) (r : Bool × World P.host.State)
          → r ≡ and_then (install_kernel P tip) (install_if_any P last_good) w
          → tip ≡ tip_of P type typed w
          → grown tip r ≡ (some after, w')
          → TypeDone type typed before w after w'
      of_run tip (false, w₂) e t h = cc
      of_run none (true, w₂) e t h =
          let nothing : ◌≡◌ {A = Bool} false true =
            install_kernel-none w _ (and_then-Chain _ _ w w₂ (sym e)).1 in
          cc
      of_run (some tip) (true, w₂) e t h = of_chain tip w₂ t (and_then-Chain _ _ w w₂ (sym e)) h

      of_tip :
          (tip : Option Kernel)
          → tip ≡ tip_of P type typed w
          → grown tip (and_then (install_kernel P tip) (install_if_any P last_good) w)
            ≡ (some after, w')
          → TypeDone type typed before w after w'
      of_tip tip t h = of_run tip _ refl t h

  update_types-none :
      (groups : List (Bytes × List Kernel)) (w : World P.host.State)
      → update_types P running groups none w ≡ (none, w)
  unfolding update_types pure
  update_types-none [] w = refl
  update_types-none (g ∷ groups) w = refl

  pub update_types-TypesDone :
      (groups : List (Bytes × List Kernel)) (before after : List Kernel) (w w' : World P.host.State)
      → update_types P running groups (some before) w ≡ (some after, w')
      → TypesDone groups before w after w'
  unfolding update_types pure ◌>>=◌
  update_types-TypesDone [] before after w w' h =
      let e : some before ≡ some after = ap (λ r. r.0) h in (cc, ap (λ r. r.1) h)
  update_types-TypesDone ((type, typed) ∷ groups) before after w w' h =
      of_type (update_type P running before type (sorted P typed) w) refl
        (λ between w₁. update_types-TypesDone groups between after w₁ w') h
    where
      of_type :
          (r : Option (List Kernel) × World P.host.State)
          → r ≡ update_type P running before type (sorted P typed) w
          → ((between : List Kernel) (w₁ : World P.host.State)
              → update_types P running groups (some between) w₁ ≡ (some after, w')
              → TypesDone groups between w₁ after w')
          → update_types P running groups r.0 r.1 ≡ (some after, w')
          → TypesDone ((type, typed) ∷ groups) before w after w'
      of_type (none, w₁) e others h =
          let stopped : none ≡ some after = ap (λ r. r.0) (sym (update_types-none groups w₁) ∙ h) in
          cc
      of_type (some between, w₁) e others h = (
        between,
        w₁,
        update_type-TypeDone type (sorted P typed) before between w w₁ (sym e),
        others between w₁ h,
      )

  -- What an update that succeeds has done, from the world behind the installation of the running
  -- kernel: the types, the default kernel, the removals, and the freestanding initrds.
  abbrev pub Carried : List Kernel → World P.host.State → World P.host.State → Type 0
  Carried kernels w w' =
      (removals : List Kernel) × (w₁ : World P.host.State) × (w₂ : World P.host.State) × (w₃ : World
        P.host.State)
      × TypesDone (P.map_order (map_kernels kernels)) [] w removals w₁
      × Succeeds (set_if_any P (new_default P running kernels w₁)) w₁ w₂
      × Succeeds (for_all (remove_kernel P) removals) w₂ w₃
      × Succeeds (remove_initrd_freestanding P) w₃ w'
