-- ===== src/Update.antt =====
-- bootman/update.c: the update of a running system and of an image.
pub mod Safety
pub mod Removals
pub mod Results
pub mod Plan
use clr_boot_manager.Prelude.{
  ℕ, Bool, true, false, not, ◌&&◌, Option, none, some, List, [], ◌∷◌, ◌++◌, Bytes, ◌==◌,
  if◌then◌else◌, is_some, keep, find_first, length, bit_or,
}
use clr_boot_manager.Kernel.{Kernel, SystemKernel}
use clr_boot_manager.Kernel.Inspect.{get_kernels, default_link}
use clr_boot_manager.Kernel.Select.{
  kernel_compare_reverse, get_linked, get_running_kernel, get_running_kernel_fallback,
  get_last_booted, map_kernels,
}
use clr_boot_manager.Platform.{Platform, BootManager, World, M}
use clr_boot_manager.Monad.{pure, ◌>>=◌, ◌>>◌, and_then, asks, for_all}
use clr_boot_manager.BootMan.BootDir.{get_boot_dir, set_boot_dir}
use clr_boot_manager.BootMan.Freestanding.{copy_initrd_freestanding, remove_initrd_freestanding}
use clr_boot_manager.BootMan.Kernels.{install_kernel, remove_kernel, set_default_kernel}
use clr_boot_manager.BootMan.Loader.{
  needs_install, needs_update, modify_bootloader, operation_install, operation_update,
  operation_no_check,
}
use clr_boot_manager.BootMan.Mount.{with_boot_mounted}

-- `tk == k`, for a pointer that may be NULL
unfoldable pub is_kernel : Option Kernel → Kernel → Bool
is_kernel none tk = false
is_kernel (some k) tk = tk.addr == k.addr

-- The kernels of one type that are scheduled for removal; none if the running kernel is not known.
unfoldable pub removable : Option Kernel → Option Kernel → Option Kernel → List Kernel → List Kernel
unfolding is_kernel
removable none tip last_good typed_kernels = []
removable (some running) tip last_good typed_kernels =
    keep
      (λ tk.
        not (is_kernel (some running) tk) && not (is_kernel tip tk) && not (is_kernel last_good tk))
      typed_kernels

-- `boot_manager_get_system_kernel`
unfoldable pub get_system_kernel : BootManager → Option SystemKernel
get_system_kernel m =
    if not m.have_sys_kernel then none else if m.image_mode then none else some m.sys_kernel

-- The running kernel, by the exact comparison or by the fallback.
unfoldable pub find_running : BootManager → List Kernel → Option Kernel
unfolding get_system_kernel
find_running m kernels = elim (get_running_kernel (get_system_kernel m) kernels) [
  | some k ↦ some k
  | none ↦ get_running_kernel_fallback (get_system_kernel m) kernels
]

unfoldable pub first_kernel : List Kernel → Option Kernel
first_kernel [] = none
first_kernel (k ∷ _) = some k

module _ (P : Platform) where
  abbrev pub sorted : List Kernel → List Kernel
  sorted = P.qsort kernel_compare_reverse

  -- `boot_manager_get_default_for_type`
  unfoldable pub get_default_for_type : World P.host.State → List Kernel → Bytes → Option Kernel
  get_default_for_type w kernels type = elim (default_link P w type) [
    | none ↦ none
    | some linkbuf ↦ get_linked linkbuf kernels
  ]

  -- The default kernel of the type, or the one with the highest release.
  unfoldable pub tip_of : Bytes → List Kernel → World P.host.State → Option Kernel
  unfolding get_default_for_type first_kernel
  tip_of type typed_kernels w = elim (get_default_for_type w typed_kernels type) [
    | some k ↦ some k
    | none ↦ first_kernel typed_kernels
  ]

  -- `boot_manager_update_bootloader`
  unfoldable pub update_bootloader : M P.host.State Bool
  update_bootloader = do
    install ← needs_install P
    update ← if install then pure false else needs_update P
    if install
        then modify_bootloader P (bit_or operation_install operation_no_check)
        else if update
        then modify_bootloader P (bit_or operation_update operation_no_check)
        else pure true

  -- Installs a kernel if there is one.
  unfoldable pub install_if_any : Option Kernel → M P.host.State Bool
  install_if_any none = pure true
  install_if_any (some k) = install_kernel P (some k)

  -- The loop over the kernel types, with the removals so far; none is the jump to the cleanup.
  unfoldable pub update_type :
      Option Kernel → List Kernel → Bytes → List Kernel → M P.host.State (Option (List Kernel))
  unfolding install_if_any
  update_type running removals type typed_kernels = do
    tip ← asks (tip_of type typed_kernels)
    let last_good = get_last_booted typed_kernels
    ok ← and_then (install_kernel P tip) (install_if_any last_good)
    pure (if ok then some (removals ++ removable running tip last_good typed_kernels) else none)

  unfoldable pub update_types :
      Option Kernel
      → List (Bytes × List Kernel)
      → Option (List Kernel)
      → M P.host.State (Option (List Kernel))
  unfolding update_type
  update_types running groups none = pure none
  update_types running [] (some removals) = pure (some removals)
  update_types running ((type, typed_kernels) ∷ groups) (some removals) =
      update_type running removals type (sorted typed_kernels) >>= update_types running groups

  -- The kernel that becomes the default.
  unfoldable pub new_default : Option Kernel → List Kernel → World P.host.State → Option Kernel
  unfolding get_system_kernel
  new_default (some running) kernels w = get_default_for_type w kernels running.meta.ktype
  new_default none kernels w = elim (get_system_kernel w.manager) [
    | none ↦ none
    | some k ↦ if length k.ktype == 0 then none else get_default_for_type w kernels k.ktype
  ]

  unfoldable pub set_if_any : Option Kernel → M P.host.State Bool
  set_if_any none = pure true
  set_if_any (some k) = set_default_kernel P k

  -- The default kernel, then the removals; false is the jump to the cleanup.
  unfoldable pub finish_native :
      Bool → Option Kernel → List Kernel → Option (List Kernel) → M P.host.State Bool
  unfolding set_if_any
  finish_native updated running kernels none = pure false
  finish_native updated running kernels (some removals) = do
    default_kernel ← asks (new_default running kernels)
    and_then (set_if_any default_kernel)
        (and_then (for_all (remove_kernel P) removals) (pure updated))

  -- The label `cleanup`.
  unfoldable pub cleanup_native : Bool → M P.host.State Bool
  cleanup_native ret = do gone ← remove_initrd_freestanding P; pure (gone && ret)

  -- The part behind the freestanding initrds.
  unfoldable pub update_kernels : Bool → Option Kernel → List Kernel → M P.host.State Bool
  unfolding update_types finish_native cleanup_native install_if_any
  update_kernels updated running kernels = do
    install_if_any running
    removals ← update_types running (P.map_order (map_kernels kernels)) (some [])
    ret ← finish_native updated running kernels removals
    cleanup_native ret

  unfoldable pub native_with : List Kernel → M P.host.State Bool
  unfolding update_kernels
  native_with kernels = do
    running ← asks (λ w. find_running w.manager kernels)
    if length (map_kernels kernels) == 0 then pure false else (do
      updated ← update_bootloader
      and_then (copy_initrd_freestanding P) (update_kernels updated running kernels))

  unfoldable pub native_found : Option (List Kernel) → M P.host.State Bool
  unfolding native_with
  native_found none = pure false
  native_found (some []) = pure false
  native_found (some (k ∷ ks)) = native_with (sorted (k ∷ ks))

  -- `boot_manager_update_native`
  unfoldable pub update_native : M P.host.State Bool
  unfolding native_found
  update_native = asks (get_kernels P) >>= native_found

  -- The first kernel becomes the default.
  set_first : List Kernel → M P.host.State Bool
  set_first [] = pure false
  set_first (k ∷ _) = set_default_kernel P k

  unfoldable pub image_kernels : List Kernel → M P.host.State Bool
  unfolding set_first
  image_kernels kernels = do
    update_bootloader
    and_then (copy_initrd_freestanding P)
        (and_then (for_all (λ k. install_kernel P (some k)) kernels) (set_first kernels))

  image_found : Option (List Kernel) → M P.host.State Bool
  unfolding image_kernels
  image_found none = pure false
  image_found (some []) = pure false
  image_found (some (k ∷ ks)) = do
    boot_dir ← asks (get_boot_dir P)
    there ← asks (λ w. P.host.file_exists w.host boot_dir)
    if there
        then and_then (set_boot_dir P boot_dir) (image_kernels (sorted (k ∷ ks)))
        else pure false

  -- `boot_manager_update_image`
  unfoldable pub update_image : M P.host.State Bool
  unfolding image_found
  update_image = asks (get_kernels P) >>= image_found

  -- `boot_manager_update`
  unfoldable pub update : M P.host.State Bool
  unfolding update_image update_native
  update = do
    image ← asks (λ w. w.manager.image_mode)
    if image then update_image else with_boot_mounted P false update_native
