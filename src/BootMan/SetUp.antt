-- ===== src/BootMan/SetUp.antt =====
-- bootman/bootman.c: what the command line tool sets on a manager, the loaders that a build knows,
-- and the end of a manager.
use clr_boot_manager.Prelude.{
  Bool, true, false, Option, none, some, List, [], ◌∷◌, ◌++◌, Bytes, if◌then◌else◌,
}
use clr_boot_manager.Kernel.{SystemKernel}
use clr_boot_manager.Kernel.Name.{parse_system_kernel}
use clr_boot_manager.Platform.{
  Platform, LoaderId, shim_systemd, systemd, grub2, syslinux, extlinux, M,
}
use clr_boot_manager.Monad.{pure, ◌>>◌, modify}
use clr_boot_manager.BootMan.BootDir.{with_loader}

-- The loaders that meson.build may leave out.
pub record Backends : Type 0 where
  pub have_shim_systemd_boot : Bool
  pub have_systemd_boot : Bool
  pub grub2_backend_enabled : Bool

-- `bootman_known_loaders`
unfoldable pub bootman_known_loaders : Backends → List LoaderId
bootman_known_loaders b =
    (if b.have_shim_systemd_boot
      then shim_systemd ∷ []
      else (if b.have_systemd_boot then systemd ∷ [] else []))
    ++ ((if b.grub2_backend_enabled then grub2 ∷ [] else []) ++ (syslinux ∷ extlinux ∷ []))

module _ (P : Platform) where
  -- The kernel that runs, or that it is not known; an old one stays where the new one is no name.
  use_system_kernel : Option SystemKernel → M P.host.State Bool
  use_system_kernel none = modify (λ m. record m { have_sys_kernel = false }) >> pure false
  use_system_kernel (some k) =
      modify (λ m. record m { sys_kernel = k; have_sys_kernel = true }) >> pure true

  -- `boot_manager_set_uname`
  unfoldable pub set_uname : Option Bytes → M P.host.State Bool
  unfolding use_system_kernel
  set_uname none = pure false
  set_uname (some uname) = use_system_kernel (parse_system_kernel uname)

  -- `boot_manager_set_image_mode`
  unfoldable pub set_image_mode : Bool → M P.host.State (Unit {0})
  set_image_mode image_mode = modify (λ m. record m { image_mode = image_mode })

  -- `boot_manager_set_update_efi_vars`
  unfoldable pub set_update_efi_vars : Bool → M P.host.State (Unit {0})
  set_update_efi_vars update_efi_vars = modify (λ m. record m { update_efi_vars = update_efi_vars })

  -- `boot_manager_free`, but for the memory
  unfoldable pub free : M P.host.State (Unit {0})
  free = with_loader P tt (λ l. l.destroy)
