-- ===== src/BootMan/Loader.antt =====
-- bootman/bootman.c: the choice of the boot loader, and its installation.
use clr_boot_manager.Prelude.{
  ℕ, Bool, true, false, Option, none, some, List, [], ◌∷◌, if◌then◌else◌,
}
use clr_boot_manager.Platform.{Platform, BootLoader, LoaderId, World, M}
use clr_boot_manager.Monad.{pure, ◌>>=◌, ◌>>◌, and_then, asks, modify}
use clr_boot_manager.SysConfig.{is_sysconfig_sane}
use clr_boot_manager.BootMan.BootDir.{has_all, get_boot_dir, set_boot_dir, with_loader, init_loader}

-- `BootLoaderOperation`
abbrev pub operation_remove : ℕ
operation_remove = 2

abbrev pub operation_install : ℕ
operation_install = 4

abbrev pub operation_update : ℕ
operation_update = 8

abbrev pub operation_no_check : ℕ
operation_no_check = 16

module _ (P : Platform) where
  -- The first loader that has all that is wanted.
  unfoldable pub find_loader : World P.host.State → List LoaderId → Option LoaderId
  unfolding has_all
  find_loader w [] = none
  find_loader w (i ∷ rest) =
      if has_all ((P.loader i).get_capabilities w) w.manager.sysconfig.wanted_boot_mask
      then some i
      else find_loader w rest

  start_loader : Option LoaderId → M P.host.State Bool
  start_loader none = pure false
  start_loader (some i) =
      modify (λ m. record m { bootloader = some i }) >> init_loader P (P.loader i)

  -- `boot_manager_select_bootloader`
  unfoldable pub select_bootloader : M P.host.State Bool
  unfolding find_loader start_loader
  select_bootloader = asks (λ w. find_loader w P.known_loaders) >>= start_loader

  -- `boot_manager_needs_install` and `boot_manager_needs_update`
  unfoldable pub needs_install : M P.host.State Bool
  needs_install = with_loader P false (λ l. l.needs_install)

  unfoldable pub needs_update : M P.host.State Bool
  needs_update = with_loader P false (λ l. l.needs_update)

  -- An operation of the loader, behind its check unless the flags say not to.
  unless_needed : Bool → M P.host.State Bool → M P.host.State Bool → M P.host.State Bool
  unless_needed nocheck needed act =
      if nocheck then act else (do wanted ← needed; if wanted then act else pure true)

  unfoldable pub run_operation : ℕ → BootLoader P.host.State → M P.host.State Bool
  unfolding unless_needed has_all
  run_operation flags l =
      let nocheck = has_all flags operation_no_check in
      if has_all flags operation_install
      then unless_needed nocheck l.needs_install l.install
      else if has_all flags operation_remove
      then l.remove
      else if has_all flags operation_update
      then unless_needed nocheck l.needs_update l.update
      else pure false

  set_and_run : Bool → ℕ → BootLoader P.host.State → M P.host.State Bool
  unfolding run_operation
  set_and_run sane flags l =
      if sane
      then (do dir ← asks (get_boot_dir P); and_then (set_boot_dir P dir) (run_operation flags l))
      else pure false

  -- `boot_manager_modify_bootloader`
  unfoldable pub modify_bootloader : ℕ → M P.host.State Bool
  unfolding set_and_run
  modify_bootloader flags = do
    sane ← asks (λ w. is_sysconfig_sane w.manager.sysconfig)
    with_loader P false (set_and_run sane flags)
