-- ===== src/BootMan/Prefix.antt =====
-- bootman/bootman.c: the prefix that the manager works on, and what it knows of the system there.
use clr_boot_manager.Prelude.{
  Bool, false, Option, none, some, List, [], ◌++◌, Bytes, if◌then◌else◌, codes,
}
use clr_boot_manager.Kernel.Inspect.{◌//◌}
use clr_boot_manager.Platform.{Platform, SystemConfig, BootManager, M}
use clr_boot_manager.Monad.{pure, ◌>>=◌, ◌>>◌, asks, modify}
use clr_boot_manager.Cmdline.{parse_cmdline_files}
use clr_boot_manager.SysConfig.{inspect_root}
use clr_boot_manager.OsRelease.{get_value, pretty_name, id, os_release_new, os_release_new_for_root}
use clr_boot_manager.BootMan.BootDir.{with_loader}
use clr_boot_manager.BootMan.Loader.{select_bootloader}

module _ (P : Platform) where
  -- `boot_manager_get_os_name` and `boot_manager_get_os_id`
  unfoldable pub get_os_name : BootManager → Bytes
  get_os_name m = get_value P m.os_release pretty_name

  unfoldable pub get_os_id : BootManager → Bytes
  get_os_id m = get_value P m.os_release id

  -- `boot_manager_get_vconsole`
  unfoldable pub get_vconsole : BootManager → Bytes → Option Bytes
  get_vconsole m key = P.map_get key m.vconsole

  -- `boot_manager_parse_vconsole`
  unfoldable pub parse_vconsole : P.host.State → Bytes → List (Bytes × Bytes)
  parse_vconsole s root =
      let path = root ++ codes "/etc/vconsole.conf" in
      if P.host.file_exists s path then os_release_new P (P.host.read s path) else []

  -- The manager with the new system configuration, and the directories below its prefix.
  unfoldable pub use_sysconfig : SystemConfig → List (Bytes × Bytes) → BootManager → BootManager
  use_sysconfig config console m = record m {
    sysconfig = config;
    vconsole = console;
    kernel_dir = config.prefix // P.config.kernel_directory;
    initrd_freestanding_dir = config.prefix // P.config.initrd_directory;
    user_initrd_freestanding_dir = config.prefix // P.config.user_initrd_directory;
  }

  -- The loader in use is given up.
  unfoldable pub drop_loader : M P.host.State (Unit {0})
  drop_loader = with_loader P tt (λ l. l.destroy) >> modify (λ m. record m { bootloader = none })

  unfoldable pub prefix_found : Bytes → Option SystemConfig → M P.host.State Bool
  prefix_found prefix none = pure false
  prefix_found prefix (some config) = do
    console ← asks (λ w. parse_vconsole w.host prefix)
    modify (use_sysconfig config console)
    drop_loader
    release ← asks (λ w. os_release_new_for_root P w.host prefix)
    options ← asks (λ w. parse_cmdline_files P w.host config.prefix)
    modify (λ m. record m { os_release = release; cmdline = some options })
    select_bootloader P

  -- `boot_manager_set_prefix`. A manager whose root cannot be inspected is not used any more.
  unfoldable pub set_prefix : Bytes → M P.host.State Bool
  unfolding prefix_found
  set_prefix prefix = do
    config ← asks (λ w. inspect_root P w.host prefix w.manager.image_mode)
    prefix_found prefix config
