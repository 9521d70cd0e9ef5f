-- ===== src/BootLoaders/Grub2.antt =====
-- bootloaders/grub2.c: a script of grub-mkconfig with an entry for each kernel of the queue, and the
-- links to the default kernel.
pub mod Entry
pub mod Menu
pub mod Script
pub mod Vtable
use clr_boot_manager.Prelude.{Bool, false, Option, ◌∷◌, [], ◌++◌, Bytes, codes, drop}
use clr_boot_manager.Libc.{show_ℤ}
use clr_boot_manager.Kernel.{Kernel}
use clr_boot_manager.Platform.{Platform, CbmDeviceProbe, BootManager, World}
use clr_boot_manager.Files.Devices.{is_mounted}
use clr_boot_manager.BootMan.Prefix.{get_os_name, get_os_id, get_vconsole}

-- `Grub2Config`; the writer is the list of the pieces that are written.
pub record Grub2Config : Type 0 where
  pub root_dev : CbmDeviceProbe
  pub os_name : Bytes
  pub os_id : Bytes
  pub vc_keymap : Option Bytes
  pub vc_font : Option Bytes
  pub is_separate : Bool
  pub submenu : Bool

-- "%s-%d.%s" of the version, the release and the type
unfoldable pub kernel_id : Kernel → Bytes
kernel_id k = k.meta.version ++ (b'-' ∷ (show_ℤ k.meta.release ++ (b'.' ∷ k.meta.ktype)))

module _ (P : Platform) where
  -- `grub2_get_entry_path_for_kernel`
  unfoldable pub get_entry_path_for_kernel : Kernel → World P.host.State → Bytes
  unfolding kernel_id
  get_entry_path_for_kernel k w =
      w.manager.sysconfig.prefix
      ++ (codes "/etc/grub.d/10_" ++ (get_os_id P w.manager ++ (b'_' ∷ kernel_id k)))

  -- `grub2_is_separate_boot_partition`
  unfoldable pub is_separate_boot_partition : World P.host.State → Bool
  is_separate_boot_partition w = is_mounted P.host w.host P.config.boot_directory

  -- `grub2_get_boot_relative`
  unfoldable pub get_boot_relative : Bytes
  get_boot_relative = drop 1 P.config.boot_directory

  -- What the entries share, outside of a submenu.
  unfoldable pub grub2_config_of : CbmDeviceProbe → World P.host.State → Grub2Config
  unfolding is_separate_boot_partition
  grub2_config_of dev w = record {
    root_dev = dev;
    os_name = get_os_name P w.manager;
    os_id = get_os_id P w.manager;
    vc_keymap = get_vconsole P w.manager (codes "KEYMAP");
    vc_font = get_vconsole P w.manager (codes "FONT");
    is_separate = is_separate_boot_partition w;
    submenu = false;
  }
