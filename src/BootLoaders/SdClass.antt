-- ===== src/BootLoaders/SdClass.antt =====
-- bootloaders/systemd-class.c: the paths of a systemd style boot loader, which `init` works out once.
pub mod Entry
pub mod Default
pub mod Blob
pub mod Vtable
use clr_boot_manager.Prelude.{Bool, true, [], ◌∷◌, ◌++◌, Bytes, codes, length, drop}
use clr_boot_manager.Libc.{show_ℤ}
use clr_boot_manager.Kernel.{Kernel}
use clr_boot_manager.Kernel.Inspect.{◌//◌}
use clr_boot_manager.Platform.{Platform, World, M}
use clr_boot_manager.Monad.{pure, ◌>>◌, and_then, call}
use clr_boot_manager.Files.{cbm_sync}
use clr_boot_manager.BootMan.BootDir.{get_boot_dir}

-- `BootLoaderConfig`
pub record BootLoaderConfig : Type 0 where
  pub vendor_dir : Bytes
  pub efi_dir : Bytes
  pub efi_blob : Bytes

-- `SdClassConfig`
pub record SdClassConfig : Type 0 where
  pub efi_dir : Bytes
  pub vendor_dir : Bytes
  pub entries_dir : Bytes
  pub base_path : Bytes
  pub efi_blob_source : Bytes
  pub efi_blob_dest : Bytes
  pub default_path_efi_blob : Bytes
  pub loader_config : Bytes
  pub kernel_dir : Bytes
  pub kernel_dir_esp : Bytes

-- DEFAULT_EFI_BLOB on a machine of 64 bits
abbrev default_efi_blob : Bytes
default_efi_blob = codes "BOOTX64.EFI"

-- "%s-%s-%s-%d.conf"
unfoldable pub entry_name : Bytes → Kernel → Bytes
entry_name prefix k =
    prefix
    ++ (b'-'
        ∷ (k.meta.ktype
            ++ (b'-' ∷ (k.meta.version ++ (b'-' ∷ (show_ℤ k.meta.release ++ codes ".conf"))))))

module _ (P : Platform) where
  -- What `sd_class_init` sets.
  unfoldable pub sd_class_config_of : BootLoaderConfig → World P.host.State → SdClassConfig
  sd_class_config_of config w =
      let base_path = get_boot_dir P w in
      let path = P.host.build_case_correct_path w.host base_path in
      let kernel_dir = path (codes "EFI" ∷ P.config.kernel_namespace ∷ []) in
      record {
        efi_dir = path (codes "EFI" ∷ codes "Boot" ∷ []);
        vendor_dir = path (codes "EFI" ∷ config.vendor_dir ∷ []);
        entries_dir = path (codes "loader" ∷ codes "entries" ∷ []);
        base_path = base_path;
        efi_blob_source = (w.manager.sysconfig.prefix // config.efi_dir) // config.efi_blob;
        efi_blob_dest = path (codes "EFI" ∷ config.vendor_dir ∷ config.efi_blob ∷ []);
        default_path_efi_blob = path (codes "EFI" ∷ codes "Boot" ∷ default_efi_blob ∷ []);
        loader_config = path (codes "loader" ∷ codes "loader.conf" ∷ []);
        kernel_dir = kernel_dir;
        kernel_dir_esp = drop (length base_path) kernel_dir;
      }

  module _ (c : SdClassConfig) where
    -- `get_entry_path_for_kernel`
    unfoldable pub get_entry_path_for_kernel : Kernel → World P.host.State → Bytes
    unfolding entry_name
    get_entry_path_for_kernel k w =
        P.host.build_case_correct_path w.host c.base_path
          (codes "loader" ∷ codes "entries" ∷ entry_name P.config.vendor_prefix k ∷ [])

    -- A directory is made, and the file systems are synced.
    unfoldable pub ensure_dir : Bytes → M P.host.State Bool
    ensure_dir dir = and_then (call (P.host.mkdir_p dir)) (cbm_sync P.host >> pure true)

    -- `sd_class_ensure_dirs`
    unfoldable pub ensure_dirs : M P.host.State Bool
    unfolding ensure_dir
    ensure_dirs = and_then (ensure_dir c.efi_dir) (
        and_then (ensure_dir c.vendor_dir)
          (and_then (ensure_dir c.kernel_dir) (ensure_dir c.entries_dir)))
