-- ===== src/BootLoaders/SdClass/Blob.antt =====
-- bootloaders/systemd-class.c: the loader itself on the boot partition.
pub mod Current
use clr_boot_manager.Prelude.{Bool, true, false, not, ◌&&◌, ◌||◌, ℕ, Bytes, if◌then◌else◌, bit_or}
use clr_boot_manager.Platform.{Platform, World, M}
use clr_boot_manager.Monad.{pure, ◌>>=◌, ◌>>◌, and_then, asks, call}
use clr_boot_manager.Files.{files_match, copy_file_atomic, cbm_sync}
use clr_boot_manager.Files.Text.{unlink_if_there}
use clr_boot_manager.BootMan.BootDir.{cap_gpt, cap_uefi, cap_fatfs}
use clr_boot_manager.BootLoaders.SdClass.{SdClassConfig, ensure_dirs}

-- `sd_class_get_capabilities`
abbrev pub sd_class_capabilities : ℕ
sd_class_capabilities = bit_or (bit_or cap_gpt cap_uefi) cap_fatfs

module _ (P : Platform) where
  -- The target is there, and is not the same as the source.
  unfoldable pub stale : Bytes → Bytes → World P.host.State → Bool
  stale source_path check_p w =
      P.host.file_exists w.host check_p && not (files_match P.host w.host source_path check_p)

  -- A copy of the source at the target, and a sync.
  unfoldable pub install_blob : Bytes → Bytes → M P.host.State Bool
  install_blob source target =
      and_then (copy_file_atomic P.host source target) (cbm_sync P.host >> pure true)

  -- The same, unless the target matches the source.
  unfoldable pub update_blob : Bytes → Bytes → M P.host.State Bool
  update_blob source target = do
    same ← asks (λ w. files_match P.host w.host source target)
    and_then (if same then pure true else copy_file_atomic P.host source target)
        (cbm_sync P.host >> pure true)

  -- `nc_rm_rf` of what is there
  unfoldable pub rm_rf_if_there : Bytes → M P.host.State Bool
  rm_rf_if_there path = do
    there ← asks (λ w. P.host.file_exists w.host path)
    if there then call (P.host.rm_rf path) else pure true

  module _ (c : SdClassConfig) where
    -- `sd_class_needs_install`
    unfoldable pub needs_install : World P.host.State → Bool
    needs_install w =
        not (P.host.file_exists w.host c.efi_blob_source)
        || not (P.host.file_exists w.host c.efi_blob_dest)
        || not (P.host.file_exists w.host c.default_path_efi_blob)

    -- `sd_class_needs_update`
    unfoldable pub needs_update : World P.host.State → Bool
    unfolding stale
    needs_update w =
        stale c.efi_blob_source c.efi_blob_dest w
        || stale c.efi_blob_source c.default_path_efi_blob w

    -- `sd_class_install`
    unfoldable pub install : M P.host.State Bool
    unfolding ensure_dirs install_blob
    install = and_then (ensure_dirs P c) (
        and_then (install_blob c.efi_blob_source c.efi_blob_dest)
          (install_blob c.efi_blob_source c.default_path_efi_blob))

    -- `sd_class_update`
    unfoldable pub update : M P.host.State Bool
    unfolding ensure_dirs update_blob
    update = and_then (ensure_dirs P c) (
        and_then (update_blob c.efi_blob_source c.efi_blob_dest)
          (update_blob c.efi_blob_source c.default_path_efi_blob))

    -- `sd_class_remove`
    unfoldable pub remove : M P.host.State Bool
    unfolding rm_rf_if_there
    remove = and_then (rm_rf_if_there c.vendor_dir) (
        cbm_sync P.host
        >> and_then (unlink_if_there P.host c.default_path_efi_blob) (
            cbm_sync P.host
            >> and_then (unlink_if_there P.host c.loader_config) (cbm_sync P.host >> pure true)))
