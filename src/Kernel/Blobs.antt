-- ===== src/Kernel/Blobs.antt =====
-- bootman/kernel.c: the files of a kernel on the boot partition, and their removal.
use clr_boot_manager.Prelude.{
  Bool, true, false, ◌&&◌, Option, none, some, List, [], ◌∷◌, ◌++◌, Bytes, if◌then◌else◌, codes,
}
use clr_boot_manager.Libc.{basename}
use clr_boot_manager.Kernel.{Kernel}
use clr_boot_manager.Kernel.Paths.{is_usr, without_usr, path_or_null}
use clr_boot_manager.Kernel.Inspect.{◌//◌}
use clr_boot_manager.Platform.{Platform, GlobResult, no_match, matches, failed, M}
use clr_boot_manager.Monad.{pure, ◌>>=◌, ◌>>◌, and_then, asks, call, for_all}
use clr_boot_manager.Files.{files_match, copy_file_atomic, cbm_sync}
use clr_boot_manager.BootMan.BootDir.{get_boot_dir, with_loader, is_uefi, efi_boot_dir}

module _ (P : Platform) where
  -- Copies a file unless the target has the same bytes.
  unfoldable pub copy_if_changed : Bytes → Bytes → M P.host.State Bool
  copy_if_changed src target = do
    same ← asks (λ w. files_match P.host w.host src target)
    if same then pure true else copy_file_atomic P.host src target

  -- `nc_file_exists(path)`, and then `unlink(path)`; false if that fails.
  unfoldable pub remove_if_there : Bytes → M P.host.State Bool
  remove_if_there path = do
    there ← asks (λ w. P.host.file_exists w.host path)
    if there then call (P.host.unlink path) else pure true

  -- `boot_manager_remove_legacy_uefi_kernel`
  unfoldable pub remove_legacy_uefi_kernel : Kernel → M P.host.State Bool
  remove_legacy_uefi_kernel k = do
    base_path ← asks (get_boot_dir P)
    kernel_gone ← remove_if_there (base_path // k.target.legacy_path)
    initrd_gone ← remove_if_there (base_path // path_or_null k.target.initrd_path)
    pure (kernel_gone && initrd_gone)

  -- `_copy_glob_result`
  copy_glob_result : Bytes → List Bytes → M P.host.State Bool
  copy_glob_result target_dir = for_all (λ path. copy_if_changed path (target_dir // basename path))

  copy_globbed : Bytes → GlobResult → M P.host.State Bool
  unfolding copy_glob_result
  copy_globbed target_dir no_match = pure true
  copy_globbed target_dir failed = pure false
  copy_globbed target_dir (matches paths) = copy_glob_result target_dir paths

  -- `_copy_extra_initrds`
  unfoldable pub copy_extra_initrds : Bytes → Bytes → M P.host.State Bool
  unfolding copy_globbed
  copy_extra_initrds initrd_base target_dir =
      asks (λ w. P.host.glob w.host (initrd_base ++ codes ".*")) >>= copy_globbed target_dir

  -- A failure here is logged only.
  unfoldable pub drop_legacy : Bool → Kernel → M P.host.State Bool
  drop_legacy uefi k = if uefi then remove_legacy_uefi_kernel k >> pure true else pure true

  -- The user's initrd goes before the system's.
  unfoldable pub initrd_source : Kernel → Option Bytes
  initrd_source k = elim k.source.user_initrd_file [
    | some file ↦ some file
    | none ↦ k.source.initrd_file
  ]

  unfoldable pub install_initrd : Bool → Bytes → Kernel → Option Bytes → M P.host.State Bool
  install_initrd uefi target_dir k none = pure true
  install_initrd uefi target_dir k (some source) =
      and_then (copy_if_changed source (target_dir // path_or_null k.target.initrd_path))
        (and_then (copy_extra_initrds source target_dir) (drop_legacy uefi k))

  -- The name of the kernel on the boot partition.
  abbrev pub kernel_file : Bool → Kernel → Bytes
  kernel_file uefi k = if uefi then k.target.path else k.target.legacy_path

  unfoldable pub install_blobs : Bool → Kernel → Option Bytes → M P.host.State Bool
  unfolding install_initrd initrd_source
  install_blobs uefi k none = pure false
  install_blobs uefi k (some dir) = do
    base_path ← asks (get_boot_dir P)
    and_then (copy_if_changed k.source.path ((base_path ++ dir) // kernel_file uefi k))
        (install_initrd uefi (base_path ++ dir) k (initrd_source k))

  -- `boot_manager_install_kernel_internal`
  unfoldable pub install_kernel_internal : Kernel → M P.host.State Bool
  unfolding install_blobs
  install_kernel_internal k =
      with_loader P false
        λ l. do uefi ← asks (is_uefi P l); dir ← asks (efi_boot_dir P l); install_blobs uefi k dir

  -- `_remove_glob_result` goes on after a failure.
  unfoldable pub remove_glob_result : List Bytes → M P.host.State Bool
  remove_glob_result [] = pure true
  remove_glob_result (path ∷ paths) = do
    gone ← call (P.host.unlink path)
    rest ← remove_glob_result paths
    pure (gone && rest)

  remove_globbed : GlobResult → M P.host.State Bool
  unfolding remove_glob_result
  remove_globbed no_match = pure true
  remove_globbed failed = pure false
  remove_globbed (matches paths) = remove_glob_result paths

  -- `_remove_extra_initrds`; the base may be NULL.
  unfoldable pub remove_extra_initrds : Option Bytes → M P.host.State Bool
  unfolding remove_globbed
  remove_extra_initrds base =
      asks (λ w. P.host.glob w.host (path_or_null base ++ codes ".*")) >>= remove_globbed

  -- Removes a tree if it is there, and syncs if that went well.
  purge_there : Bytes → Bool → M P.host.State (Unit {0})
  purge_there path false = pure tt
  purge_there path true = do
    gone ← call (P.host.rm_rf path)
    if gone then cbm_sync P.host else pure tt

  unfoldable pub purge_dir : Option Bytes → M P.host.State (Unit {0})
  unfolding purge_there
  purge_dir none = pure tt
  purge_dir (some path) = asks (λ w. P.host.file_exists w.host path) >>= purge_there path

  -- The place that a modules directory under /usr had before the merge.
  unmerged : Option Bytes → Option Bytes
  unmerged none = none
  unmerged (some dir) = if is_usr dir then some (without_usr dir) else none

  -- Removes a file if there is one; a failure is logged only.
  unfoldable pub remove_file : Option Bytes → M P.host.State (Unit {0})
  remove_file none = pure tt
  remove_file (some path) = remove_if_there path >> pure tt

  -- The kernel on the boot partition.
  remove_target : Bytes → M P.host.State (Unit {0})
  remove_target path = do gone ← remove_if_there path; if gone then cbm_sync P.host else pure tt

  unfoldable pub remove_blobs : Bool → Kernel → Option Bytes → M P.host.State Bool
  unfolding remove_target unmerged
  remove_blobs uefi k none = pure false
  remove_blobs uefi k (some dir) = do
    base_path ← asks (get_boot_dir P)
    let initrd_target : Option Bytes = elim k.source.initrd_file [
      | none ↦ none
      | some _ ↦ some ((base_path ++ dir) // path_or_null k.target.initrd_path)
    ]
    remove_target ((base_path ++ dir) // kernel_file uefi k)
    purge_dir k.source.module_dir
    purge_dir (unmerged k.source.module_dir)
    purge_dir k.source.headers_dir
    remove_file k.source.cmdline_file
    remove_file k.source.kconfig_file
    remove_file k.source.sysmap_file
    remove_file k.source.vmlinux_file
    remove_file k.source.kboot_file
    remove_file k.source.initrd_file
    remove_file initrd_target
    and_then (remove_extra_initrds k.source.initrd_file) (
        and_then (remove_extra_initrds initrd_target)
          (and_then (call (P.host.unlink k.source.path)) (drop_legacy uefi k)))

  -- `boot_manager_remove_kernel_internal`
  unfoldable pub remove_kernel_internal : Kernel → M P.host.State Bool
  unfolding remove_blobs
  remove_kernel_internal k =
      with_loader P false
        λ l. do uefi ← asks (is_uefi P l); dir ← asks (efi_boot_dir P l); remove_blobs uefi k dir
