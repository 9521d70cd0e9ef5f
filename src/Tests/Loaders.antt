-- ===== src/Tests/Loaders.antt =====
-- systemd-boot on a system whose state is its files.
use clr_boot_manager.Tests.TextMap.{get}
use clr_boot_manager.Prelude.{
  ◌≡◌, ◌<◌, refl, ℕ, true, false, Option, none, some, ◌++◌, Bytes, codes, streq, arith,
  if◌then◌else◌,
}
use clr_boot_manager.Int.{pos}
use clr_boot_manager.Libc.{has_byte}
use clr_boot_manager.Kernel.{Kernel}
use clr_boot_manager.Kernel.Name.RoundTrip.{IsName}
use clr_boot_manager.Kernel.Inspect.{c_string}
use clr_boot_manager.Platform.{World}
use clr_boot_manager.Monad.{and_then, asks, call, pure, ◌>>=◌, ◌>>◌}
use clr_boot_manager.OsRelease.{get_value, os_release_field}
use clr_boot_manager.BootMan.Prefix.{get_os_name, get_vconsole}
use clr_boot_manager.Files.{
  cbm_sync, files_match, both_match, copy_file_atomic, copy_file, send_stat, send_all, on_sent,
  clear_kind, clear_target, replace_target,
}
use clr_boot_manager.Writer.Sticky.{concat}
use clr_boot_manager.Files.Text.{
  file_get_text, write_if_changed, file_holds, holds, file_set_text, unlink_if_there, write_synced,
}
use clr_boot_manager.BootLoaders.SdClass.{
  entry_name, SdClassConfig, sd_class_config_of, ensure_dir, ensure_dirs, get_entry_path_for_kernel,
}
use clr_boot_manager.BootLoaders.SdClass.Default.{set_default_kernel}
use clr_boot_manager.BootLoaders.SdClass.Default.RoundTrip.{IsLine, IsEntry, name_of}
use clr_boot_manager.BootLoaders.SdClass.Default.Stored.{entry_name-injective}
use clr_boot_manager.BootLoaders.SdClass.Entry.{
  install_kernel, install_entry, file_line, append_extra_initrds, option_pieces,
}
use clr_boot_manager.BootLoaders.SdClass.Entry.Text.{all_initrds, entry_text, install_kernel-stored}
use clr_boot_manager.BootLoaders.SdClass.Blob.{update, update_blob, needs_update}
use clr_boot_manager.BootLoaders.SdClass.Blob.Current.{IsApart, Copies, needs_update-update}
use clr_boot_manager.BootLoaders.SdClass.Vtable.{systemd_boot_config}
use clr_boot_manager.Tests.Disk.{
  disk, set, send, disk-SendsBytes, disk-Replaces, disk-LeavesOthers, disk-StoresTexts,
  platform_of_disk,
}
use clr_boot_manager.Tests.Machine.{manager, root_probe}

abbrev pub kernel : ℕ → Kernel
kernel release = record {
  addr = 0;
  meta = record {
    bpath = codes "org.clr.native.5.4-10";
    version = codes "5.4";
    release = pos release;
    ktype = codes "native";
    cmdline = codes "quiet";
    boots = true;
  };
  source = record {
    path = codes "/usr/lib/kernel/org.clr.native.5.4-10";
    cmdline_file = none;
    kconfig_file = none;
    initrd_file = none;
    user_initrd_file = none;
    kboot_file = none;
    module_dir = none;
    sysmap_file = none;
    vmlinux_file = none;
    headers_dir = none;
  };
  target = record {
    path = codes "kernel-org.clr.native.5.4-10";
    legacy_path = codes "org.clr.native.5.4-10";
    initrd_path = some (codes "initrd-org.clr.native.5.4-10");
  };
}

abbrev pub fresh : World (Bytes → Option Bytes)
fresh = record { manager = manager true; host = λ path. none }

abbrev paths : SdClassConfig
paths = sd_class_config_of platform_of_disk systemd_boot_config fresh

pub kernel-IsEntry : (n : ℕ) → n < 100 → IsEntry (codes "clr") (kernel n)
kernel-IsEntry n h = record {
  prefix_line = line (codes "clr") (unfold has_byte in refl) (unfold has_byte in refl);
  type_some = omega arith;
  type_fits = omega arith;
  type_line = line (codes "native") (unfold has_byte in refl) (unfold has_byte in refl);
  version_some = omega arith;
  version_fits = omega arith;
  version_no_dash = unfold has_byte in refl;
  version_line = line (codes "5.4") (unfold has_byte in refl) (unfold has_byte in refl);
  number = n;
  release = refl;
  release_fits = omega arith;
}
  where
    line : (s : Bytes) → has_byte b'\n' s ≡ false → has_byte 0 s ≡ false → IsLine s
    line s a b = record { no_newline = a; no_nul = b }

kernel-IsName : (n : ℕ) → IsName (name_of (kernel n))
kernel-IsName n = record {
  type_some = omega arith;
  type_fits = omega arith;
  type_no_dot = unfold has_byte in refl;
  version_some = omega arith;
  version_fits = omega arith;
  version_no_dash = unfold has_byte in refl;
}

default_set : (set_default_kernel platform_of_disk paths (some (kernel 10)) fresh).0 ≡ true
unfolding set_default_kernel write_if_changed file_holds holds file_get_text file_set_text
    unlink_if_there write_synced and_then asks call pure cbm_sync ◌>>=◌ ◌>>◌
default_set = refl

-- The kernel of the same name in another directory, which has not booted.
abbrev copied_kernel : Kernel
copied_kernel = record (kernel 10) {
  addr = 1;
  meta = record (kernel 10).meta { boots = false };
  source = record (kernel 10).source { path = codes "/opt/kernel/org.clr.native.5.4-10" };
}

copied-IsEntry : IsEntry (codes "clr") copied_kernel
copied-IsEntry =
    let e = kernel-IsEntry 10 (omega arith) in
    record {
      prefix_line = e.prefix_line;
      type_some = e.type_some;
      type_fits = e.type_fits;
      type_line = e.type_line;
      version_some = e.version_some;
      version_fits = e.version_fits;
      version_no_dash = e.version_no_dash;
      version_line = e.version_line;
      number = 10;
      release = refl;
      release_fits = omega arith;
    }

entry_name-injective_example : name_of (kernel 10) ≡ name_of copied_kernel
unfolding entry_name
entry_name-injective_example =
    entry_name-injective platform_of_disk (kernel 10) copied_kernel
      (kernel-IsEntry 10 (omega arith)) copied-IsEntry (kernel-IsName 10) (kernel-IsName 10) refl

installed :
    (install_kernel platform_of_disk (codes "/EFI/org.clr") paths (kernel 10) fresh).0 ≡ true
unfolding install_kernel install_entry write_if_changed file_holds holds file_get_text file_set_text
    unlink_if_there write_synced and_then asks call pure cbm_sync ◌>>=◌ ◌>>◌
installed = refl

entry_clean :
    c_string (entry_text platform_of_disk (codes "/EFI/org.clr") (kernel 10) root_probe fresh)
    ≡ entry_text platform_of_disk (codes "/EFI/org.clr") (kernel 10) root_probe fresh
unfolding get c_string entry_text all_initrds concat get_os_name get_value streq os_release_field
    file_line append_extra_initrds option_pieces get_vconsole
entry_clean = refl

install_kernel-stored_example :
    file_get_text disk
      (get_entry_path_for_kernel platform_of_disk paths (kernel 10) fresh)
      (install_kernel platform_of_disk (codes "/EFI/org.clr") paths (kernel 10) fresh).1
    ≡ some (entry_text platform_of_disk (codes "/EFI/org.clr") (kernel 10) root_probe fresh)
install_kernel-stored_example =
    install_kernel-stored platform_of_disk (codes "/EFI/org.clr") disk-StoresTexts paths (kernel 10)
      root_probe fresh refl entry_clean installed

-- Files with short names.
abbrev small : SdClassConfig
small = record paths {
  efi_dir = codes "d";
  vendor_dir = codes "v";
  kernel_dir = codes "k";
  entries_dir = codes "e";
  efi_blob_source = codes "s";
  efi_blob_dest = codes "t";
  default_path_efi_blob = codes "u";
}

-- The loader of the system is there, and none on the boot partition.
abbrev blob : World (Bytes → Option Bytes)
blob = record {
  manager = manager true;
  host = λ path. if streq path small.efi_blob_source then some (codes "EFI") else none;
}

apart :
    (target kept : Bytes)
    → streq target kept ≡ false
    → streq (target ++ codes ".TmpWrite") kept ≡ false
    → IsApart disk target kept
apart target kept a b = record {
  others = disk-LeavesOthers kept;
  target_apart = a;
  temporary_apart = b;
}

blob-Copies :
    (target : Bytes)
    → streq target small.efi_blob_source ≡ false
    → streq (target ++ codes ".TmpWrite") small.efi_blob_source ≡ false
    → streq target (target ++ codes ".TmpWrite") ≡ false
    → Copies disk small.efi_blob_source target
blob-Copies target a b c = record {
  sends = disk-SendsBytes (target ++ codes ".TmpWrite") small.efi_blob_source b;
  replaces = disk-Replaces (target ++ codes ".TmpWrite") target c;
  source_apart = apart target small.efi_blob_source a b;
}

updated : (update platform_of_disk small blob).0 ≡ true
unfolding update update_blob ensure_dirs ensure_dir and_then call pure asks cbm_sync files_match
    both_match streq set send copy_file_atomic copy_file send_stat send_all on_sent clear_kind
    clear_target replace_target ◌>>◌ ◌>>=◌
updated = refl

needs_update-update_example :
    needs_update platform_of_disk small (update platform_of_disk small blob).1 ≡ false
unfolding streq
needs_update-update_example =
    needs_update-update platform_of_disk small (blob-Copies small.efi_blob_dest refl refl refl)
      (blob-Copies small.default_path_efi_blob refl refl refl)
      (apart small.default_path_efi_blob small.efi_blob_dest refl refl) (codes "EFI") blob refl
      updated
