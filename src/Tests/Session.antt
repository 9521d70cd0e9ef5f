-- ===== src/Tests/Session.antt =====
-- systemd-boot on a system that has files, and a variable of the program beside them.
use clr_boot_manager.Tests.TextMap.{put, get}
use clr_boot_manager.Prelude.{◌≡◌, refl, true, Option, none, some, [], codes, arith, streq}
use clr_boot_manager.Kernel.Name.{show_kernel_name}
use clr_boot_manager.Platform.{Host, Platform, World}
use clr_boot_manager.Monad.{Keeps, and_then, asks, call, pure, ◌>>=◌, ◌>>◌}
use clr_boot_manager.Files.{cbm_sync, copy_file_atomic}
use clr_boot_manager.Files.Frame.{Reads, copy_file_atomic-Keeps}
use clr_boot_manager.Files.Stored.{StoresTexts}
use clr_boot_manager.Files.Text.{
  write_if_changed, file_holds, holds, file_get_text, file_set_text, unlink_if_there, write_synced,
}
use clr_boot_manager.BootLoaders.SdClass.{SdClassConfig}
use clr_boot_manager.BootLoaders.SdClass.Default
use clr_boot_manager.BootLoaders.SdClass.Default.RoundTrip.{name_of}
use clr_boot_manager.BootLoaders.SdClass.Vtable.{Variable, systemd_bootloader, init, with_paths}
use clr_boot_manager.BootLoaders.SdClass.Vtable.Session.{IsVariable, systemd_bootloader_default}
use clr_boot_manager.Tests.Disk.{disk, disk-LeavesOthers, disk-StoresTexts}
use clr_boot_manager.Tests.Machine.{build, boot_loader, manager}
use clr_boot_manager.Tests.Loaders.{kernel, kernel-IsEntry}

copy_file_atomic-Keeps_example :
    Keeps
      (Reads disk (codes "c") (some (codes "text")))
      (copy_file_atomic disk (codes "a") (codes "b"))
copy_file_atomic-Keeps_example =
    copy_file_atomic-Keeps disk (codes "c") (disk-LeavesOthers (codes "c")) (some (codes "text"))
      (codes "a") (codes "b") (unfold streq in refl) (unfold streq in refl)

-- A call on the first part of a state.
abbrev pub on_first : {A S B : Type 0} → (S → A × S) → S × B → A × (S × B)
on_first f s = ((f s.0).0, ((f s.0).1, s.1))

-- A host with a variable beside its state.
abbrev pub beside : Type 0 → Host → Host
beside B h = record {
  State = h.State × B;
  file_exists = λ s path. h.file_exists s.0 path;
  read = λ s path. h.read s.0 path;
  stat = λ s path. h.stat s.0 path;
  lstat = λ s path. h.lstat s.0 path;
  realpath = λ s path. h.realpath s.0 path;
  readlink = λ s path. h.readlink s.0 path;
  list_dir = λ s path. h.list_dir s.0 path;
  glob = λ s path. h.glob s.0 path;
  unlink = λ path s. on_first (h.unlink path) s;
  rm_rf = λ path s. on_first (h.rm_rf path) s;
  mkdir_p = λ path s. on_first (h.mkdir_p path) s;
  rename = λ from to s. on_first (h.rename from to) s;
  create = λ path s. on_first (h.create path) s;
  write = λ path text s. on_first (h.write path text) s;
  sendfile = λ target src off count s. on_first (h.sendfile target src off count) s;
  sync = λ s. (h.sync s.0, s.1);
  mounts = λ s. h.mounts s.0;
  mount = λ device target fs s. on_first (h.mount device target fs) s;
  umount = λ path s. on_first (h.umount path) s;
  executable = λ s path. h.executable s.0 path;
  system = λ command s. on_first (h.system command) s;
  write_device = λ path bytes s. on_first (h.write_device path bytes) s;
  symlink = λ target path s. on_first (h.symlink target path) s;
  chmod_executable = λ path s. on_first (h.chmod_executable path) s;
  getenv = λ s name. h.getenv s.0 name;
  sysfs_path = h.sysfs_path;
  devfs_path = h.devfs_path;
  wholedisk_of_device = λ s path. h.wholedisk_of_device s.0 path;
  wholedisk_of_path = λ s path. h.wholedisk_of_path s.0 path;
  devno_to_devname = λ s n. h.devno_to_devname s.0 n;
  safeprobe = λ s path. h.safeprobe s.0 path;
  partitions = λ s path. h.partitions s.0 path;
  blkid_type = λ s path. h.blkid_type s.0 path;
  probe_path = λ s path. h.probe_path s.0 path;
  build_case_correct_path = λ s root names. h.build_case_correct_path s.0 root names;
}

abbrev loader_host : Host
loader_host = beside (Option SdClassConfig) disk

abbrev loader_platform : Platform
loader_platform = record {
  host = loader_host;
  config = build;
  loader = λ i. boot_loader 38;
  known_loaders = [];
  qsort = λ compare ks. ks;
  map_order = λ m. m;
  initrd_order = λ m. m;
  map_put = put;
  map_get = get;
}

abbrev variable : Variable loader_host.State (Option SdClassConfig)
variable = record { get = λ s. s.1; put = λ a s. (s.0, a) }

variable-IsVariable : IsVariable loader_platform variable
variable-IsVariable = record {
  put_get = λ a s. refl;
  unlinked = λ path s. refl;
  written = λ path text s. refl;
  synced = λ s. refl;
}

loader_host-StoresTexts : StoresTexts loader_host
loader_host-StoresTexts = record {
  written_read = λ path text s ok. disk-StoresTexts.written_read path text s.0 ok;
  synced_read = λ path s. disk-StoresTexts.synced_read path s.0;
}

abbrev start : World loader_host.State
start = record { manager = manager true; host = (λ path. none, none) }

default_set :
    ((systemd_bootloader loader_platform variable).set_default_kernel
      (kernel 10)
      ((systemd_bootloader loader_platform variable).init start).1).0
    ≡ true
unfolding systemd_bootloader init with_paths Default.set_default_kernel write_if_changed file_holds
    holds file_get_text file_set_text unlink_if_there write_synced and_then asks call pure cbm_sync
    ◌>>=◌ ◌>>◌
default_set = refl

systemd_bootloader_default_example :
    ((systemd_bootloader loader_platform variable).get_default_kernel
      ((systemd_bootloader loader_platform variable).set_default_kernel
        (kernel 10)
        ((systemd_bootloader loader_platform variable).init start).1).1).0
    ≡ some (show_kernel_name (codes "org.clr") (name_of (kernel 10)))
systemd_bootloader_default_example =
    systemd_bootloader_default loader_platform variable variable-IsVariable loader_host-StoresTexts
      (kernel 10) start (kernel-IsEntry 10 (omega arith)) default_set
