-- ===== src/Tests/Machine.antt =====
-- A system whose kernel directory holds a running kernel and an older one.
use clr_boot_manager.Tests.TextMap.{put, get}
use clr_boot_manager.Prelude.{
  ℕ, ◌==◌, Bool, true, false, none, some, List, [], ◌∷◌, Bytes, codes, streq, length, ltb,
  if◌then◌else◌,
}
use clr_boot_manager.Int.{pos}
use clr_boot_manager.Platform.{
  regular, symlink, no_match, Host, BuildConfig, LoaderId, systemd, grub2, extlinux, BootManager,
  CbmDeviceProbe, World, BootLoader, Platform,
}
use clr_boot_manager.Kernel.Inspect.{◌//◌}
use clr_boot_manager.Laws.{IsLawful}

-- The directories of the system.
abbrev pub build : BuildConfig
build = record {
  kernel_directory = codes "/usr/lib/kernel";
  initrd_directory = codes "/usr/lib/initrd.d";
  user_initrd_directory = codes "/etc/initrd.d";
  kernel_modules_directory = codes "/usr/lib/modules";
  kernel_conf_directory = codes "/etc/kernel";
  vendor_kernel_conf_directory = codes "/usr/share/kernel";
  kernel_namespace = codes "org.clr";
  boot_directory = codes "/boot";
  vendor_prefix = codes "clr";
}

abbrev pub names : List Bytes
names = codes "org.clr.native.5.4-10" ∷ codes "org.clr.native.5.4-9" ∷ codes "README" ∷ []

abbrev pub root_probe : CbmDeviceProbe
root_probe = record {
  uuid = some (codes "u1");
  part_uuid = some (codes "p1");
  luks_uuid = none;
  btrfs_sub = none;
  gpt = true;
}

-- The names below the root, as they are.
unfoldable pub path_below : Bytes → List Bytes → Bytes
path_below root [] = root
path_below root (name ∷ names) = path_below (root // name) names

-- Every file is there with the same bytes, so nothing is copied; `State` holds nothing.
abbrev pub machine : Host
machine = record {
  State = Unit {0};
  file_exists = λ s path. true;
  read = λ s path. some [];
  stat = λ s path. some (record { kind = regular; size = 1 });
  lstat = λ s path. some (record { kind = regular; size = 1 });
  realpath = λ s path. some path;
  readlink = λ s path. none;
  list_dir = λ s path. if streq path (codes "/usr/lib/kernel") then some names else some [];
  glob = λ s path. no_match;
  unlink = λ path s. (true, s);
  rm_rf = λ path s. (true, s);
  mkdir_p = λ path s. (true, s);
  rename = λ from to s. (true, s);
  create = λ path s. (true, s);
  write = λ path text s. (true, s);
  sendfile = λ target src off count s. (some count, s);
  sync = λ s. s;
  mounts = λ s. some (record { mnt_fsname = codes "/dev/sda1"; mnt_dir = codes "//boot" } ∷ []);
  mount = λ device target fs s. (true, s);
  umount = λ path s. (true, s);
  executable = λ s path. true;
  system = λ command s. (true, s);
  write_device = λ path bytes s. (some (length bytes), s);
  symlink = λ target path s. (true, s);
  chmod_executable = λ path s. (true, s);
  getenv = λ s name. none;
  sysfs_path = codes "/sys";
  devfs_path = codes "/dev";
  wholedisk_of_device = λ s path. none;
  wholedisk_of_path = λ s path. none;
  devno_to_devname = λ s n. none;
  safeprobe = λ s path. true;
  partitions = λ s path. none;
  blkid_type = λ s path. some (codes "vfat");
  probe_path = λ s path. some root_probe;
  build_case_correct_path = λ s root names. path_below root names;
}

-- Files have three bytes, and each call of sendfile moves one of them, until the end.
abbrev pub slow_source : Host
slow_source = record machine {
  stat = λ s path. some (record { kind = regular; size = 3 });
  sendfile =
      λ target src off count s. (some (if count == 0 then 0 else if ltb off 3 then 1 else 0), s);
}

-- The directories hold two initrds, which are links to /dev/null.
abbrev pub masking_machine : Host
masking_machine = record machine {
  lstat = λ s path. some (record { kind = symlink; size = 9 });
  readlink = λ s path. some (codes "/dev/null");
  list_dir = λ s path. some (codes "10-b.cpio" ∷ codes "00-a.cpio" ∷ []);
}

-- A boot loader with the given capabilities, whose calls succeed.
abbrev pub boot_loader : {S : Type 0} → ℕ → BootLoader S
boot_loader caps = record {
  init = λ w. (true, w);
  destroy = λ w. (tt, w);
  get_kernel_destination = λ w. some (codes "/EFI/org.clr");
  install_kernel = λ k w. (true, w);
  remove_kernel = λ k w. (true, w);
  set_default_kernel = λ k w. (true, w);
  get_default_kernel = λ w. (none, w);
  needs_update = λ w. (false, w);
  needs_install = λ w. (true, w);
  install = λ w. (true, w);
  update = λ w. (true, w);
  remove = λ w. (true, w);
  get_capabilities = λ w. caps;
}

unfoldable pub loader_of : LoaderId → BootLoader (Unit {0})
loader_of systemd = boot_loader 38
loader_of _ = boot_loader 72

abbrev pub platform : Platform
platform = record {
  host = machine;
  config = build;
  loader = loader_of;
  known_loaders = grub2 ∷ systemd ∷ extlinux ∷ [];
  qsort = λ compare ks. ks;
  map_order = λ m. m;
  initrd_order = λ m. m;
  map_put = put;
  map_get = get;
}

abbrev pub masking_platform : Platform
masking_platform = record {
  host = masking_machine;
  config = build;
  loader = loader_of;
  known_loaders = grub2 ∷ systemd ∷ extlinux ∷ [];
  qsort = λ compare ks. ks;
  map_order = λ m. m;
  initrd_order = λ m. m;
  map_put = put;
  map_get = get;
}

pub platform-IsLawful : IsLawful platform
platform-IsLawful = record { qsort_among = λ compare k ks m. m; map_order_all = λ R m a. a }

abbrev pub manager : Bool → BootManager
manager sane = record {
  kernel_dir = codes "/usr/lib/kernel";
  bootloader = some systemd;
  abs_bootdir = none;
  sys_kernel = record { version = codes "5.4"; ktype = codes "native"; release = pos 10 };
  have_sys_kernel = true;
  os_release = (codes "PRETTY_NAME", codes "Solus 4") ∷ [];
  vconsole = (codes "KEYMAP", codes "us") ∷ [];
  image_mode = false;
  update_efi_vars = true;
  sysconfig = record {
    prefix = codes "/";
    root_device = if sane then some root_probe else none;
    boot_device = some (codes "/dev/sda1");
    wanted_boot_mask = 38;
  };
  cmdline = none;
  initrd_freestanding_dir = codes "/usr/lib/initrd.d";
  user_initrd_freestanding_dir = codes "/etc/initrd.d";
  initrd_freestanding = [];
  ucode_initrd = none;
}

abbrev pub world : Bool → World (Unit {0})
world sane = record { manager = manager sane; host = tt }
