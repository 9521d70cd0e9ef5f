-- ===== src/Platform.antt =====
-- What the boot manager stands on: the system calls and libraries that it uses, the names that the
-- build configures, the state of the manager (bootman/bootman_private.h), and the vtable of a boot
-- loader (bootloaders/bootloader.h).
use clr_boot_manager.Prelude.{ℕ, Bool, Option, List, Bytes}
use clr_boot_manager.Int.{ℤ}
use clr_boot_manager.Kernel.{Kernel, SystemKernel}

-- The file kinds that `lstat` tells apart.
pub data FileKind : Type 0 where
  regular symlink directory other : FileKind

pub record Stat : Type 0 where
  pub kind : FileKind
  pub size : ℕ

-- The outcome of `glob(3)`: GLOB_NOMATCH, 0 with the paths, or another error.
pub data GlobResult : Type 0 where
  no_match : GlobResult
  matches : List Bytes → GlobResult
  failed : GlobResult

-- `CbmDeviceProbe`
pub record CbmDeviceProbe : Type 0 where
  pub uuid : Option Bytes
  pub part_uuid : Option Bytes
  pub luks_uuid : Option Bytes
  pub btrfs_sub : Option Bytes
  pub gpt : Bool

-- `struct mntent`
pub record Mntent : Type 0 where
  pub mnt_fsname : Bytes
  pub mnt_dir : Bytes

-- `blkid_partition`
pub record Partition : Type 0 where
  pub uuid : Option Bytes
  pub flags : ℕ

-- The operating system, the C library and libnica over a state that the program does not see.
-- A `Bool` result says whether the call succeeded; a query leaves the state alone.
pub record Host : Type 1 where
  pub State : Type 0
  pub file_exists : State → Bytes → Bool
  pub read : State → Bytes → Option Bytes
  pub stat : State → Bytes → Option Stat
  pub lstat : State → Bytes → Option Stat
  pub realpath : State → Bytes → Option Bytes
  pub readlink : State → Bytes → Option Bytes
  pub list_dir : State → Bytes → Option (List Bytes)
  pub glob : State → Bytes → GlobResult
  pub unlink : Bytes → State → Bool × State
  pub rm_rf : Bytes → State → Bool × State
  pub mkdir_p : Bytes → State → Bool × State
  pub rename : Bytes → Bytes → State → Bool × State
  -- open(path, O_WRONLY | O_TRUNC | O_CREAT)
  pub create : Bytes → State → Bool × State
  -- fopen(path, "w"), fprintf and fclose
  pub write : Bytes → Bytes → State → Bool × State
  -- sendfile to the first path, from the second at an offset, of at most so many bytes
  pub sendfile : Bytes → Bytes → ℕ → ℕ → State → Option ℕ × State
  pub sync : State → State
  -- the entries of /proc/self/mounts; none if it cannot be opened
  pub mounts : State → Option (List Mntent)
  -- device, target and file system name
  pub mount : Bytes → Bytes → Bytes → State → Bool × State
  pub umount : Bytes → State → Bool × State
  -- access(path, X_OK) == 0
  pub executable : State → Bytes → Bool
  -- cbm_system_system(command) == 0
  pub system : Bytes → State → Bool × State
  -- open(path, O_WRONLY), and write of so many bytes; none if the file cannot be opened or written
  pub write_device : Bytes → Bytes → State → Option ℕ × State
  pub symlink : Bytes → Bytes → State → Bool × State
  -- chmod(path, 00755)
  pub chmod_executable : Bytes → State → Bool × State
  pub getenv : State → Bytes → Option Bytes
  pub sysfs_path : Bytes
  pub devfs_path : Bytes
  -- libblkid: the number of the whole disk of a device that it can probe, and of the device that a
  -- path is on
  pub wholedisk_of_device : State → Bytes → Option ℕ
  pub wholedisk_of_path : State → Bytes → Option ℕ
  pub devno_to_devname : State → ℕ → Option Bytes
  -- libblkid: whether it can probe a disk, and the partitions of a disk that it can open
  pub safeprobe : State → Bytes → Bool
  pub partitions : State → Bytes → Option (List Partition)
  -- the TYPE that libblkid finds on a device; none if it cannot open or probe it, or finds none
  pub blkid_type : State → Bytes → Option Bytes
  -- what lib/probe.c finds of the device of a path
  pub probe_path : State → Bytes → Option CbmDeviceProbe
  -- libnica's `nc_build_case_correct_path`: the path of names below a root, in the case of the files
  -- that are there
  pub build_case_correct_path : State → Bytes → List Bytes → Bytes

-- meson_options.txt
pub record BuildConfig : Type 0 where
  pub kernel_directory : Bytes
  pub initrd_directory : Bytes
  pub user_initrd_directory : Bytes
  pub kernel_modules_directory : Bytes
  pub kernel_conf_directory : Bytes
  pub vendor_kernel_conf_directory : Bytes
  pub kernel_namespace : Bytes
  pub boot_directory : Bytes
  pub vendor_prefix : Bytes

-- `SystemConfig`
pub record SystemConfig : Type 0 where
  pub prefix : Bytes
  pub root_device : Option CbmDeviceProbe
  pub boot_device : Option Bytes
  pub wanted_boot_mask : ℕ

-- `struct InitrdEntry`; no name masks the initrd.
pub record InitrdEntry : Type 0 where
  pub name : Option Bytes
  pub dir : Bytes

-- The members of `bootman_known_loaders`.
pub data LoaderId : Type 0 where
  shim_systemd systemd grub2 syslinux extlinux : LoaderId

-- `struct BootManager`, on which `boot_manager_set_prefix` has set the system configuration and the
-- directories. The private data of the boot loaders is in the host's state.
pub record BootManager : Type 0 where
  pub kernel_dir : Bytes
  pub bootloader : Option LoaderId
  pub abs_bootdir : Option Bytes
  pub sys_kernel : SystemKernel
  pub have_sys_kernel : Bool
  pub os_release : List (Bytes × Bytes)
  pub vconsole : List (Bytes × Bytes)
  pub image_mode : Bool
  pub update_efi_vars : Bool
  pub sysconfig : SystemConfig
  pub cmdline : Option Bytes
  pub initrd_freestanding_dir : Bytes
  pub user_initrd_freestanding_dir : Bytes
  pub initrd_freestanding : List (Bytes × InitrdEntry)
  pub ucode_initrd : Option Bytes

-- The manager and the state of the host.
pub record World (S : Type 0) : Type 0 where
  pub manager : BootManager
  pub host : S

-- An operation returns its result and the new world.
abbrev pub M : Type 0 → Type 0 → Type 0
M S A = World S → A × World S

-- `struct BootLoader`
pub record BootLoader (S : Type 0) : Type 0 where
  pub init : M S Bool
  pub destroy : M S (Unit {0})
  pub get_kernel_destination : World S → Option Bytes
  pub install_kernel : Kernel → M S Bool
  pub remove_kernel : Kernel → M S Bool
  pub set_default_kernel : Kernel → M S Bool
  pub get_default_kernel : M S (Option Bytes)
  pub needs_update : M S Bool
  pub needs_install : M S Bool
  pub install : M S Bool
  pub update : M S Bool
  pub remove : M S Bool
  pub get_capabilities : World S → ℕ

-- `qsort` is the C library's, by a comparison; `map_put` and `map_get` are `nc_hashmap_put` and
-- `nc_hashmap_get` of libnica on a map of texts, which is the list of what it keeps; `map_order` is the order in which libnica's hash map
-- yields its entries.
pub record Platform : Type 1 where
  pub host : Host
  pub config : BuildConfig
  pub loader : LoaderId → BootLoader host.State
  pub known_loaders : List LoaderId
  pub qsort : (Kernel → Kernel → ℤ) → List Kernel → List Kernel
  pub map_put : Bytes → Bytes → List (Bytes × Bytes) → List (Bytes × Bytes)
  pub map_get : Bytes → List (Bytes × Bytes) → Option Bytes
  pub map_order : List (Bytes × List Kernel) → List (Bytes × List Kernel)
  pub initrd_order : List (Bytes × InitrdEntry) → List (Bytes × InitrdEntry)
