-- ===== src/SysConfig.antt =====
-- bootman/sysconfig.c: the system configuration of a root.
pub mod Masks
use clr_boot_manager.Prelude.{
  ℕ, Bool, true, false, not, ◌&&◌, ◌||◌, Option, none, some, List, [], ◌∷◌, ◌++◌, Bytes, ◌==◌,
  if◌then◌else◌, codes, streq, is_some, bit_or,
}
use clr_boot_manager.BootMan.BootDir.{cap_uefi, cap_gpt, cap_legacy, cap_fatfs, cap_extfs}
use clr_boot_manager.Files.Devices.{
  get_boot_device, get_legacy_boot_device, get_mountpoint_for_device, is_mounted,
}
use clr_boot_manager.Platform.{Platform, SystemConfig}

-- `FilesystemType`, the ids of `_fsmap`
pub data FsType : Type 0 where
  vfat ext2 ext3 ext4 : FsType

-- `cbm_find_fstype` on `_fsmap`
unfoldable pub find_fstype : Bytes → Option FsType
find_fstype name =
    if streq (codes "vfat") name
    then some vfat
    else if streq (codes "ext2") name
    then some ext2
    else if streq (codes "ext3") name
    then some ext3
    else if streq (codes "ext4") name
    then some ext4
    else none

unfoldable pub fs_name : FsType → Bytes
fs_name vfat = codes "vfat"
fs_name ext2 = codes "ext2"
fs_name ext3 = codes "ext3"
fs_name ext4 = codes "ext4"

unfoldable pub fs_cap : Option FsType → ℕ
fs_cap none = 0
fs_cap (some vfat) = cap_fatfs
fs_cap (some ext2) = cap_extfs
fs_cap (some ext3) = cap_extfs
fs_cap (some ext4) = cap_extfs

-- What is known of a file system; none is an exit of the process.
unfoldable pub known_fstype : Option Bytes → Option (Option FsType)
unfolding find_fstype
known_fstype none = none
known_fstype (some name) = some (find_fstype name)

unfoldable pub known_cap : Option (Option FsType) → Option ℕ
unfolding fs_cap
known_cap none = none
known_cap (some fs) = some (fs_cap fs)

-- `cbm_is_sysconfig_sane`, of a configuration that is there
unfoldable pub is_sysconfig_sane : SystemConfig → Bool
is_sysconfig_sane c = is_some c.root_device

-- The mask and the boot device that `cmb_inspect_root_native` sets.
unfoldable pub native_boot : Bool → Option Bytes → Option Bytes → Option Bytes × ℕ
native_boot uefi esp legacy =
    if uefi
    then (esp, bit_or cap_uefi (if is_some esp then cap_gpt else 0))
    else (legacy, bit_or cap_legacy (if is_some legacy then cap_gpt else 0))

-- Those that `cmb_inspect_root_image` sets.
unfoldable pub image_boot : Bool → Option Bytes → Option Bytes → Option Bytes × ℕ
image_boot force_legacy uefi_boot legacy_boot =
    if not force_legacy && ((is_some legacy_boot && is_some uefi_boot) || is_some uefi_boot)
    then (uefi_boot, bit_or cap_uefi cap_gpt)
    else if is_some legacy_boot || force_legacy
    then (legacy_boot, bit_or cap_legacy cap_gpt)
    else (none, 0)

module _ (P : Platform) (s : P.host.State) where
  -- The name of the file system; an environment variable overrides libblkid.
  unfoldable pub fs_name_of : Bytes → Option Bytes
  fs_name_of device = elim (P.host.getenv s (codes "CBM_TEST_FSTYPE")) [
    | some name ↦ some name
    | none ↦ P.host.blkid_type s device
  ]

  -- `cbm_get_fstype`; none where libblkid fails, and the process exits with EXIT_FAILURE.
  unfoldable pub get_fstype : Bytes → Option (Option FsType)
  unfolding known_fstype fs_name_of
  get_fstype device = known_fstype (fs_name_of device)

  -- `cbm_get_fstype_name`; an exit of the process is none as well.
  unfoldable pub get_fstype_name : Bytes → Option Bytes
  unfolding get_fstype fs_name
  get_fstype_name device = elim (get_fstype device) [
    | none ↦ none
    | some none ↦ none
    | some (some fs) ↦ some (fs_name fs)
  ]

  -- `cbm_get_filesystem_cap`; none is an exit of the process.
  unfoldable pub get_filesystem_cap : Bytes → Option ℕ
  unfolding get_fstype known_cap
  get_filesystem_cap device = known_cap (get_fstype device)

  -- `cmb_inspect_root_native`
  unfoldable pub inspect_root_native : Bytes → Option Bytes × ℕ
  unfolding native_boot
  inspect_root_native realp =
      native_boot
        (P.host.file_exists s (P.host.sysfs_path ++ codes "/firmware/efi")
          && not (is_some (P.host.getenv s (codes "CBM_FORCE_LEGACY"))))
        (get_boot_device P.host s) (get_legacy_boot_device P.host s realp)

  -- `cmb_inspect_root_image`
  unfoldable pub inspect_root_image : Bytes → Option Bytes × ℕ
  unfolding image_boot
  inspect_root_image realp =
      image_boot (is_some (P.host.getenv s (codes "CBM_FORCE_LEGACY"))) (get_boot_device P.host s)
        (get_legacy_boot_device P.host s realp)

  unfoldable pub resolved : Bytes → Bytes
  resolved device = elim (P.host.realpath s device) [ none ↦ device | some rel ↦ rel ]

  -- The configuration with the boot device and its mask; none is an exit of the process.
  config_with : Bytes → Bytes → ℕ → Option ℕ → Option SystemConfig
  config_with realp device mask none = none
  config_with realp device mask (some cap) = some (record {
    prefix = realp;
    root_device = P.host.probe_path s realp;
    boot_device = some device;
    wanted_boot_mask = bit_or (bit_or mask cap_gpt) cap;
  })

  -- The boot device resolved, and the capabilities that it asks for.
  unfoldable pub resolve_boot : Bytes → Option Bytes × ℕ → Option SystemConfig
  unfolding get_filesystem_cap config_with resolved
  resolve_boot realp (none, mask) = some (record {
    prefix = realp;
    root_device = P.host.probe_path s realp;
    boot_device = none;
    wanted_boot_mask = mask;
  })
  resolve_boot realp (some device, mask) =
      config_with realp (resolved device) mask (get_filesystem_cap (resolved device))

  -- `cbm_inspect_root`; none if the path does not exist, or the process exits.
  unfoldable pub inspect_root : Bytes → Bool → Option SystemConfig
  unfolding resolve_boot inspect_root_native inspect_root_image
  inspect_root path image_mode = elim (P.host.realpath s path) [
    | none ↦ none
    | some realp ↦
        resolve_boot realp
          (if image_mode then inspect_root_image realp else inspect_root_native realp)
  ]
