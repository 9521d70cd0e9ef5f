-- ===== src/Probe.antt =====
-- lib/probe.c: what is found of the device that a path is on, and `cbm_devnode_to_devpath` of
-- lib/system_stub.c. libblkid, libbtrfsutil, `stat` and the macros of device numbers are parameters.
pub mod Luks
pub mod Root
use clr_boot_manager.Prelude.{
  ℕ, ◌-◌, ◌%◌, ◌==◌, Bool, true, false, Option, none, some, List, [], ◌∷◌, ◌++◌, Bytes,
  if◌then◌else◌, codes, streq, starts_with, take, bind,
}
use clr_boot_manager.Int.{ℤ, pos, ltb_ℤ}
use clr_boot_manager.Libc.{skip_space, starts_with_digit, read_digits, expect, show_ℕ, basename}
use clr_boot_manager.Platform.{Host, CbmDeviceProbe}
use clr_boot_manager.Files.Devices.{get_device_for_mountpoint, get_parent_disk}

-- What is asked of the devices; a device is its path.
pub record Blkid (S : Type 0) : Type 0 where
  pub makedev : ℕ → ℕ → ℕ
  pub major : ℕ → ℕ
  pub minor : ℕ → ℕ
  -- `st_dev` of a path
  pub st_dev : S → Bytes → Option ℕ
  -- the paths that `glob` with GLOB_BRACE matches
  pub glob_brace : S → Bytes → List Bytes
  -- whether there is a new probe, whether it succeeds, and the values that it finds
  pub opens : S → Bytes → Bool
  pub safeprobe : S → Bytes → Bool
  pub lookup_value : S → Bytes → Bytes → Option Bytes
  -- the number of partitions, and the table if there is one, with its type
  pub numof_partitions : S → Bytes → ℤ
  pub parttable_type : S → Bytes → Option (Option Bytes)
  pub is_subvolume : S → Bytes → Bool
  pub subvolume_path : S → Bytes → Option Bytes

-- A number that is cut to an `unsigned int`.
unsigned_of : Bool → Bytes → Option (ℕ × Bytes)
unsigned_of negative s =
    let r = read_digits 0 s in
    let n = r.0 % 4294967296 in
    if starts_with_digit s
    then some (if negative then (4294967296 - n) % 4294967296 else n, r.1)
    else none

signed_of : Bytes → Option (ℕ × Bytes)
unfolding unsigned_of
signed_of [] = none
signed_of (c ∷ s) =
    if c == b'-'
    then unsigned_of true s
    else if c == b'+'
    then unsigned_of false s
    else unsigned_of false (c ∷ s)

-- "%u:%u"
unfoldable pub dev_numbers : Bytes → Option (ℕ × ℕ)
unfolding signed_of
dev_numbers text = bind (signed_of (skip_space text)) λ dev_major.
    bind (expect b':' dev_major.1)
      λ rest. bind (signed_of (skip_space rest)) λ dev_minor. some (dev_major.0, dev_minor.0)

-- The size of the buffer
abbrev path_max : ℕ
path_max = 4096

module _ (H : Host) (B : Blkid H.State) (s : H.State) where
  -- `cbm_devnode_to_devpath`
  unfoldable pub devnode_to_devpath : ℕ → Option Bytes
  devnode_to_devpath dev =
      if B.major dev == 0
      then none
      else H.realpath s
          (codes "/dev/block/" ++ (show_ℕ (B.major dev) ++ (b':' ∷ show_ℕ (B.minor dev))))

  -- The device of the text of a dev file; an empty one fails.
  devpath_of_text : Bytes → Option Bytes
  unfolding dev_numbers devnode_to_devpath
  devpath_of_text text =
      bind (dev_numbers (take path_max text)) λ n. devnode_to_devpath (B.makedev n.0 n.1)

  -- `cbm_dev_file_to_devpath`
  unfoldable pub dev_file_to_devpath : Bytes → Option Bytes
  unfolding devpath_of_text
  dev_file_to_devpath devfile = bind (H.read s devfile) devpath_of_text

  -- The UUID of a device that is LUKS.
  unfoldable pub luks_uuid_of : Bytes → Option Bytes
  luks_uuid_of dpath =
      if B.opens s dpath
      then if B.safeprobe s dpath
        then bind (B.lookup_value s dpath (codes "TYPE")) (λ type.
          if streq type (codes "crypto_LUKS") then B.lookup_value s dpath (codes "UUID") else none)
        else none
      else none

  first_luks_uuid : List Bytes → Option Bytes
  unfolding dev_file_to_devpath luks_uuid_of
  first_luks_uuid [] = none
  first_luks_uuid (devfile ∷ _) = bind (dev_file_to_devpath devfile) luks_uuid_of

  -- `cbm_get_luks_uuid`
  unfoldable pub get_luks_uuid : Bytes → Option Bytes
  unfolding first_luks_uuid
  get_luks_uuid part = first_luks_uuid (
      B.glob_brace s
        (H.sysfs_path ++ (codes "/block/" ++ (part ++ codes "/slaves/*{/slaves/*,}/dev"))))

  is_gpt_type : Option (Option Bytes) → Bool
  is_gpt_type (some (some type)) = streq type (codes "gpt")
  is_gpt_type _ = false

  is_gpt_disk : Option Bytes → Bool
  unfolding is_gpt_type
  is_gpt_disk none = false
  is_gpt_disk (some parent_disk) =
      if B.opens s parent_disk
      then if B.safeprobe s parent_disk
        then if ltb_ℤ (pos 0) (B.numof_partitions s parent_disk)
          then is_gpt_type (B.parttable_type s parent_disk)
          else false
        else false
      else false

  -- `cbm_probe_is_gpt`
  unfoldable pub probe_is_gpt : Bytes → Bool
  unfolding is_gpt_disk
  probe_is_gpt path = is_gpt_disk (get_parent_disk H s path)

  -- The device of a path: that of the mount point, or by its number.
  unfoldable pub devnode_of : Bytes → ℕ → Option Bytes
  unfolding devnode_to_devpath
  devnode_of path dev = elim (get_device_for_mountpoint H s path) [
    | some devnode ↦ some devnode
    | none ↦ devnode_to_devpath dev
  ]

  btrfs_sub_of : Bytes → Option Bytes
  btrfs_sub_of path = if B.is_subvolume s path then B.subvolume_path s path else none

  -- The UUID of the partition: only on a disk with GPT, and not on a software RAID.
  part_uuid_of : Bool → Bytes → Option Bytes
  part_uuid_of gpt devnode =
      if gpt
      then if starts_with (codes "md") (basename devnode)
        then none
        else B.lookup_value s devnode (codes "PART_ENTRY_UUID")
      else none

  -- The LUKS device that a device of the device mapper is on.
  pub luks_of_devnode : Bytes → Option Bytes
  unfolding get_luks_uuid
  luks_of_devnode devnode =
      if starts_with (codes "dm-") (basename devnode)
      then get_luks_uuid (basename devnode)
      else none

  -- The probe of a device that could be read.
  unfoldable pub probe_devnode : Bytes → Bytes → Option CbmDeviceProbe
  unfolding probe_is_gpt part_uuid_of luks_of_devnode btrfs_sub_of
  probe_devnode path devnode =
      let gpt = probe_is_gpt path in
      if B.opens s devnode
      then if B.safeprobe s devnode
        then some (record {
          uuid = B.lookup_value s devnode (codes "UUID");
          part_uuid = part_uuid_of gpt devnode;
          luks_uuid = luks_of_devnode devnode;
          btrfs_sub = btrfs_sub_of path;
          gpt = gpt;
        })
        else none
      else none

  -- `cbm_probe_path`
  unfoldable pub probe_path : Bytes → Option CbmDeviceProbe
  unfolding devnode_of probe_devnode
  probe_path path =
      bind (B.st_dev s path) λ dev. bind (devnode_of path dev) λ devnode. probe_devnode path devnode

-- The host with the probe of this file.
unfoldable pub probing : (H : Host) → Blkid H.State → Host
unfolding probe_path
probing H B = record H { probe_path = probe_path H B }
