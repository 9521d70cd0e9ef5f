-- ===== src/Files/Devices.antt =====
-- lib/files.c: mounts, disks and partitions.
use clr_boot_manager.Prelude.{
  ℕ, ◌+◌, Bool, false, not, ◌&&◌, ◌||◌, Option, none, some, List, [], ◌∷◌, ◌++◌, Bytes, ◌==◌, leb,
  if◌then◌else◌, codes, streq, length, take, is_some, bit_and,
}
use clr_boot_manager.Libc.{isdigit}
use clr_boot_manager.Platform.{Host, Mntent, Partition, GlobResult, matches}

-- `isalnum` and `tolower` in the C locale
unfoldable pub isalpha : ℕ → Bool
isalpha c = (leb b'a' c && leb c b'z') || (leb b'A' c && leb c b'Z')

unfoldable pub tolower : ℕ → ℕ
tolower c = if leb b'A' c && leb c b'Z' then c + 32 else c

-- The loop of `get_boot_device` over the bytes of the variable.
unfoldable pub uuid_of_bytes : Bytes → Bytes
unfolding isdigit isalpha tolower
uuid_of_bytes [] = []
uuid_of_bytes (c ∷ s) =
    let rest = uuid_of_bytes s in
    if c == b'_' || c == b'-'
    then b'-' ∷ rest
    else if isdigit c || isalpha c
    then tolower c ∷ rest
    else rest

-- The size of the buffer
abbrev uuid_buffer : ℕ
uuid_buffer = 4096

-- CBM_MBR_BOOT_FLAG
abbrev pub mbr_boot_flag : ℕ
mbr_boot_flag = 4

module _ (H : Host) (s : H.State) where
  -- The path if the file exists
  unfoldable pub path_if_there : Bytes → Option Bytes
  path_if_there path = if H.file_exists s path then some path else none

  unfoldable pub esp_by_label : Option Bytes
  unfolding path_if_there
  esp_by_label = path_if_there (H.devfs_path ++ codes "/disk/by-partlabel/ESP")

  -- The device of the partition that the loader was started from, or the one that is labelled ESP.
  unfoldable pub esp_of_variable : Option Bytes → Option Bytes
  unfolding esp_by_label path_if_there uuid_of_bytes
  esp_of_variable none = none
  esp_of_variable (some []) = esp_by_label
  esp_of_variable (some (c ∷ content)) =
      let uuid = uuid_of_bytes (take uuid_buffer (c ∷ content)) in
      elim (path_if_there (H.devfs_path ++ (codes "/disk/by-partuuid/" ++ uuid))) [
        | some device ↦ some device
        | none ↦ esp_by_label
      ]

  unfoldable pub esp_of_glob : GlobResult → Option Bytes
  unfolding esp_of_variable esp_by_label
  esp_of_glob (matches (path ∷ _)) = esp_of_variable (H.read s path)
  esp_of_glob _ = esp_by_label

  -- `get_boot_device`
  unfoldable pub get_boot_device : Option Bytes
  unfolding esp_of_glob
  get_boot_device =
      esp_of_glob (H.glob s (H.sysfs_path ++ codes "/firmware/efi/efivars/LoaderDevicePartUUID-*"))

  mounted_at : Bytes → List Mntent → Bool
  mounted_at path [] = false
  mounted_at path (ent ∷ rest) = streq path ent.mnt_dir || mounted_at path rest

  -- `cbm_is_mounted`
  unfoldable pub is_mounted : Bytes → Bool
  unfolding mounted_at
  is_mounted path = elim (H.mounts s) [ none ↦ false | some tab ↦ mounted_at path tab ]

  same_path : Bytes → Option Bytes → Bool
  same_path abs_path none = false
  same_path abs_path (some mnt_device) = streq abs_path mnt_device

  mountpoint_of : Bytes → List Mntent → Option Bytes
  unfolding same_path
  mountpoint_of abs_path [] = none
  mountpoint_of abs_path (ent ∷ rest) =
      if same_path abs_path (H.realpath s ent.mnt_fsname)
      then some ent.mnt_dir
      else mountpoint_of abs_path rest

  mountpoint_in : Option (List Mntent) → Option Bytes → Option Bytes
  unfolding mountpoint_of
  mountpoint_in none _ = none
  mountpoint_in (some tab) none = none
  mountpoint_in (some tab) (some abs_path) = mountpoint_of abs_path tab

  -- `cbm_get_mountpoint_for_device`
  unfoldable pub get_mountpoint_for_device : Bytes → Option Bytes
  unfolding mountpoint_in
  get_mountpoint_for_device device = mountpoint_in (H.mounts s) (H.realpath s device)

  -- The device of the first entry for the mount point
  device_of : Bytes → List Mntent → Option Bytes
  device_of mount [] = none
  device_of mount (ent ∷ rest) =
      if streq ent.mnt_dir mount then H.realpath s ent.mnt_fsname else device_of mount rest

  -- `cbm_get_device_for_mountpoint`
  unfoldable pub get_device_for_mountpoint : Bytes → Option Bytes
  unfolding device_of
  get_device_for_mountpoint mount = elim (H.mounts s) [
    | none ↦ none
    | some tab ↦ device_of mount tab
  ]

  -- `get_parent_disk_devno`
  unfoldable pub get_parent_disk_devno : Bytes → Option ℕ
  unfolding get_device_for_mountpoint
  get_parent_disk_devno path =
      if is_some (H.stat s path)
      then elim (get_device_for_mountpoint path) [
        | some dev_path ↦ H.wholedisk_of_device s dev_path
        | none ↦ H.wholedisk_of_path s path
      ]
      else none

  resolve : Option Bytes → Option Bytes
  resolve none = none
  resolve (some path) = H.realpath s path

  -- `get_parent_disk`
  unfoldable pub get_parent_disk : Bytes → Option Bytes
  unfolding get_parent_disk_devno resolve
  get_parent_disk path = elim (get_parent_disk_devno path) [
    | none ↦ none
    | some devt ↦ resolve (H.devno_to_devname s devt)
  ]

  by_partuuid : Bytes → Bytes
  by_partuuid part_id = H.devfs_path ++ (codes "/disk/by-partuuid/" ++ part_id)

  -- strncmp(a, b, n) == 0, where both could be resolved
  same_start : ℕ → Option Bytes → Option Bytes → Bool
  same_start n none _ = false
  same_start n (some a) none = false
  same_start n (some a) (some b) = streq (take n a) (take n b)

  -- The loop of `get_partition_index`, from the partition with the number `i`.
  unfoldable pub partition_index_from : Bytes → ℕ → List Partition → Option ℕ
  unfolding by_partuuid same_start
  partition_index_from devnode i [] = none
  partition_index_from devnode i (part ∷ rest) =
      let later = partition_index_from devnode (i + 1) rest in
      elim part.uuid [
        | none ↦ none
        | some part_id ↦
            if same_start (length devnode) (H.realpath s devnode)
              (H.realpath s (by_partuuid part_id))
            then some i
            else later
      ]

  on_disk : {A : Type 0} → (Bytes → Option A) → Option Bytes → Option A
  on_disk f none = none
  on_disk f (some parent_disk) = f parent_disk

  -- `get_partition_index`; none is -1.
  unfoldable pub get_partition_index : Bytes → Bytes → Option ℕ
  unfolding on_disk get_parent_disk partition_index_from
  get_partition_index path devnode =
      on_disk
        (λ parent_disk. elim (H.partitions s parent_disk) [
          | none ↦ none
          | some parts ↦ partition_index_from devnode 0 parts
        ])
        (get_parent_disk path)

  legacy_device : Option Bytes → Option Bytes
  unfolding by_partuuid
  legacy_device none = none
  legacy_device (some part_id) = H.realpath s (by_partuuid part_id)

  -- The first partition with the boot flag
  unfoldable pub legacy_of : List Partition → Option Bytes
  unfolding legacy_device
  legacy_of [] = none
  legacy_of (part ∷ rest) =
      if bit_and part.flags mbr_boot_flag == 0 then legacy_of rest else legacy_device part.uuid

  -- `get_legacy_boot_device`
  unfoldable pub get_legacy_boot_device : Bytes → Option Bytes
  unfolding on_disk get_parent_disk legacy_of
  get_legacy_boot_device path =
      on_disk
        (λ parent_disk. elim (H.partitions s parent_disk) [
          | none ↦ none
          | some parts ↦ if H.safeprobe s parent_disk then legacy_of parts else none
        ])
        (get_parent_disk path)

  -- `cbm_file_has_content`
  unfoldable pub file_has_content : Bytes → Bool
  file_has_content path =
      H.file_exists s path
      && (elim (H.read s path) [ none ↦ false | some content ↦ not (length content == 0) ])

  -- `cbm_system_has_uefi`
  unfoldable pub has_uefi : Bool
  has_uefi = H.file_exists s (H.sysfs_path ++ codes "/firmware/efi")
