-- ===== src/BootVar/EspData.antt =====
-- lib/bootvar.c: the partition of a mount point, and the data of a boot entry for it.
use clr_boot_manager.Prelude.{
  ℕ, ◌==◌, Option, none, some, ◌++◌, Bytes, codes, length, bind, if◌then◌else◌,
}
use clr_boot_manager.Int.{ℤ, pos, ltb_ℤ}

-- What libblkid tells of a partition: its number, and its type as a text.
pub record PartitionEntry : Type 0 where
  pub partno : ℤ
  pub type_string : Option Bytes

-- What is asked of the devices: `stat`, libblkid, and the two encoders of libefiboot.
pub record Devices : Type 0 where
  pub device_of : Bytes → Option ℕ
  pub wholedisk_name : ℕ → Option Bytes
  -- the partition with the device number, on the disk at the path
  pub partition : Bytes → ℕ → Option PartitionEntry
  pub file_device_path : Bytes → ℤ → Bytes → Option Bytes
  pub loadopt_create : Bytes → Option Bytes

-- What `bootvar_get_part_info` finds of the partition that is mounted at a path.
pub record PartInfo : Type 0 where
  pub disk_path : Bytes
  pub part_no : ℤ
  pub part_type : Bytes

part_info_of : Bytes → PartitionEntry → Option PartInfo
part_info_of disk_path part = if ltb_ℤ part.partno (pos 0) then none else elim part.type_string [
  | none ↦ none
  | some type ↦
      if length type == 36
      then some (record { disk_path = disk_path; part_no = part.partno; part_type = type })
      else none
]

-- `bootvar_get_part_info`
unfoldable pub get_part_info : Devices → Bytes → Option PartInfo
unfolding part_info_of
get_part_info d path = bind (d.device_of path) λ dev. bind (d.wholedisk_name dev) λ name.
    let disk_path = codes "/dev/" ++ name in
    bind (d.partition disk_path dev) (part_info_of disk_path)

-- `bootvar_make_boot_rec_data`
unfoldable pub make_boot_rec_data : Devices → Bytes → Bytes → Option Bytes
unfolding get_part_info
make_boot_rec_data d esp_mount_path bootloader_esp_path =
    bind (get_part_info d esp_mount_path)
      λ pi. bind (d.file_device_path pi.disk_path pi.part_no bootloader_esp_path) d.loadopt_create
