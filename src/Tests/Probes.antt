-- ===== src/Tests/Probes.antt =====
-- The probe of a root device that is encrypted, on a disk with GPT.
use clr_boot_manager.Prelude.{
  ◌≡◌, refl, ◌+◌, ◌*◌, ◌/◌, ◌%◌, true, false, Option, none, some, [], ◌∷◌, Bytes, codes, streq,
  starts_with, if◌then◌else◌,
}
use clr_boot_manager.Int.{pos}
use clr_boot_manager.Platform.{Host, CbmDeviceProbe}
use clr_boot_manager.Libc.{basename, skip_space, starts_with_digit, expect, read_digits, show_ℕ}
use clr_boot_manager.Files.Devices.{get_device_for_mountpoint, get_parent_disk}
use clr_boot_manager.Probe.{Blkid, probe_path}
use clr_boot_manager.Probe.Root.{IsProbeOf, probe_path-IsProbeOf}
use clr_boot_manager.Tests.Machine.{machine}

abbrev mapped_machine : Host
mapped_machine = record machine {
  mounts = λ s. some (record { mnt_fsname = codes "/dev/dm-1"; mnt_dir = codes "/" } ∷ []);
  read = λ s path. some (codes "8:1\n");
  wholedisk_of_device = λ s path. some 2048;
  devno_to_devname = λ s n. some (codes "/dev/sda");
}

-- The file system on dm-1, and the LUKS device below it
unfoldable value_of : Bytes → Bytes → Option Bytes
value_of device name =
    if streq name (codes "TYPE")
    then some (if streq device (codes "/dev/block/8:1") then codes "crypto_LUKS" else codes "ext4")
    else if streq name (codes "UUID")
    then some (if streq device (codes "/dev/block/8:1") then codes "luks" else codes "root")
    else some (codes "part")

abbrev blkid : Blkid mapped_machine.State
blkid = record {
  makedev = λ major minor. major * 256 + minor;
  major = λ dev. dev / 256;
  minor = λ dev. dev % 256;
  st_dev = λ s path. some 65025;
  glob_brace = λ s pattern. codes "/sys/block/dm-1/slaves/sda1/dev" ∷ [];
  opens = λ s device. true;
  safeprobe = λ s device. true;
  lookup_value = λ s device name. value_of device name;
  numof_partitions = λ s device. pos 1;
  parttable_type = λ s device. some (some (codes "gpt"));
  is_subvolume = λ s path. false;
  subvolume_path = λ s path. none;
}

abbrev encrypted_root : CbmDeviceProbe
encrypted_root = record {
  uuid = some (codes "root");
  part_uuid = some (codes "part");
  luks_uuid = some (codes "luks");
  btrfs_sub = none;
  gpt = true;
}

probed_root : probe_path mapped_machine blkid tt (codes "/") ≡ some encrypted_root
unfolding probe_path value_of streq get_device_for_mountpoint get_parent_disk starts_with basename
    skip_space starts_with_digit expect read_digits show_ℕ
probed_root = refl

probe_path-IsProbeOf_example : IsProbeOf mapped_machine blkid tt (codes "/") encrypted_root
probe_path-IsProbeOf_example =
    probe_path-IsProbeOf mapped_machine blkid tt (codes "/") encrypted_root probed_root
