-- ===== src/Tests/Boot.antt =====
-- The boot loader, the system configuration, the freestanding initrds and the copying of files.
use clr_boot_manager.Prelude.{
  zero, suc, ℕ, ◌≤◌, ◌<◌, ◌≢◌, ap, Option, Bytes, ◌≡◌, refl, true, false, none, some, [], ◌∷◌,
  codes, streq, starts_with, arith,
}
use clr_boot_manager.Files.Devices.{get_boot_device, get_legacy_boot_device}
use clr_boot_manager.Platform.{symlink, regular, Stat}
use clr_boot_manager.BootMan.Freestanding.{linked_name, null_path, find_initrd, enumerate_both}
use clr_boot_manager.Libc.{memmem}
use clr_boot_manager.SysConfig.Masks.{
  NativeMask, ImageMask, Inspected, inspect_root-NativeMask, inspect_root-ImageMask,
}
use clr_boot_manager.Files.{send_all}
use clr_boot_manager.Files.Loop.{IsSendfile, send_all_fuel}
use clr_boot_manager.BootMan.Freestanding.Shadowing.{Knows}
use clr_boot_manager.BootMan.Freestanding.Entries.{Offers, a_link, enumerate_both-Offers}
use clr_boot_manager.SysConfig.{inspect_root}
use clr_boot_manager.Tests.Machine.{slow_source, platform, masking_platform, manager, world}

inspect_root-NativeMask_example :
    Inspected platform tt
      (NativeMask true (some (codes "/dev/disk/by-partlabel/ESP")))
      (codes "/")
      (some (codes "/dev/disk/by-partlabel/ESP"))
      (inspect_root platform tt (codes "/") false)
unfolding get_boot_device
inspect_root-NativeMask_example = inspect_root-NativeMask platform tt (codes "/") (codes "/") refl

inspect_root-ImageMask_example :
    Inspected platform tt
      (ImageMask false (some (codes "/dev/disk/by-partlabel/ESP")) none)
      (codes "/")
      (some (codes "/dev/disk/by-partlabel/ESP"))
      (inspect_root platform tt (codes "/") true)
unfolding get_boot_device get_legacy_boot_device streq
inspect_root-ImageMask_example = inspect_root-ImageMask platform tt (codes "/") (codes "/") refl

-- The user masks an initrd of the system.
masked : Offers masking_platform tt (codes "/") (codes "/etc/initrd.d") (codes "00-a.cpio") none
unfolding linked_name null_path streq memmem starts_with
masked = a_link (record { kind = symlink; size = 9 }) refl refl refl

enumerate_both-Offers_example :
    Knows
      (codes "freestanding-00-a.cpio")
      (record { name = none; dir = codes "/etc/initrd.d" })
      (enumerate_both masking_platform tt (manager true)).1
enumerate_both-Offers_example =
    enumerate_both-Offers masking_platform tt (manager true) (codes "00-a.cpio") none
      (codes "10-b.cpio" ∷ []) [] refl (unfold streq in refl, tt) masked
      (unfold find_initrd in refl)

size_of : Option Stat → ℕ
size_of none = 0
size_of (some st) = st.size

slow-IsSendfile : IsSendfile slow_source
unfolding size_of
slow-IsSendfile = record {
  at_most = most;
  moves = some_byte;
  keeps_size = λ target src off count s apart. refl;
}
  where
    most :
        (target src : Bytes) (off count written : ℕ) (s : slow_source.State)
        → (slow_source.sendfile target src off count s).0 ≡ some written
        → written ≤ count
    most target src off zero written s e = ground arith
    most target src off (suc count) written s e = ground arith

    some_byte :
        (target src : Bytes) (off count written : ℕ) (s : slow_source.State) (st : Stat)
        → slow_source.stat s src ≡ some st
        → off < st.size
        → (slow_source.sendfile target src off count s).0 ≡ some written
        → count ≢ 0
        → written ≢ 0
    some_byte target src off count written s st there left e asked =
        let three : 3 ≡ st.size = ap size_of there in ground arith

send_all_fuel_example :
    send_all slow_source 4 (codes "b") (codes "a") 0 3 (world true)
    ≡ send_all slow_source 9 (codes "b") (codes "a") 0 3 (world true)
send_all_fuel_example =
    send_all_fuel slow_source slow-IsSendfile (codes "b") (codes "a") (unfold streq in refl)
      (record { kind = regular; size = 3 }) 4 9 0 3 (world true) refl (omega arith) (omega arith)
      (omega arith)
