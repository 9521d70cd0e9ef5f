-- ===== src/SysConfig/Masks.antt =====
-- bootman/sysconfig.c: the capabilities that a root asks of its boot loader.
use mathlib.Core.Path.{subst}
use clr_boot_manager.Prelude.{
  ℕ, ◌≡◌, refl, Bool, true, false, not, ◌&&◌, ◌||◌, Option, none, some, Bytes, is_some, bit_or,
  ◌++◌, codes, sym, if◌then◌else◌,
}
use clr_boot_manager.BootMan.BootDir.{cap_uefi, cap_gpt, cap_legacy, has_all}
use clr_boot_manager.Files.Devices.{get_boot_device, get_legacy_boot_device}
use clr_boot_manager.Platform.{Platform, SystemConfig}
use clr_boot_manager.SysConfig.{
  FsType, vfat, ext2, ext3, ext4, fs_cap, native_boot, image_boot, inspect_root_native,
  inspect_root_image, resolve_boot, inspect_root, get_filesystem_cap, get_fstype, fs_name_of,
  resolved, config_with, find_fstype, known_cap, known_fstype,
}

-- The mask of the configuration, from the boot device, the first mask and the file system.
abbrev final_mask : Option Bytes × ℕ → Option FsType → ℕ
final_mask (none, mask) fs = mask
final_mask (some device, mask) fs = bit_or (bit_or mask cap_gpt) (fs_cap fs)

-- UEFI is asked for or legacy boot is, never both, and GPT exactly with a boot device.
abbrev pub NativeMask : Bool → Option Bytes → ℕ → Type 0
NativeMask uefi device mask =
    (has_all mask cap_uefi ≡ uefi)
    × (has_all mask cap_legacy ≡ not uefi)
    × (has_all mask cap_gpt ≡ is_some device)

native_boot-NativeMask :
    (uefi : Bool) (esp legacy : Option Bytes) (fs : Option FsType)
    → let r = native_boot uefi esp legacy in NativeMask uefi r.0 (final_mask r fs)
unfolding native_boot has_all fs_cap
native_boot-NativeMask true none legacy fs = (refl, refl, refl)
native_boot-NativeMask true (some d) legacy none = (refl, refl, refl)
native_boot-NativeMask true (some d) legacy (some vfat) = (refl, refl, refl)
native_boot-NativeMask true (some d) legacy (some ext2) = (refl, refl, refl)
native_boot-NativeMask true (some d) legacy (some ext3) = (refl, refl, refl)
native_boot-NativeMask true (some d) legacy (some ext4) = (refl, refl, refl)
native_boot-NativeMask false esp none fs = (refl, refl, refl)
native_boot-NativeMask false esp (some d) none = (refl, refl, refl)
native_boot-NativeMask false esp (some d) (some vfat) = (refl, refl, refl)
native_boot-NativeMask false esp (some d) (some ext2) = (refl, refl, refl)
native_boot-NativeMask false esp (some d) (some ext3) = (refl, refl, refl)
native_boot-NativeMask false esp (some d) (some ext4) = (refl, refl, refl)

-- The ESP goes before a legacy boot partition unless legacy boot is forced.
abbrev pub ImageMask : Bool → Option Bytes → Option Bytes → ℕ → Type 0
ImageMask force esp legacy mask =
    (has_all mask cap_uefi ≡ (not force && is_some esp))
    × (has_all mask cap_legacy ≡ (force || (is_some legacy && not (is_some esp))))

image_boot-ImageMask :
    (force : Bool) (esp legacy : Option Bytes) (fs : Option FsType)
    → ImageMask force esp legacy (final_mask (image_boot force esp legacy) fs)
unfolding image_boot has_all fs_cap
image_boot-ImageMask true none none fs = (refl, refl)
image_boot-ImageMask true none (some l) none = (refl, refl)
image_boot-ImageMask true none (some l) (some vfat) = (refl, refl)
image_boot-ImageMask true none (some l) (some ext2) = (refl, refl)
image_boot-ImageMask true none (some l) (some ext3) = (refl, refl)
image_boot-ImageMask true none (some l) (some ext4) = (refl, refl)
image_boot-ImageMask true (some e) none fs = (refl, refl)
image_boot-ImageMask true (some e) (some l) none = (refl, refl)
image_boot-ImageMask true (some e) (some l) (some vfat) = (refl, refl)
image_boot-ImageMask true (some e) (some l) (some ext2) = (refl, refl)
image_boot-ImageMask true (some e) (some l) (some ext3) = (refl, refl)
image_boot-ImageMask true (some e) (some l) (some ext4) = (refl, refl)
image_boot-ImageMask false none none fs = (refl, refl)
image_boot-ImageMask false none (some l) none = (refl, refl)
image_boot-ImageMask false none (some l) (some vfat) = (refl, refl)
image_boot-ImageMask false none (some l) (some ext2) = (refl, refl)
image_boot-ImageMask false none (some l) (some ext3) = (refl, refl)
image_boot-ImageMask false none (some l) (some ext4) = (refl, refl)
image_boot-ImageMask false (some e) none none = (refl, refl)
image_boot-ImageMask false (some e) none (some vfat) = (refl, refl)
image_boot-ImageMask false (some e) none (some ext2) = (refl, refl)
image_boot-ImageMask false (some e) none (some ext3) = (refl, refl)
image_boot-ImageMask false (some e) none (some ext4) = (refl, refl)
image_boot-ImageMask false (some e) (some l) none = (refl, refl)
image_boot-ImageMask false (some e) (some l) (some vfat) = (refl, refl)
image_boot-ImageMask false (some e) (some l) (some ext2) = (refl, refl)
image_boot-ImageMask false (some e) (some l) (some ext3) = (refl, refl)
image_boot-ImageMask false (some e) (some l) (some ext4) = (refl, refl)

native_boot-device :
    (uefi : Bool) (esp legacy : Option Bytes)
    → (native_boot uefi esp legacy).0 ≡ (if uefi then esp else legacy)
unfolding native_boot
native_boot-device true esp legacy = refl
native_boot-device false esp legacy = refl

image_boot-device :
    (force : Bool) (esp legacy : Option Bytes)
    → (image_boot force esp legacy).0 ≡ (if not force && is_some esp then esp else legacy)
unfolding image_boot
image_boot-device true esp none = refl
image_boot-device true esp (some l) = refl
image_boot-device false none none = refl
image_boot-device false none (some l) = refl
image_boot-device false (some e) none = refl
image_boot-device false (some e) (some l) = refl

module _ (P : Platform) (s : P.host.State) where
  abbrev pub force_legacy : Bool
  force_legacy = is_some (P.host.getenv s (codes "CBM_FORCE_LEGACY"))

  -- The firmware is UEFI and legacy boot is not forced.
  abbrev pub uefi_wanted : Bool
  uefi_wanted =
      P.host.file_exists s (P.host.sysfs_path ++ codes "/firmware/efi") && not force_legacy

  -- What an inspection gives: a configuration with the prefix and a mask, or an exit of the process,
  -- which only a boot device has whose file system is not told.
  abbrev pub Inspected : (ℕ → Type 0) → Bytes → Option Bytes → Option SystemConfig → Type 0
  Inspected Mask realp boot (some c) = (c.prefix ≡ realp) × Mask c.wanted_boot_mask
  Inspected Mask realp boot none =
      (device : Bytes) × (boot ≡ some device) × (fs_name_of P s (resolved P s device) ≡ none)

  resolve_boot-Inspected :
      (Mask : ℕ → Type 0) (realp : Bytes) (r : Option Bytes × ℕ)
      → ((fs : Option FsType) → Mask (final_mask r fs))
      → Inspected Mask realp r.0 (resolve_boot P s realp r)
  unfolding resolve_boot get_filesystem_cap get_fstype config_with
  resolve_boot-Inspected Mask realp (none, mask) h = (refl, h none)
  resolve_boot-Inspected Mask realp (some device, mask) h =
      of_name (fs_name_of P s (resolved P s device)) refl
    where
      of_name :
          (o : Option Bytes)
          → o ≡ fs_name_of P s (resolved P s device)
          → Inspected Mask realp
              (some device)
              (config_with P s realp (resolved P s device) mask (known_cap (known_fstype o)))
      of_name none e = (device, refl, sym e)
      of_name (some name) e = (refl, h (find_fstype name))

  inspect_root-resolve_boot :
      (realp path : Bytes) (image_mode : Bool)
      → P.host.realpath s path ≡ some realp
      → resolve_boot P s realp
          (if image_mode then inspect_root_image P s realp else inspect_root_native P s realp)
        ≡ inspect_root P s path image_mode
  unfolding inspect_root
  inspect_root-resolve_boot realp path image_mode found = rw (found, inspect_root) refl

  -- The boot device of a running system
  abbrev pub native_device : Bytes → Option Bytes
  native_device realp =
      if uefi_wanted then get_boot_device P.host s else get_legacy_boot_device P.host s realp

  -- The boot device of an image
  abbrev pub image_device : Bytes → Option Bytes
  image_device realp =
      if not force_legacy && is_some (get_boot_device P.host s)
      then get_boot_device P.host s
      else get_legacy_boot_device P.host s realp

  -- On a running system, an existing root has a configuration with that prefix, which asks for UEFI
  -- exactly if the firmware is UEFI and CBM_FORCE_LEGACY is not set, for legacy boot exactly if not,
  -- and for GPT exactly if the ESP or the legacy boot partition, the one of that choice, was found.
  -- There is none, as the process exits, only if that device was found, CBM_TEST_FSTYPE is not set, and
  -- libblkid does not tell the type of the device.
  pub inspect_root-NativeMask :
      (realp path : Bytes)
      → P.host.realpath s path ≡ some realp
      → Inspected
          (NativeMask uefi_wanted (native_device realp))
          realp
          (native_device realp)
          (inspect_root P s path false)
  unfolding inspect_root_native
  inspect_root-NativeMask realp path found =
      let esp = get_boot_device P.host s in
      let legacy = get_legacy_boot_device P.host s realp in
      subst
        (λ boot. Inspected (NativeMask uefi_wanted boot) realp boot (inspect_root P s path false))
        (native_boot-device uefi_wanted esp legacy)
        (subst
          (Inspected (NativeMask uefi_wanted (native_boot uefi_wanted esp legacy).0) realp
            (native_boot uefi_wanted esp legacy).0)
          (inspect_root-resolve_boot realp path false found)
          (resolve_boot-Inspected (NativeMask uefi_wanted (native_boot uefi_wanted esp legacy).0)
            realp (native_boot uefi_wanted esp legacy)
            (native_boot-NativeMask uefi_wanted esp legacy)))

  -- On an image, an existing root has a configuration with that prefix, which asks for UEFI exactly
  -- if an ESP was found and CBM_FORCE_LEGACY is not set, and for legacy boot exactly if the variable
  -- is set, or a legacy boot partition was found and no ESP. There is none, as the process exits, only
  -- if the device of that choice was found, CBM_TEST_FSTYPE is not set, and libblkid does not tell its
  -- type.
  pub inspect_root-ImageMask :
      (realp path : Bytes)
      → P.host.realpath s path ≡ some realp
      → Inspected
          (ImageMask force_legacy
            (get_boot_device P.host s)
            (get_legacy_boot_device P.host s realp))
          realp
          (image_device realp)
          (inspect_root P s path true)
  unfolding inspect_root_image
  inspect_root-ImageMask realp path found =
      let esp = get_boot_device P.host s in
      let legacy = get_legacy_boot_device P.host s realp in
      subst
        (λ boot.
          Inspected (ImageMask force_legacy esp legacy) realp boot (inspect_root P s path true))
        (image_boot-device force_legacy esp legacy)
        (subst
          (Inspected (ImageMask force_legacy esp legacy) realp
            (image_boot force_legacy esp legacy).0)
          (inspect_root-resolve_boot realp path true found)
          (resolve_boot-Inspected (ImageMask force_legacy esp legacy) realp
            (image_boot force_legacy esp legacy) (image_boot-ImageMask force_legacy esp legacy)))
