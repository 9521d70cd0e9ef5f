-- ===== src/Probe/Root.antt =====
-- lib/probe.c: how the options of a boot entry name the root device that was probed.
use mathlib.Core.Path.{subst}
use clr_boot_manager.Prelude.{
  ◌≡◌, ◌⊎◌, ◌↔◌, refl, sym, ℕ, true, false, Bool-cases, Option, none, some, ◌++◌, Bytes, codes,
  starts_with, bind, inl, inr,
}
use clr_boot_manager.Libc.{basename}
use clr_boot_manager.Kernel.Paths.{path_or_null}
use clr_boot_manager.Platform.{Host, CbmDeviceProbe}
use clr_boot_manager.BootLoaders.SdClass.Entry.{root_option}
use clr_boot_manager.Probe.Luks.{IsOnLuks, luks_of_devnode-IsOnLuks, IsOnLuks-luks_of_devnode}
use clr_boot_manager.Probe.{
  Blkid, part_uuid_of, probe_is_gpt, probe_devnode, devnode_of, probe_path,
}

module _ (H : Host) (B : Blkid H.State) (s : H.State) where
  -- The partition has a name in a GPT, and the device is no software RAID.
  abbrev pub HasPartUuid : Bytes → Bytes → Bytes → Type 0
  HasPartUuid path devnode part_uuid =
      (probe_is_gpt H B s path ≡ true)
      × (starts_with (codes "md") (basename devnode) ≡ false)
      × (B.lookup_value s devnode (codes "PART_ENTRY_UUID") ≡ some part_uuid)

  abbrev pub LacksPartUuid : Bytes → Bytes → Type 0
  LacksPartUuid path devnode =
      (probe_is_gpt H B s path ≡ false)
      ⊎ (starts_with (codes "md") (basename devnode) ≡ true)
      ⊎ (B.lookup_value s devnode (codes "PART_ENTRY_UUID") ≡ none)

  abbrev PartOf : Bytes → Bytes → Option Bytes → Type 0
  PartOf path devnode none = LacksPartUuid path devnode
  PartOf path devnode (some part_uuid) = HasPartUuid path devnode part_uuid

  part_uuid_of-PartOf :
      (path devnode : Bytes)
      → PartOf path devnode (part_uuid_of H B s (probe_is_gpt H B s path) devnode)
  unfolding part_uuid_of
  part_uuid_of-PartOf path devnode = elim (Bool-cases (probe_is_gpt H B s path)) [
    | inr mbr ↦ rw mbr (inl mbr)
    | inl gpt ↦ elim (Bool-cases (starts_with (codes "md") (basename devnode))) [
      | inl raid ↦ rw (gpt, raid) (inr (inl raid))
      | inr plain ↦
          rw (gpt, plain)
            (of_value gpt plain (B.lookup_value s devnode (codes "PART_ENTRY_UUID")) refl)
    ]
  ]
    where
      of_value :
          probe_is_gpt H B s path ≡ true
          → starts_with (codes "md") (basename devnode) ≡ false
          → (o : Option Bytes) → o ≡ B.lookup_value s devnode (codes "PART_ENTRY_UUID")
          → PartOf path devnode o
      of_value gpt plain none e = inr (inr (sym e))
      of_value gpt plain (some part_uuid) e = (gpt, plain, sym e)

  -- The start of the options of an entry for the root device
  abbrev pub NamesRoot : Bytes → Bytes → CbmDeviceProbe → Type 0
  NamesRoot path devnode probe =
      (LacksPartUuid path devnode
        × (root_option probe
            ≡ codes "options root=UUID="
              ++ (path_or_null (B.lookup_value s devnode (codes "UUID")) ++ codes " ")))
      ⊎ ((part_uuid : Bytes) × HasPartUuid path devnode part_uuid
          × (root_option probe ≡ codes "options root=PARTUUID=" ++ (part_uuid ++ codes " ")))

  root_option-NamesRoot :
      (path devnode : Bytes) (probe : CbmDeviceProbe)
      → PartOf path devnode probe.part_uuid
      → probe.uuid ≡ B.lookup_value s devnode (codes "UUID")
      → NamesRoot path devnode probe
  unfolding root_option
  root_option-NamesRoot path devnode probe part e = of_part probe.part_uuid refl part
    where
      of_part :
          (o : Option Bytes)
          → o ≡ probe.part_uuid
          → PartOf path devnode o
          → NamesRoot path devnode probe
      of_part none p lacks = inl (lacks, rw (← p, ← e) refl)
      of_part (some part_uuid) p has = inr (part_uuid, has, rw⁻¹ p refl)

  -- The probe has a LUKS UUID exactly if the device is on a LUKS device with that UUID.
  abbrev pub NamesLuks : Bytes → CbmDeviceProbe → Type 0
  NamesLuks devnode probe =
      (uuid : Bytes) → (probe.luks_uuid ≡ some uuid) ↔ IsOnLuks H B s devnode uuid

  abbrev Named : Bytes → Bytes → Option CbmDeviceProbe → Type 0
  Named path devnode none = Unit
  Named path devnode (some probe) = NamesRoot path devnode probe × NamesLuks devnode probe

  probe_devnode-Named :
      (path devnode : Bytes) → Named path devnode (probe_devnode H B s path devnode)
  unfolding probe_devnode
  probe_devnode-Named path devnode = elim (Bool-cases (B.opens s devnode)) [
    | inr closed ↦ rw closed tt
    | inl opens ↦ elim (Bool-cases (B.safeprobe s devnode)) [
      | inr unsafe ↦ rw (opens, unsafe) tt
      | inl safe ↦
          rw (opens, safe)
            (
              root_option-NamesRoot path devnode _ (part_uuid_of-PartOf path devnode) refl,
              (λ uuid. (
                luks_of_devnode-IsOnLuks H B s devnode uuid,
                IsOnLuks-luks_of_devnode H B s devnode uuid,
              )),
            )
    ]
  ]

  -- The device of the path, and what the boot entries say of it
  abbrev pub IsProbeOf : Bytes → CbmDeviceProbe → Type 0
  IsProbeOf path probe =
      (dev : ℕ) × (devnode : Bytes) × (B.st_dev s path ≡ some dev)
      × (devnode_of H B s path dev ≡ some devnode)
      × NamesRoot path devnode probe
      × NamesLuks devnode probe

  -- If a path is probed, an entry of systemd-boot names its root device by the UUID of the partition
  -- exactly if that is on a disk with GPT, is no software RAID, and libblkid tells PART_ENTRY_UUID, and
  -- by the UUID of the file system otherwise. The probe has a LUKS UUID exactly if the device is one of
  -- the device mapper, and the first of the dev files that the pattern of its slaves gives leads to a
  -- device that can be probed, has the type crypto_LUKS, and has that UUID.
  pub probe_path-IsProbeOf :
      (path : Bytes) (probe : CbmDeviceProbe)
      → probe_path H B s path ≡ some probe
      → IsProbeOf path probe
  unfolding probe_path
  probe_path-IsProbeOf path probe h = of_dev (B.st_dev s path) refl h
    where
      of_devnode :
          (dev : ℕ) (o : Option Bytes)
          → B.st_dev s path ≡ some dev
          → devnode_of H B s path dev ≡ o
          → bind o (probe_devnode H B s path) ≡ some probe
          → IsProbeOf path probe
      of_devnode dev none d e h = cc
      of_devnode dev (some devnode) d e h =
          let named = subst (Named path devnode) h (probe_devnode-Named path devnode) in
          (dev, devnode, d, e, named.0, named.1)

      of_dev :
          (o : Option ℕ)
          → B.st_dev s path ≡ o
          → bind o (λ dev. bind (devnode_of H B s path dev) (probe_devnode H B s path)) ≡ some probe
          → IsProbeOf path probe
      of_dev none e h = cc
      of_dev (some dev) e h = of_devnode dev (devnode_of H B s path dev) e refl h
