-- ===== src/Probe/Luks.antt =====
-- lib/probe.c: the LUKS device that a device of the device mapper is on.
use clr_boot_manager.Prelude.{
  ◌≡◌, ◌∙◌, refl, sym, ap, true, Bool-cases, Option, none, some, List, [], ◌∷◌, ◌++◌, Bytes,
  if◌then◌else◌, codes, streq, streq_iff, starts_with, bind, inl, inr,
}
use clr_boot_manager.Libc.{basename}
use clr_boot_manager.Platform.{Host}
use clr_boot_manager.Probe.{
  Blkid, luks_uuid_of, dev_file_to_devpath, first_luks_uuid, get_luks_uuid, luks_of_devnode,
}

module _ (H : Host) (B : Blkid H.State) (s : H.State) where
  -- A device that can be probed, and is LUKS with the UUID.
  abbrev pub IsLuks : Bytes → Bytes → Type 0
  IsLuks dpath uuid =
      (B.opens s dpath ≡ true)
      × (B.safeprobe s dpath ≡ true)
      × (B.lookup_value s dpath (codes "TYPE") ≡ some (codes "crypto_LUKS"))
      × (B.lookup_value s dpath (codes "UUID") ≡ some uuid)

  luks_uuid_of-IsLuks :
      (dpath uuid : Bytes) → luks_uuid_of H B s dpath ≡ some uuid → IsLuks dpath uuid
  unfolding luks_uuid_of
  luks_uuid_of-IsLuks dpath uuid h = elim (Bool-cases (B.opens s dpath)) [
    | inr closed ↦ absurd (none_some (rw closed at h))
    | inl opens ↦ elim (Bool-cases (B.safeprobe s dpath)) [
      | inr unsafe ↦ absurd (none_some (rw (opens, unsafe) at h))
      | inl safe ↦
          of_type opens safe (B.lookup_value s dpath (codes "TYPE")) refl (rw (opens, safe) at h)
    ]
  ]
    where
      none_some : ◌≡◌ {A = Option Bytes} none (some uuid) → ⊥
      none_some e = cc

      of_type :
          B.opens s dpath ≡ true
          → B.safeprobe s dpath ≡ true
          → (o : Option Bytes) → o ≡ B.lookup_value s dpath (codes "TYPE")
          → bind o (λ type.
            if streq type (codes "crypto_LUKS")
            then B.lookup_value s dpath (codes "UUID")
            else none)
            ≡ some uuid
          → IsLuks dpath uuid
      of_type opens safe none e h = cc
      of_type opens safe (some type) e h = elim (Bool-cases (streq type (codes "crypto_LUKS"))) [
        | inr other ↦ absurd (none_some (rw other at h))
        | inl luks ↦ (
          opens,
          safe,
          sym e ∙ ap some ((streq_iff type (codes "crypto_LUKS")).0 luks),
          rw luks at h,
        )
      ]

  IsLuks-luks_uuid_of :
      (dpath uuid : Bytes) → IsLuks dpath uuid → luks_uuid_of H B s dpath ≡ some uuid
  unfolding luks_uuid_of streq
  IsLuks-luks_uuid_of dpath uuid (opens, safe, type, value) = rw (opens, safe, type) value

  -- The pattern of the dev files of the devices that a device of the device mapper is on, which sysfs
  -- calls its slaves, or of their slaves
  abbrev pub slaves : Bytes → Bytes
  slaves name = H.sysfs_path ++ (codes "/block/" ++ (name ++ codes "/slaves/*{/slaves/*,}/dev"))

  -- The device is one of the device mapper; the first dev file of its slaves leads to a device, which
  -- is LUKS with the UUID.
  abbrev pub IsOnLuks : Bytes → Bytes → Type 0
  IsOnLuks devnode uuid =
      (starts_with (codes "dm-") (basename devnode) ≡ true)
      × ((devfile : Bytes) × (more : List Bytes) × (dpath : Bytes) × (B.glob_brace s
              (slaves (basename devnode))
            ≡ devfile ∷ more)
          × (dev_file_to_devpath H B s devfile ≡ some dpath)
          × IsLuks dpath uuid)

  pub luks_of_devnode-IsOnLuks :
      (devnode uuid : Bytes) → luks_of_devnode H B s devnode ≡ some uuid → IsOnLuks devnode uuid
  unfolding luks_of_devnode get_luks_uuid
  luks_of_devnode-IsOnLuks devnode uuid h =
      elim (Bool-cases (starts_with (codes "dm-") (basename devnode))) [
        | inr other ↦ absurd (none_some (rw other at h))
        | inl mapper ↦
            of_files mapper (B.glob_brace s (slaves (basename devnode))) refl (rw mapper at h)
      ]
    where
      none_some : ◌≡◌ {A = Option Bytes} none (some uuid) → ⊥
      none_some e = cc

      of_path :
          starts_with (codes "dm-") (basename devnode) ≡ true
          → (devfile : Bytes) (more : List Bytes) (o : Option Bytes)
          → B.glob_brace s (slaves (basename devnode)) ≡ devfile ∷ more
          → dev_file_to_devpath H B s devfile ≡ o
          → bind o (luks_uuid_of H B s) ≡ some uuid
          → IsOnLuks devnode uuid
      of_path mapper devfile more none g e h = cc
      of_path mapper devfile more (some dpath) g e h =
          (mapper, (devfile, more, dpath, g, e, luks_uuid_of-IsLuks dpath uuid h))

      of_files :
          starts_with (codes "dm-") (basename devnode) ≡ true
          → (files : List Bytes) → files ≡ B.glob_brace s (slaves (basename devnode))
          → first_luks_uuid H B s files ≡ some uuid
          → IsOnLuks devnode uuid
      of_files mapper [] g h = absurd (none_some (unfold first_luks_uuid in h))
      of_files mapper (devfile ∷ more) g h =
          of_path mapper devfile more (dev_file_to_devpath H B s devfile) (sym g) refl
            (unfold first_luks_uuid in h)

  pub IsOnLuks-luks_of_devnode :
      (devnode uuid : Bytes) → IsOnLuks devnode uuid → luks_of_devnode H B s devnode ≡ some uuid
  unfolding luks_of_devnode get_luks_uuid first_luks_uuid
  IsOnLuks-luks_of_devnode devnode uuid (mapper, (devfile, more, dpath, g, e, luks)) =
      rw (mapper, g, first_luks_uuid, e) (IsLuks-luks_uuid_of dpath uuid luks)
