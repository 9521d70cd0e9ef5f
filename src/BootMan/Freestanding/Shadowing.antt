-- ===== src/BootMan/Freestanding/Shadowing.antt =====
-- bootman/bootman.c: what the user says of a freestanding initrd goes before what the system says.
use clr_boot_manager.Prelude.{
  ◌≡◌, Bool, true, false, Option, none, some, List, [], ◌∷◌, ◌++◌, Bytes, ◌==◌, if◌then◌else◌,
  arith, Bool-cases, Option-cases, inl, inr, is_some,
}
use clr_boot_manager.BootMan.Freestanding.{
  find_initrd, freestanding, linked_name, add_initrd, register_initrd, enumerate_entry,
  enumerate_entries, enumerate_dir, enumerate_both,
}
use clr_boot_manager.Kernel.Inspect.{◌//◌}
use clr_boot_manager.Platform.{
  Platform, BootManager, InitrdEntry, Stat, FileKind, regular, symlink, directory, other,
}

find_initrd-append :
    (key k : Bytes) (m : List (Bytes × InitrdEntry)) (e new : InitrdEntry)
    → find_initrd key m ≡ some e
    → find_initrd key (m ++ ((k, new) ∷ [])) ≡ some e
unfolding find_initrd
find_initrd-append key k [] e new h = cc
find_initrd-append key k ((j, d) ∷ m) e new h = ground (arith, find_initrd-append key k m e new)

module _ (key : Bytes) (e : InitrdEntry) where
  -- The map has `e` under the key.
  abbrev pub Knows : BootManager → Type 0
  Knows m = find_initrd key m.initrd_freestanding ≡ some e

  register_initrd-Knows :
      (dir d_name : Bytes) (name : Option Bytes) (m : BootManager)
      → Knows m
      → Knows (register_initrd dir d_name name m)
  unfolding register_initrd add_initrd
  register_initrd-Knows dir d_name name m h =
      elim (Bool-cases (is_some (find_initrd (freestanding ++ d_name) m.initrd_freestanding))) [
        | inl old ↦ rw old h
        | inr new ↦ rw new (find_initrd-append key _ m.initrd_freestanding e _ h)
      ]

  module _ (P : Platform) (s : P.host.State) where
    enumerate_entry-Knows :
        (dir d_name : Bytes) (st : Option Stat) (m : BootManager)
        → Knows m
        → Knows (enumerate_entry P s dir d_name st m)
    unfolding enumerate_entry
    enumerate_entry-Knows dir d_name none m h = h
    enumerate_entry-Knows dir d_name (some st) m h = pick (st.size == 0) st.kind
      where
        registered : (name : Option Bytes) → Knows (register_initrd dir d_name name m)
        registered name = register_initrd-Knows dir d_name name m h

        pick :
            (b : Bool) (k : FileKind)
            → Knows (
                if b then m else elim k [
                  | regular ↦ register_initrd dir d_name (some d_name) m
                  | symlink ↦
                      register_initrd dir d_name
                        (linked_name P s m.sysconfig.prefix (dir // d_name) d_name)
                        m
                  | _ ↦ m
                ])
        pick true k = h
        pick false regular = registered _
        pick false symlink = registered _
        pick false directory = h
        pick false other = h

    pub enumerate_entries-Knows :
        (dir : Bytes) (names : List Bytes) (m : BootManager)
        → Knows m
        → Knows (enumerate_entries P s dir names m)
    unfolding enumerate_entries
    enumerate_entries-Knows dir [] m h = h
    enumerate_entries-Knows dir (d_name ∷ rest) m h =
        enumerate_entries-Knows dir rest _
          (enumerate_entry-Knows dir d_name (P.host.lstat s (dir // d_name)) m h)

    enumerate_dir-Knows :
        (dir : Bytes) (m : BootManager) → Knows m → Knows (enumerate_dir P s dir m).1
    unfolding enumerate_dir
    enumerate_dir-Knows dir m h = elim (Option-cases (P.host.list_dir s dir)) [
      | inl absent ↦ rw (absent, enumerate_dir) h
      | inr (entries, listed) ↦ rw (listed, enumerate_dir) (enumerate_entries-Knows dir entries m h)
    ]

    -- What is registered under a key once the user's directory is read is what is registered under
    -- it once both directories are read.
    pub enumerate_both-Knows :
        (m : BootManager)
        → Knows (enumerate_dir P s m.user_initrd_freestanding_dir m).1
        → Knows (enumerate_both P s m).1
    unfolding enumerate_both
    enumerate_both-Knows m h =
        elim (Bool-cases (enumerate_dir P s m.user_initrd_freestanding_dir m).0) [
          | inl read ↦ rw read (enumerate_dir-Knows _ _ h)
          | inr bad ↦ rw bad h
        ]
