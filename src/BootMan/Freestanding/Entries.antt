-- ===== src/BootMan/Freestanding/Entries.antt =====
-- bootman/bootman.c: what `boot_manager_enumerate_initrds_freestanding` registers for an entry of the
-- user's directory.
use clr_boot_manager.Prelude.{
  ◌≡◌, refl, ap, ◌∙◌, Bool, true, false, Option, none, some, List, [], ◌∷◌, ◌++◌, Bytes, ◌==◌,
  if◌then◌else◌, arith, Bool-cases, inl, inr, streq, streq_refl, is_some, All,
}
use mathlib.Core.Path.{subst}
use clr_boot_manager.BootMan.Freestanding.{
  find_initrd, freestanding, linked_name, add_initrd, register_initrd, enumerate_entry,
  enumerate_entries, enumerate_dir, enumerate_both,
}
use clr_boot_manager.BootMan.Freestanding.Shadowing.{
  Knows, enumerate_entries-Knows, enumerate_both-Knows,
}
use clr_boot_manager.Kernel.Inspect.{◌//◌}
use clr_boot_manager.Platform.{
  Platform, BootManager, InitrdEntry, Stat, FileKind, regular, symlink, directory, other,
}

find_initrd-last :
    (key : Bytes) (m : List (Bytes × InitrdEntry)) (e : InitrdEntry)
    → find_initrd key m ≡ none
    → find_initrd key (m ++ ((key, e) ∷ [])) ≡ some e
unfolding find_initrd
find_initrd-last key [] e h = rw (streq_refl key) refl
find_initrd-last key ((j, d) ∷ m) e h = ground (arith, find_initrd-last key m e)

find_initrd-none :
    (key k : Bytes) (m : List (Bytes × InitrdEntry)) (new : InitrdEntry)
    → streq k key ≡ false
    → find_initrd key m ≡ none
    → find_initrd key (m ++ ((k, new) ∷ [])) ≡ none
unfolding find_initrd
find_initrd-none key k [] new differ h = rw differ refl
find_initrd-none key k ((j, d) ∷ m) new differ h =
    ground (arith, find_initrd-none key k m new differ)

streq-freestanding : (x y : Bytes) → streq (freestanding ++ x) (freestanding ++ y) ≡ streq x y
unfolding streq
streq-freestanding x y = refl

-- Nothing is registered for the entry `d`, and the prefix is as given.
record Fresh (d prefix : Bytes) (m : BootManager) : Type 0 where
  unknown : find_initrd (freestanding ++ d) m.initrd_freestanding ≡ none
  same_prefix : m.sysconfig.prefix ≡ prefix

register_initrd-Fresh :
    (dir d x prefix : Bytes) (name : Option Bytes) (m : BootManager)
    → streq x d ≡ false
    → Fresh d prefix m
    → Fresh d prefix (register_initrd dir x name m)
unfolding register_initrd add_initrd
register_initrd-Fresh dir d x prefix name m differ fresh =
    elim (Bool-cases (is_some (find_initrd (freestanding ++ x) m.initrd_freestanding))) [
      | inl old ↦ rw old fresh
      | inr new ↦ rw new (record {
        unknown = find_initrd-none _ _ _ _ (streq-freestanding x d ∙ differ) fresh.unknown;
        same_prefix = fresh.same_prefix;
      })
    ]

register_initrd-Knows :
    (dir d prefix : Bytes) (name : Option Bytes) (m : BootManager)
    → Fresh d prefix m
    → Knows (freestanding ++ d) (record { name = name; dir = dir }) (register_initrd dir d name m)
unfolding register_initrd add_initrd
register_initrd-Knows dir d prefix name m fresh =
    rw (ap is_some fresh.unknown) (find_initrd-last _ m.initrd_freestanding _ fresh.unknown)

-- The directory has, as `d`, a file or a link that is not empty; `name` is what is registered for
-- it, none for a link to /dev/null.
pub data Offers (P : Platform) (s : P.host.State) (prefix dir d : Bytes)
    : Option Bytes → Type 0 where
  a_file :
      (st : Stat)
      → P.host.lstat s (dir // d) ≡ some st
      → (st.size == 0) ≡ false
      → st.kind ≡ regular
      → Offers P s prefix dir d (some d)
  a_link :
      (st : Stat)
      → P.host.lstat s (dir // d) ≡ some st
      → (st.size == 0) ≡ false
      → st.kind ≡ symlink
      → Offers P s prefix dir d (linked_name P s prefix (dir // d) d)

module _ (P : Platform) (s : P.host.State) (dir d prefix : Bytes) where
  enumerate_entry-Fresh :
      (x : Bytes) (st : Option Stat) (m : BootManager)
      → streq x d ≡ false
      → Fresh d prefix m
      → Fresh d prefix (enumerate_entry P s dir x st m)
  unfolding enumerate_entry
  enumerate_entry-Fresh x none m differ fresh = fresh
  enumerate_entry-Fresh x (some st) m differ fresh = pick (st.size == 0) st.kind
    where
      registered : (name : Option Bytes) → Fresh d prefix (register_initrd dir x name m)
      registered name = register_initrd-Fresh dir d x prefix name m differ fresh

      pick :
          (empty : Bool) (k : FileKind)
          → Fresh d prefix (
              if empty then m else elim k [
                | regular ↦ register_initrd dir x (some x) m
                | symlink ↦
                    register_initrd dir x (linked_name P s m.sysconfig.prefix (dir // x) x) m
                | _ ↦ m
              ])
      pick true k = fresh
      pick false regular = registered _
      pick false symlink = registered _
      pick false directory = fresh
      pick false other = fresh

  enumerate_entry-Knows :
      (name : Option Bytes) (m : BootManager)
      → Offers P s prefix dir d name
      → Fresh d prefix m
      → Knows
          (freestanding ++ d)
          (record { name = name; dir = dir })
          (enumerate_entry P s dir d (P.host.lstat s (dir // d)) m)
  unfolding enumerate_entry
  enumerate_entry-Knows _ m (a_file st found sized kind) fresh =
      rw (found, enumerate_entry, sized, kind) (register_initrd-Knows dir d prefix _ m fresh)
  enumerate_entry-Knows _ m (a_link st found sized kind) fresh =
      rw (found, enumerate_entry, sized, kind)
        (subst
          (λ p.
            Knows (freestanding ++ d) (record { name = linked_name P s p (dir // d) d; dir = dir })
              (register_initrd dir d (linked_name P s m.sysconfig.prefix (dir // d) d) m))
          fresh.same_prefix (register_initrd-Knows dir d prefix _ m fresh))

  enumerate_entries-Offers :
      (name : Option Bytes) (before after : List Bytes) (m : BootManager)
      → All (λ x. streq x d ≡ false) before
      → Offers P s prefix dir d name
      → Fresh d prefix m
      → Knows
          (freestanding ++ d)
          (record { name = name; dir = dir })
          (enumerate_entries P s dir (before ++ (d ∷ after)) m)
  unfolding enumerate_entries
  enumerate_entries-Offers name [] after m others offers fresh =
      enumerate_entries-Knows _ _ P s dir after _ (enumerate_entry-Knows name m offers fresh)
  enumerate_entries-Offers name (x ∷ before) after m (differ, others) offers fresh =
      enumerate_entries-Offers name before after _ others offers
        (enumerate_entry-Fresh x (P.host.lstat s (dir // x)) m differ fresh)

module _ (P : Platform) (s : P.host.State) where
  enumerate_dir-listed :
      (dir : Bytes) (entries : List Bytes) (m : BootManager)
      → P.host.list_dir s dir ≡ some entries
      → enumerate_dir P s dir m ≡ (true, enumerate_entries P s dir entries m)
  unfolding enumerate_dir
  enumerate_dir-listed dir entries m listed = rw (listed, enumerate_dir) refl

  -- A file or a link that is not empty, in the user's directory, decides what is registered under its
  -- name once both directories are read: the user's file, or nothing for a link to /dev/null,
  -- whatever the system's directory has. The directory has no second entry of the name, and nothing
  -- was registered under it before.
  pub enumerate_both-Offers :
      (m : BootManager) (d : Bytes) (name : Option Bytes) (before after : List Bytes)
      → P.host.list_dir s m.user_initrd_freestanding_dir ≡ some (before ++ (d ∷ after))
      → All (λ x. streq x d ≡ false) before
      → Offers P s m.sysconfig.prefix m.user_initrd_freestanding_dir d name
      → find_initrd (freestanding ++ d) m.initrd_freestanding ≡ none
      → Knows
          (freestanding ++ d)
          (record { name = name; dir = m.user_initrd_freestanding_dir })
          (enumerate_both P s m).1
  enumerate_both-Offers m d name before after listed others offers unknown =
      enumerate_both-Knows _ _ P s m (
        rw (enumerate_dir-listed _ _ m listed) (
          enumerate_entries-Offers P s _ d m.sysconfig.prefix name before after m others offers
            (record { unknown = unknown; same_prefix = refl })))
