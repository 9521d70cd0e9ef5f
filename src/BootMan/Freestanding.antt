-- ===== src/BootMan/Freestanding.antt =====
-- bootman/bootman.c: initrds that belong to no kernel. A user's file hides the system's file of the
-- same name, and a user's link to /dev/null masks it.
pub mod Shadowing
pub mod Entries
use clr_boot_manager.Prelude.{
  ℕ, ◌-◌, Bool, true, false, not, ◌&&◌, ◌||◌, Option, none, some, List, [], ◌∷◌, ◌++◌, Bytes, ◌==◌,
  ltb, if◌then◌else◌, codes, streq, starts_with, is_some, length, drop,
}
use clr_boot_manager.Kernel.Blobs.{copy_if_changed, remove_if_there}
use clr_boot_manager.Kernel.Inspect.{◌//◌}
use clr_boot_manager.Libc.{memmem}
use clr_boot_manager.Platform.{
  Platform, BootManager, InitrdEntry, Stat, FileKind, regular, symlink, directory, other, World, M,
}
use clr_boot_manager.Monad.{pure, ◌>>=◌, ◌>>◌, and_then, asks, modify, for_all}
use clr_boot_manager.BootMan.BootDir.{get_boot_dir, with_loader, is_uefi, efi_boot_dir}

-- `nc_hashmap_get` of the initrds
unfoldable pub find_initrd : Bytes → List (Bytes × InitrdEntry) → Option InitrdEntry
find_initrd key [] = none
find_initrd key ((k, e) ∷ m) = if streq k key then some e else find_initrd key m

abbrev pub freestanding : Bytes
freestanding = codes "freestanding-"

-- The name ends in "-ucode.cpio", and has more than that.
unfoldable pub is_ucode : Option Bytes → Bool
is_ucode none = false
is_ucode (some name) =
    let needle = codes "-ucode.cpio" in
    ltb (length needle) (length name) && streq (drop (length name - length needle) name) needle

-- The manager with one more initrd, `entry`, under a key that is new.
unfoldable pub add_initrd : Bytes → InitrdEntry → BootManager → BootManager
unfolding is_ucode
add_initrd key entry m = record m {
  initrd_freestanding = m.initrd_freestanding ++ ((key, entry) ∷ []);
  ucode_initrd =
      if is_ucode entry.name && not (is_some m.ucode_initrd) then some key else m.ucode_initrd;
}

-- A key that is there already is skipped.
unfoldable pub register_initrd : Bytes → Bytes → Option Bytes → BootManager → BootManager
unfolding add_initrd find_initrd
register_initrd dir d_name name m =
    let key = freestanding ++ d_name in
    if is_some (find_initrd key m.initrd_freestanding)
    then m
    else add_initrd key (record { name = name; dir = dir }) m

module _ (P : Platform) where
  module _ (s : P.host.State) where
    -- "PREFIX/dev/null"
    unfoldable pub null_path : Bytes → Bytes
    null_path prefix =
        if streq prefix (codes "/") then codes "/dev/null" else prefix // codes "dev/null"

    -- The name of an entry that is a link: none if it leads to /dev/null.
    unfoldable pub linked_name : Bytes → Bytes → Bytes → Option Bytes
    unfolding null_path
    linked_name prefix path d_name = elim (P.host.readlink s path) [
      | none ↦ some d_name
      | some buf ↦ if is_some (memmem buf (null_path prefix)) then none else some d_name
    ]

    -- One directory entry.
    unfoldable pub enumerate_entry : Bytes → Bytes → Option Stat → BootManager → BootManager
    unfolding linked_name register_initrd
    enumerate_entry dir d_name none m = m
    enumerate_entry dir d_name (some st) m = if st.size == 0 then m else elim st.kind [
      | regular ↦ register_initrd dir d_name (some d_name) m
      | symlink ↦
          register_initrd dir d_name (linked_name m.sysconfig.prefix (dir // d_name) d_name) m
      | _ ↦ m
    ]

    -- The loop of `_boot_manager_enumerate_initrds_freestanding`.
    unfoldable pub enumerate_entries : Bytes → List Bytes → BootManager → BootManager
    unfolding enumerate_entry
    enumerate_entries dir [] m = m
    enumerate_entries dir (d_name ∷ rest) m =
        enumerate_entries dir rest (enumerate_entry dir d_name (P.host.lstat s (dir // d_name)) m)

    -- A directory that does not exist has no initrds; one that cannot be read is an error.
    unfoldable pub enumerate_dir : Bytes → BootManager → Bool × BootManager
    enumerate_dir dir m = elim (P.host.list_dir s dir) [
      | none ↦ (not (P.host.file_exists s dir), m)
      | some entries ↦ (true, enumerate_entries dir entries m)
    ]

    -- The user's directory goes first.
    unfoldable pub enumerate_both : BootManager → Bool × BootManager
    enumerate_both m =
        let user = enumerate_dir m.user_initrd_freestanding_dir m in
        if user.0 then enumerate_dir user.1.initrd_freestanding_dir user.1 else user

  -- `boot_manager_enumerate_initrds_freestanding`
  unfoldable pub enumerate_initrds_freestanding : M P.host.State Bool
  unfolding enumerate_both enumerate_dir
  enumerate_initrds_freestanding w =
      let r = enumerate_both w.host w.manager in (r.0, record w { manager = r.1 })

  -- A masked initrd is not copied.
  copy_initrd : Bytes → Bytes × InitrdEntry → M P.host.State Bool
  copy_initrd target_dir (key, entry) = elim entry.name [
    | none ↦ pure true
    | some name ↦ copy_if_changed P (entry.dir // name) (target_dir // key)
  ]

  copy_initrds_to : Option Bytes → M P.host.State Bool
  unfolding copy_initrd
  copy_initrds_to none = pure false
  copy_initrds_to (some dir) = do
    base_path ← asks (get_boot_dir P)
    initrds ← asks (λ w. P.initrd_order w.manager.initrd_freestanding)
    for_all (copy_initrd (base_path ++ dir)) initrds

  -- `boot_manager_copy_initrd_freestanding`
  unfoldable pub copy_initrd_freestanding : M P.host.State Bool
  unfolding copy_initrds_to
  copy_initrd_freestanding = with_loader P false (λ l. asks (efi_boot_dir P l) >>= copy_initrds_to)

  -- One entry of the boot loader's directory: a freestanding initrd that is not known is removed.
  remove_stale : Bytes → Bytes → M P.host.State Bool
  remove_stale dir d_name =
      if starts_with freestanding d_name
      then (do
        known ← asks (λ w. is_some (find_initrd d_name w.manager.initrd_freestanding))
        if known then pure true else remove_if_there P (dir // d_name))
      else pure true

  remove_listed : Bytes → Option (List Bytes) → M P.host.State Bool
  unfolding remove_stale
  remove_listed dir none = pure false
  remove_listed dir (some entries) = for_all (remove_stale dir) entries

  remove_initrds_from : Option Bytes → M P.host.State Bool
  unfolding remove_listed
  remove_initrds_from none = pure false
  remove_initrds_from (some dir) = do
    base_path ← asks (get_boot_dir P)
    asks (λ w. P.host.list_dir w.host (base_path // dir)) >>= remove_listed (base_path // dir)

  -- `boot_manager_remove_initrd_freestanding`
  unfoldable pub remove_initrd_freestanding : M P.host.State Bool
  unfolding remove_initrds_from
  remove_initrd_freestanding =
      with_loader P false (λ l. asks (efi_boot_dir P l) >>= remove_initrds_from)

-- `boot_manager_initrd_iterator_next`: the next initrd that is not masked, and the iterator.
unfoldable pub next_initrd :
    List (Bytes × InitrdEntry) → Option (Bytes × List (Bytes × InitrdEntry))
next_initrd [] = none
next_initrd ((key, entry) ∷ rest) = elim entry.name [
  | none ↦ next_initrd rest
  | some _ ↦ some (key, rest)
]
