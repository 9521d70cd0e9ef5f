-- ===== src/BootVar/Records.antt =====
-- lib/bootvar.c: the boot entries among the EFI variables. libefivar and libblkid are parameters.
pub mod Added
pub mod Created
use clr_boot_manager.Prelude.{
  ℕ, zero, suc, ◌+◌, ◌-◌, ◌*◌, ◌/◌, ◌%◌, ◌==◌, ltb, leb, Bool, true, false, not, ◌&&◌, ◌||◌, Option,
  none, some, List, [], ◌∷◌, ◌++◌, Bytes, codes, streq, starts_with, drop, map, length, find_first,
  is_some, bind, if◌then◌else◌,
}
use clr_boot_manager.Int.{ℤ, pos, ltb_ℤ}
use clr_boot_manager.BootLoaders.SdClass.Vtable.{Variable}
use clr_boot_manager.BootLoaders.Shim.Install
use clr_boot_manager.BootVar.Names.{num_of_name, boot_name, words_of, bytes_of}
use clr_boot_manager.BootVar.EspData.{Devices, make_boot_rec_data}
use clr_boot_manager.BootVar.Numbers.{find_free_no, new_boot_order}

-- A variable of EFI_GLOBAL_GUID
pub record EfiVariable : Type 0 where
  pub content : Bytes
  pub attributes : ℕ

-- libefivar over a state. `names` are the GUIDs and the names of the variables, and whether their
-- enumeration went to its end.
pub record Efi (S : Type 0) : Type 0 where
  pub variables_supported : S → Bool
  pub names : S → List (Bytes × Bytes) × Bool
  pub get_variable : S → Bytes → Option EfiVariable
  pub set_variable : Bytes → Bytes → ℕ → S → Bool × S
  pub devices : S → Devices
  pub global_guid : Bytes
  pub getenv : S → Bytes → Option Bytes

-- `boot_rec_t`, whose data is not used
pub record BootRec : Type 0 where
  pub name : Bytes
  pub num : ℕ

-- The static variables of the file.
pub record BootVars : Type 0 where
  pub boot_recs : List BootRec
  pub boot_recs_cnt : ℕ
  pub test_mode : Bool

-- EFI_VARIABLE_NON_VOLATILE | EFI_VARIABLE_BOOTSERVICE_ACCESS | EFI_VARIABLE_RUNTIME_ACCESS
abbrev pub boot_attributes : ℕ
boot_attributes = 7

module _ {S : Type 0} (E : Efi S) (V : Variable S BootVars) where
  -- The entries among the names, in their order.
  unfoldable pub recs_of : List (Bytes × Bytes) → List BootRec
  unfolding num_of_name
  recs_of [] = []
  recs_of ((guid, name) ∷ rest) =
      let others = recs_of rest in
      elim (num_of_name name) [
        | none ↦ others
        | some num ↦
            if streq guid E.global_guid then record { name = name; num = num } ∷ others else others
      ]

  -- `bootvar_read_boot_recs`; the count stays where the enumeration fails.
  unfoldable pub read_boot_recs : S → Bool × S
  unfolding recs_of
  read_boot_recs s =
      let listed = E.names s in
      let recs = recs_of listed.0 in
      if listed.1
      then (true, V.put (record (V.get s) { boot_recs = recs; boot_recs_cnt = length recs }) s)
      else (false, V.put (record (V.get s) { boot_recs = recs }) s)

  -- The variable of the entry holds the data.
  unfoldable pub has_content : Bytes → S → BootRec → Bool
  has_content content s r = elim (E.get_variable s r.name) [
    | none ↦ false
    | some v ↦ streq v.content content
  ]

  -- `bootvar_find_boot_rec`
  unfoldable pub find_boot_rec : Bytes → S → Option BootRec
  unfolding has_content
  find_boot_rec content s =
      if (V.get s).boot_recs_cnt == 0
      then none
      else find_first (has_content content s) (V.get s).boot_recs

  -- `bootvar_push_to_boot_order`
  unfoldable pub push_to_boot_order : BootRec → S → Bool × S
  unfolding new_boot_order words_of bytes_of
  push_to_boot_order r s = elim (E.get_variable s (codes "BootOrder")) [
    | none ↦ (false, s)
    | some v ↦
        E.set_variable (codes "BootOrder") (bytes_of (new_boot_order r.num (words_of v.content)))
          v.attributes s
  ]

  -- The records are read anew, and the one with the name is looked for.
  unfoldable pub reread : Bytes → S → Option BootRec × S
  unfolding read_boot_recs
  reread name s =
      let r = read_boot_recs s in
      (if r.0 then find_first (λ c. streq c.name name) (V.get r.1).boot_recs else none, r.1)

  unfoldable pub create_named : Bytes → Option Bytes → S → Option BootRec × S
  unfolding reread
  create_named content none s = (none, s)
  create_named content (some name) s =
      let r = E.set_variable name content boot_attributes s in
      if r.0 then reread name r.1 else (none, r.1)

  module _ (qsort : List ℕ → List ℕ) where
    -- `bootvar_find_free_no` on the records
    free_slot : BootVars → Option ℕ
    unfolding find_free_no
    free_slot v = elim v.boot_recs [
      | [] ↦ none
      | r ∷ rs ↦
          if v.boot_recs_cnt == 0 then some 0 else find_free_no qsort (r.num ∷ map (λ c. c.num) rs)
    ]

    name_of_slot : Option ℕ → Option Bytes
    unfolding boot_name
    name_of_slot none = none
    name_of_slot (some slot) = boot_name slot

    -- `bootvar_add_boot_rec`
    unfoldable pub add_boot_rec : Bytes → S → Option BootRec × S
    unfolding find_boot_rec create_named free_slot name_of_slot
    add_boot_rec content s = elim (find_boot_rec content s) [
      | some r ↦ (some r, s)
      | none ↦ create_named content (name_of_slot (free_slot (V.get s))) s
    ]

    push_added : Option BootRec × S → Bool × S
    unfolding push_to_boot_order
    push_added (none, s) = (false, s)
    push_added (some r, s) = push_to_boot_order r s

    create_data : Option Bytes → S → Bool × S
    unfolding add_boot_rec push_added
    create_data none s = (false, s)
    create_data (some content) s = push_added (add_boot_rec content s)

    -- `bootvar_create`, but for the name that it writes to the caller's buffer
    unfoldable pub create : Bytes → Bytes → S → Bool × S
    unfolding create_data make_boot_rec_data
    create esp_mount_path bootloader_esp_path s =
        if (V.get s).test_mode
        then (true, s)
        else create_data (make_boot_rec_data (E.devices s) esp_mount_path bootloader_esp_path) s

    has_data : Option Bytes → S → Bool
    unfolding find_boot_rec
    has_data none s = false
    has_data (some content) s = is_some (find_boot_rec content s)

    -- `bootvar_has_boot_rec`
    unfoldable pub has_boot_rec : S → Bytes → Bytes → Bool
    unfolding has_data make_boot_rec_data
    has_boot_rec s esp_mount_path bootloader_esp_path =
        if (V.get s).test_mode
        then true
        else has_data (make_boot_rec_data (E.devices s) esp_mount_path bootloader_esp_path) s

    asks_test_mode : Option Bytes → Bool
    asks_test_mode none = false
    asks_test_mode (some env) = streq env (codes "yes")

    -- `bootvar_init`
    unfoldable pub init : S → Bool × S
    unfolding asks_test_mode read_boot_recs
    init s =
        let test =
          (V.get s).test_mode || asks_test_mode (E.getenv s (codes "CBM_BOOTVAR_TEST_MODE")) in
        let s' = V.put (record (V.get s) { test_mode = test }) s in
        if test
        then (true, s')
        else if E.variables_supported s'
        then read_boot_recs s'
        else (false, s')

    -- `bootvar_destroy`
    unfoldable pub destroy : S → S
    destroy s = if (V.get s).test_mode then s else V.put (record (V.get s) { boot_recs = [] }) s

    -- What shim-systemd calls.
    unfoldable pub boot_var : Install.BootVar S
    unfolding init destroy has_boot_rec create
    boot_var = record {
      init = λ s. (init s).1;
      destroy = destroy;
      has_boot_rec = has_boot_rec;
      create = λ dir path s. (create dir path s).1;
    }
