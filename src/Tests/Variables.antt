-- ===== src/Tests/Variables.antt =====
-- The number of a boot entry among others.
use clr_boot_manager.Prelude.{
  All, ◌≡◌, refl, ℕ, true, false, List, [], ◌∷◌, Option, none, some, Bytes, codes, streq,
  streq_refl, map, if◌then◌else◌, arith,
}
use clr_boot_manager.Int.{pos}
use clr_boot_manager.BootLoaders.SdClass.Vtable.{Variable}
use clr_boot_manager.BootVar.Names.{num_of_name}
use clr_boot_manager.BootVar.EspData.{Devices, make_boot_rec_data}
use clr_boot_manager.BootVar.Records.{EfiVariable, Efi, BootVars, create, has_boot_rec}
use clr_boot_manager.BootVar.Records.Added.{IsEfi, IsNumbered}
use clr_boot_manager.BootVar.Records.Created.{IsBootedFirst, create-IsBootedFirst}
use clr_boot_manager.BootVar.Numbers.{
  is_in, first_gap, last_of, free_in_sorted, find_free_no, FreeOf, find_free_no-FreeOf,
}

-- A list of two numbers turned round; as a sort it serves for the one list below.
abbrev swap_two : List ℕ → List ℕ
swap_two (a ∷ b ∷ []) = b ∷ a ∷ []
swap_two ns = ns

swapped : (m : ℕ) → is_in m (0 ∷ 2 ∷ []) ≡ is_in m (2 ∷ 0 ∷ [])
unfolding is_in
swapped m = ground arith

find_free_no-FreeOf_example : FreeOf (2 ∷ 0 ∷ []) (some 1)
unfolding find_free_no free_in_sorted first_gap last_of
find_free_no-FreeOf_example =
    find_free_no-FreeOf swap_two (2 ∷ 0 ∷ []) swapped (omega arith, (omega arith, tt))

-- Variables in a table of the firmware, the newest first.
record Firmware : Type 0 where
  table : List (Bytes × EfiVariable)
  vars : BootVars

unfoldable variable_of : List (Bytes × EfiVariable) → Bytes → Option EfiVariable
variable_of [] name = none
variable_of ((key, value) ∷ rest) name =
    let others = variable_of rest name in if streq key name then some value else others

abbrev disk_devices : Devices
disk_devices = record {
  device_of = λ path. some 1;
  wholedisk_name = λ dev. some (codes "sda");
  partition = λ disk dev. some (record {
    partno = pos 1;
    type_string = some (codes "c12a7328-f81f-11d2-ba4b-00a0c93ec93b");
  });
  file_device_path = λ disk part path. some path;
  loadopt_create = λ path. some path;
}

abbrev firmware : Efi Firmware
firmware = record {
  variables_supported = λ s. true;
  names = λ s. (map (λ v. (codes "global", v.0)) s.table, true);
  get_variable = λ s name. variable_of s.table name;
  set_variable = λ name content attributes s. (
    true,
    record s { table = (name, record { content = content; attributes = attributes }) ∷ s.table },
  );
  devices = λ s. disk_devices;
  global_guid = codes "global";
  getenv = λ s name. none;
}

abbrev firmware_vars : Variable Firmware BootVars
firmware_vars = record { get = λ s. s.vars; put = λ v s. record s { vars = v } }

firmware-IsEfi : IsEfi firmware firmware_vars
unfolding variable_of
firmware-IsEfi = record {
  stored = λ name content attributes s set. rw (streq_refl name) refl;
  others = λ name content other attributes s apart. rw apart refl;
  same_devices = λ name content attributes s. refl;
  same_vars = λ name content attributes s. refl;
  put_get = λ v s. refl;
  put_variable = λ v s name. refl;
  put_devices = λ v s. refl;
}

abbrev one_entry : Firmware
one_entry = record {
  table =
      (codes "BootOrder", record { content = 1 ∷ 0 ∷ []; attributes = 7 })
      ∷ (codes "Boot0001", record { content = codes "other"; attributes = 7 })
      ∷ [];
  vars = record {
    boot_recs = record { name = codes "Boot0001"; num = 1 } ∷ [];
    boot_recs_cnt = 1;
    test_mode = false;
  };
}

create-order :
    variable_of
      (create firmware firmware_vars
        (λ ns. ns)
        (codes "/boot")
        (codes "\\EFI\\loader.efi")
        one_entry).1.table
      (codes "BootOrder")
    ≡ some (record { content = 0 ∷ 0 ∷ 1 ∷ 0 ∷ []; attributes = 7 })
unfolding create variable_of streq
create-order = refl

one_entry-IsNumbered : All IsNumbered one_entry.vars.boot_recs
unfolding num_of_name
one_entry-IsNumbered = (refl, tt)

made_data :
    make_boot_rec_data disk_devices (codes "/boot") (codes "\\EFI\\loader.efi")
    ≡ some (codes "\\EFI\\loader.efi")
unfolding make_boot_rec_data
made_data = refl

created_entry :
    (create firmware firmware_vars
      (λ ns. ns)
      (codes "/boot")
      (codes "\\EFI\\loader.efi")
      one_entry).0
    ≡ true
unfolding create variable_of streq
created_entry = refl

create-IsBootedFirst_example :
    (has_boot_rec firmware firmware_vars
        (λ ns. ns)
        (create firmware firmware_vars
          (λ ns. ns)
          (codes "/boot")
          (codes "\\EFI\\loader.efi")
          one_entry).1
        (codes "/boot")
        (codes "\\EFI\\loader.efi")
      ≡ true)
    × IsBootedFirst firmware firmware_vars
        (codes "\\EFI\\loader.efi")
        (create firmware firmware_vars
          (λ ns. ns)
          (codes "/boot")
          (codes "\\EFI\\loader.efi")
          one_entry).1
create-IsBootedFirst_example =
    create-IsBootedFirst firmware firmware_vars firmware-IsEfi (λ ns. ns) (codes "/boot")
      (codes "\\EFI\\loader.efi") (codes "\\EFI\\loader.efi") one_entry one_entry-IsNumbered refl
      made_data created_entry
