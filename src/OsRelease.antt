-- ===== src/OsRelease.antt =====
-- lib/os-release.c: the fields of an os-release file, and the values that stand in for them.
pub mod Quoted
use clr_boot_manager.Prelude.{
  ℕ, Bool, true, false, ◌||◌, Option, none, some, List, [], ◌∷◌, ◌++◌, Bytes, ◌==◌, if◌then◌else◌,
  codes, streq, map,
}
use clr_boot_manager.Libc.{split_at, skip_space, lines, toupper}
use clr_boot_manager.Cmdline.{rstrip}
use clr_boot_manager.Kernel.Inspect.{◌//◌, c_string}
use clr_boot_manager.Platform.{Platform, Host}

-- `CbmOsReleaseKey`
pub data CbmOsReleaseKey : Type 0 where
  name version id version_id pretty_name ansi_color home_url support_url bug_report_url :
      CbmOsReleaseKey

-- `os_release_fields`
unfoldable pub os_release_field : CbmOsReleaseKey → Bytes
os_release_field name = codes "NAME"
os_release_field version = codes "VERSION"
os_release_field id = codes "ID"
os_release_field version_id = codes "VERSION_ID"
os_release_field pretty_name = codes "PRETTY_NAME"
os_release_field ansi_color = codes "ANSI_COLOR"
os_release_field home_url = codes "HOME_URL"
os_release_field support_url = codes "SUPPORT_URL"
os_release_field bug_report_url = codes "BUG_REPORT_URL"

-- `cbm_os_release_fallback_value`; the first argument is VENDOR_PREFIX.
unfoldable pub fallback_value : Bytes → CbmOsReleaseKey → Bytes
fallback_value vendor_prefix name = codes "generic-linux-os"
fallback_value vendor_prefix pretty_name = codes "generic-linux-os"
fallback_value vendor_prefix id = vendor_prefix
fallback_value vendor_prefix version = codes "1"
fallback_value vendor_prefix version_id = codes "1"
fallback_value vendor_prefix _ = []

is_quote : ℕ → Bool
is_quote c = c == 39 || c == 34

-- The value without a quote at its end; the quote becomes a NUL, which ends the text.
unfoldable pub drop_last_quote : Bytes → Bytes
unfolding is_quote
drop_last_quote [] = []
drop_last_quote (c ∷ []) = if is_quote c then [] else c ∷ []
drop_last_quote (c ∷ d ∷ s) = c ∷ drop_last_quote (d ∷ s)

-- The value without a quote at its start.
unfoldable pub drop_first_quote : Bytes → Bytes
unfolding is_quote
drop_first_quote [] = []
drop_first_quote (c ∷ s) = if is_quote c then s else c ∷ s

unfoldable pub unquote : Bytes → Bytes
unfolding drop_last_quote drop_first_quote
unquote value = drop_first_quote (drop_last_quote value)

-- The key and the value around the first `=`; none if one of them is empty.
unfoldable pub assignment : Bytes × Bytes → Option (Bytes × Bytes)
assignment (key, []) = none
assignment (key, _ ∷ []) = none
assignment ([], _ ∷ _ ∷ _) = none
assignment (c ∷ key, _ ∷ d ∷ value) = some (map toupper (c ∷ key), unquote (d ∷ value))

unfoldable pub assignment_of_text : Bytes → Option (Bytes × Bytes)
assignment_of_text [] = none
assignment_of_text (c ∷ s) = if c == b'#' then none else assignment (split_at b'=' (rstrip (c ∷ s)))

-- What one line of the file gives.
unfoldable pub field_of_line : Bytes → Option (Bytes × Bytes)
field_of_line line = assignment_of_text (skip_space line)

module _ (P : Platform) where
  -- The loop of `cbm_os_release_parse`
  unfoldable pub parse_lines : List (Bytes × Bytes) → List Bytes → List (Bytes × Bytes)
  unfolding field_of_line
  parse_lines m [] = m
  parse_lines m (line ∷ rest) = elim (field_of_line line) [
    | none ↦ parse_lines m rest
    | some (key, value) ↦ parse_lines (P.map_put key value m) rest
  ]

  -- `cbm_os_release_new`: empty for a file that cannot be opened.
  unfoldable pub os_release_new : Option Bytes → List (Bytes × Bytes)
  unfolding parse_lines
  os_release_new none = []
  os_release_new (some content) = parse_lines [] (lines content)

  -- `cbm_os_release_new_for_root`: the first of the two files that exists.
  unfoldable pub os_release_new_for_root : P.host.State → Bytes → List (Bytes × Bytes)
  unfolding os_release_new
  os_release_new_for_root s root =
      if P.host.file_exists s (root // codes "etc/os-release")
      then os_release_new (P.host.read s (root // codes "etc/os-release"))
      else if P.host.file_exists s (root // codes "usr/lib/os-release")
      then os_release_new (P.host.read s (root // codes "usr/lib/os-release"))
      else []

  -- `cbm_os_release_get_value`, of a key in range
  unfoldable pub get_value : List (Bytes × Bytes) → CbmOsReleaseKey → Bytes
  get_value self key = elim (P.map_get (os_release_field key) self) [
    | some value ↦ value
    | none ↦ fallback_value P.config.vendor_prefix key
  ]
