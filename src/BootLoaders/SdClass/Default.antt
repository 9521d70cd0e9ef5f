-- ===== src/BootLoaders/SdClass/Default.antt =====
-- bootloaders/systemd-class.c: the default kernel in the configuration of the loader.
pub mod Fields
pub mod RoundTrip
pub mod Stored
use clr_boot_manager.Prelude.{
  ℕ, ◌+◌, ◌-◌, ◌^◌, Bool, true, false, ◌||◌, Option, none, some, [], ◌∷◌, ◌++◌, Bytes, ◌==◌, ltb,
  leb, if◌then◌else◌, codes, length, drop,
}
use clr_boot_manager.Int.{ℤ, pos, negsuc, ltb_ℤ}
use clr_boot_manager.Libc.{memmem, split_at, scan_int, show_ℤ}
use clr_boot_manager.Kernel.{Kernel}
use clr_boot_manager.Kernel.Name.{KernelName, show_kernel_name}
use clr_boot_manager.Platform.{Platform, World, M}
use clr_boot_manager.Monad.{pure, ◌>>=◌, asks}
use clr_boot_manager.Files.Text.{file_get_text, write_if_changed}
use clr_boot_manager.BootMan.Config.{get_timeout_value, get_console_mode}
use clr_boot_manager.BootLoaders.SdClass.{SdClassConfig, entry_name}

-- "timeout %d\n" of a timeout above zero
unfoldable pub timeout_line : ℤ → Bytes
timeout_line timeout =
    if ltb_ℤ (pos 0) timeout then codes "timeout " ++ (show_ℤ timeout ++ (b'\n' ∷ [])) else []

unfoldable pub console_mode_line : Option Bytes → Bytes
console_mode_line none = []
console_mode_line (some mode) = codes "console-mode " ++ (mode ++ (b'\n' ∷ []))

-- -1 where the number is beyond a `long` of 64 bits, and 0 where there is no number.
unfoldable pub within_long : Option ℤ → ℤ
within_long none = pos 0
within_long (some z) =
    if ltb_ℤ (pos (2 ^ 63 - 1)) z || ltb_ℤ z (negsuc (2 ^ 63 - 1)) then negsuc 0 else z

-- `strtol(s, NULL, 10)` with the check of `errno`
unfoldable pub strtol_checked : Bytes → ℤ
unfolding within_long scan_int
strtol_checked s = within_long (scan_int s)

-- The parts around the last byte `stop`.
unfoldable pub split_last : ℕ → Bytes → Option (Bytes × Bytes)
split_last stop [] = none
split_last stop (c ∷ s) = elim (split_last stop s) [
  | some (before, behind) ↦ some (c ∷ before, behind)
  | none ↦ if c == stop then some ([], s) else none
]

-- The field behind the last dash, and what is before the dash; the scan stops short of the first byte,
-- and an empty field ends it.
unfoldable pub last_field : Bytes → Option (Bytes × Bytes)
unfolding split_last
last_field [] = none
last_field (c ∷ s) = elim (split_last b'-' s) [
  | none ↦ none
  | some (before, []) ↦ none
  | some (before, d ∷ field) ↦ some (c ∷ before, d ∷ field)
]

module _ (P : Platform) where
  -- What is before the version: the vendor prefix, a dash, and the type.
  unfoldable pub parse_ktype : Bytes → Option Bytes
  parse_ktype start =
      let pln = length P.config.vendor_prefix + 1 in
      let ln = length start in
      if leb ln pln || ltb 31 (ln - pln) then none else some (drop pln start)

  -- The name, if no field is missing and the release is not negative.
  unfoldable pub kernel_of_fields : ℤ → Bytes → Option Bytes → Option Bytes
  kernel_of_fields release version none = none
  kernel_of_fields release version (some ktype) =
      if ltb 15 (length version) || ltb_ℤ release (pos 0)
      then none
      else some (
          show_kernel_name P.config.kernel_namespace
            (record { ktype = ktype; version = version; release = release }))

  unfoldable pub parse_version : ℤ → Option (Bytes × Bytes) → Option Bytes
  unfolding kernel_of_fields parse_ktype
  parse_version release none = none
  parse_version release (some (start, version)) =
      kernel_of_fields release version (parse_ktype start)

  unfoldable pub parse_release : Option (Bytes × Bytes) → Option Bytes
  unfolding parse_version strtol_checked last_field
  parse_release none = none
  parse_release (some (start, release)) = parse_version (strtol_checked release) (last_field start)

  -- Behind "default ", up to the end of the line.
  unfoldable pub parse_line : Option (Bytes × Bytes) → Option Bytes
  unfolding parse_release last_field split_at
  parse_line none = none
  parse_line (some (_, start)) = parse_release (last_field (split_at b'\n' start).0)

  -- `parse_kernel_from_loader`
  unfoldable pub parse_kernel_from_loader : Bytes → Option Bytes
  unfolding parse_line memmem
  parse_kernel_from_loader conf = parse_line (memmem conf (codes "default "))

  -- A configuration that cannot be read names no kernel.
  unfoldable pub parse_config : Option Bytes → Option Bytes
  unfolding parse_kernel_from_loader
  parse_config none = none
  parse_config (some conf) = parse_kernel_from_loader conf

  -- What is written for a default kernel, and for none.
  unfoldable pub default_text : Option Kernel → World P.host.State → Bytes
  unfolding timeout_line console_mode_line entry_name
  default_text none w = codes "timeout 10\n"
  default_text (some k) w =
      codes "default "
      ++ (entry_name P.config.vendor_prefix k
          ++ (b'\n'
              ∷ (timeout_line (get_timeout_value P w) ++ console_mode_line (get_console_mode P w))))

  module _ (c : SdClassConfig) where
    -- `sd_class_set_default_kernel`
    unfoldable pub set_default_kernel : Option Kernel → M P.host.State Bool
    set_default_kernel k = do
      text ← asks (default_text k)
      write_if_changed P.host c.loader_config text

    -- `sd_class_get_default_kernel`
    unfoldable pub get_default_kernel : M P.host.State (Option Bytes)
    unfolding parse_config
    get_default_kernel = asks (λ w. parse_config (file_get_text P.host c.loader_config w))
