-- ===== src/BootLoaders/SdClass/Default/RoundTrip.antt =====
-- bootloaders/systemd-class.c: the default that was set is the default that is read.
use mathlib.Core.List.{append_assoc}
use clr_boot_manager.Prelude.{
  ℕ, suc, ◌+◌, ◌^◌, ◌<◌, ◌≤◌, ◌≡◌, ◌∙◌, refl, sym, ap, false, some, [], ◌∷◌, ◌++◌, Bytes, arith,
  codes, length, length-append, drop,
}
use clr_boot_manager.Int.{ℤ, pos}
use clr_boot_manager.Libc.{has_byte, show_ℤ, isdigit}
use clr_boot_manager.Libc.Numbers.{scan_int-show_ℤ}
use clr_boot_manager.Libc.Scan.{split_at-append, has_byte-show_ℤ, has_byte-show_pos}
use clr_boot_manager.Kernel.{Kernel}
use clr_boot_manager.Kernel.Name.{KernelName, show_kernel_name}
use clr_boot_manager.Libc.Lines.{has_byte-append}
use clr_boot_manager.Platform.{Platform}
use clr_boot_manager.BootLoaders.SdClass.{entry_name}
use clr_boot_manager.BootLoaders.SdClass.Default.{
  within_long, parse_line, strtol_checked, last_field, parse_ktype, kernel_of_fields, parse_version,
  parse_release, parse_kernel_from_loader,
}
use clr_boot_manager.BootLoaders.SdClass.Default.Fields.{last_field-append, memmem-append}

-- No newline and no NUL.
pub record IsLine (s : Bytes) : Type 0 where
  pub no_newline : has_byte b'\n' s ≡ false
  pub no_nul : has_byte 0 s ≡ false

-- A kernel whose fields fit the buffers of the parser, under a vendor prefix of one line.
pub record IsEntry (prefix : Bytes) (k : Kernel) : Type 0 where
  pub prefix_line : IsLine prefix
  pub type_some : 0 < length k.meta.ktype
  pub type_fits : length k.meta.ktype ≤ 31
  pub type_line : IsLine k.meta.ktype
  pub version_some : 0 < length k.meta.version
  pub version_fits : length k.meta.version ≤ 15
  pub version_no_dash : has_byte b'-' k.meta.version ≡ false
  pub version_line : IsLine k.meta.version
  pub number : ℕ
  pub release : k.meta.release ≡ pos number
  pub release_fits : number < 2 ^ 63

-- The parts of the kernel's name.
abbrev pub name_of : Kernel → KernelName
name_of k = record { ktype = k.meta.ktype; version = k.meta.version; release = k.meta.release }

-- The name up to the version, and up to the release.
abbrev typed : Bytes → Kernel → Bytes
typed prefix k = prefix ++ (b'-' ∷ k.meta.ktype)

abbrev versioned : Bytes → Kernel → Bytes
versioned prefix k = typed prefix k ++ (b'-' ∷ k.meta.version)

abbrev release_field : Kernel → Bytes
release_field k = show_ℤ k.meta.release ++ codes ".conf"

entry_name-split :
    (prefix : Bytes) (k : Kernel)
    → entry_name prefix k ≡ versioned prefix k ++ (b'-' ∷ release_field k)
unfolding entry_name
entry_name-split prefix k = sym (
    append_assoc (typed prefix k) (b'-' ∷ k.meta.version) (b'-' ∷ release_field k)
    ∙ append_assoc prefix (b'-' ∷ k.meta.ktype)
        (b'-' ∷ (k.meta.version ++ (b'-' ∷ release_field k))))

-- A byte that is not of a number, in none of the parts, is not in the name.
has_byte-entry_name :
    (b : ℕ) (prefix : Bytes) (k : Kernel)
    → b < 45
    → has_byte b prefix ≡ false
    → has_byte b k.meta.ktype ≡ false
    → has_byte b k.meta.version ≡ false
    → has_byte b (entry_name prefix k) ≡ false
unfolding entry_name has_byte
has_byte-entry_name b prefix k l p t v = has_byte-append b prefix _ p (
    joined _ (
      has_byte-append b k.meta.ktype _ t (
        joined _ (
          has_byte-append b k.meta.version _ v
            (joined _ (has_byte-append b (show_ℤ k.meta.release) _ shown tail))))))
  where
    joined : (s : Bytes) → has_byte b s ≡ false → has_byte b (b'-' ∷ s) ≡ false
    joined s h = ground arith

    shown : has_byte b (show_ℤ k.meta.release) ≡ false
    shown = has_byte-show_ℤ b k.meta.release (omega arith) (ground arith)

    tail : has_byte b (codes ".conf") ≡ false
    tail = ground arith

pub entry_name-IsLine :
    (prefix : Bytes) (k : Kernel) → IsEntry prefix k → IsLine (entry_name prefix k)
entry_name-IsLine prefix k e = record {
  no_newline =
      has_byte-entry_name b'\n' prefix k (omega arith) e.prefix_line.no_newline
        e.type_line.no_newline e.version_line.no_newline;
  no_nul =
      has_byte-entry_name 0 prefix k (omega arith) e.prefix_line.no_nul e.type_line.no_nul
        e.version_line.no_nul;
}

within_long-pos : (n : ℕ) → n < 2 ^ 63 → within_long (some (pos n)) ≡ pos n
unfolding within_long
within_long-pos n h = ground arith

release_field-strtol :
    (prefix : Bytes) (k : Kernel)
    → IsEntry prefix k
    → strtol_checked (release_field k) ≡ k.meta.release
unfolding strtol_checked
release_field-strtol prefix k e =
    ap within_long (scan_int-show_ℤ k.meta.release (codes ".conf") (unfold isdigit in refl))
    ∙ ap (λ (z : ℤ). within_long (some z)) e.release
    ∙ within_long-pos e.number e.release_fits
    ∙ sym e.release

suc_plus : (a b : ℕ) → suc a + b ≡ suc (a + b)
suc_plus a b = omega arith

drop-prefix : (p : Bytes) (c : ℕ) (s : Bytes) → drop (length p + 1) (p ++ (c ∷ s)) ≡ s
drop-prefix [] c s = refl
drop-prefix (x ∷ p) c s = rw (suc_plus (length p) 1) (drop-prefix p c s)

release_no_dash :
    (prefix : Bytes) (k : Kernel) → IsEntry prefix k → has_byte b'-' (show_ℤ k.meta.release) ≡ false
release_no_dash prefix k e =
    ap (λ (z : ℤ). has_byte b'-' (show_ℤ z)) e.release
    ∙ has_byte-show_pos b'-' e.number (unfold isdigit in refl)

module _ (P : Platform) where
  abbrev vendor : Bytes
  vendor = P.config.vendor_prefix

  parse_ktype-typed :
      (k : Kernel) → IsEntry vendor k → parse_ktype P (typed vendor k) ≡ some k.meta.ktype
  unfolding parse_ktype
  parse_ktype-typed k e =
      rw (length-append vendor (b'-' ∷ k.meta.ktype), drop-prefix vendor b'-' k.meta.ktype)
        (ground (arith, e.type_some, e.type_fits))

  kernel_of_fields-some :
      (k : Kernel)
      → IsEntry vendor k
      → kernel_of_fields P k.meta.release k.meta.version (some k.meta.ktype)
        ≡ some (show_kernel_name P.config.kernel_namespace (name_of k))
  unfolding kernel_of_fields
  kernel_of_fields-some k e = ground (arith, e.version_fits, e.release)

  parse_version-versioned :
      (k : Kernel)
      → IsEntry vendor k
      → parse_version P k.meta.release (last_field (versioned vendor k))
        ≡ some (show_kernel_name P.config.kernel_namespace (name_of k))
  unfolding parse_version
  parse_version-versioned k e =
      ap (parse_version P k.meta.release) (
        last_field-append (typed vendor k) k.meta.version
          (omega (arith, length-append vendor (b'-' ∷ k.meta.ktype))) e.version_some
          e.version_no_dash)
      ∙ ap (kernel_of_fields P k.meta.release k.meta.version) (parse_ktype-typed k e)
      ∙ kernel_of_fields-some k e

  parse_release-entry_name :
      (k : Kernel)
      → IsEntry vendor k
      → parse_release P (last_field (entry_name vendor k))
        ≡ some (show_kernel_name P.config.kernel_namespace (name_of k))
  unfolding parse_release
  parse_release-entry_name k e =
      ap (λ (s : Bytes). parse_release P (last_field s)) (entry_name-split vendor k)
      ∙ ap (parse_release P) (
          last_field-append (versioned vendor k) (release_field k)
            (omega (arith, length-append (typed vendor k) (b'-' ∷ k.meta.version)))
            (omega (arith, length-append (show_ℤ k.meta.release) (codes ".conf")))
            (has_byte-append b'-' (show_ℤ k.meta.release) _ (release_no_dash vendor k e)
              (unfold has_byte in refl)))
      ∙ ap (λ (z : ℤ). parse_version P z (last_field (versioned vendor k)))
          (release_field-strtol vendor k e)
      ∙ parse_version-versioned k e

  -- The configuration that names an entry, with any lines behind it, is read back to the name of the
  -- entry's kernel.
  pub parse_kernel_from_loader-entry_name :
      (k : Kernel) (rest : Bytes)
      → IsEntry vendor k
      → parse_kernel_from_loader P (codes "default " ++ (entry_name vendor k ++ (b'\n' ∷ rest)))
        ≡ some (show_kernel_name P.config.kernel_namespace (name_of k))
  unfolding parse_kernel_from_loader parse_line
  parse_kernel_from_loader-entry_name k rest e =
      let line = entry_name-IsLine vendor k e in
      ap (parse_line P) (memmem-append (codes "default ") (entry_name vendor k ++ (b'\n' ∷ rest)))
      ∙ ap (λ (r : Bytes × Bytes). parse_release P (last_field r.0))
          (split_at-append b'\n' (entry_name vendor k) rest line.no_newline)
      ∙ parse_release-entry_name k e
