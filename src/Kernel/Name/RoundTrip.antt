-- ===== src/Kernel/Name/RoundTrip.antt =====
-- bootman/kernel.c: the names that the boot manager writes are the names that it reads.
use clr_boot_manager.Prelude.{
  sym, ℕ, ◌<◌, ◌≤◌, ◌≡◌, refl, ◌∙◌, false, Option, none, some, [], ◌∷◌, ◌++◌, Bytes, arith, length,
  ap, length-append,
}
use clr_boot_manager.Int.{ℤ, to_int16, to_long}
use clr_boot_manager.Kernel.Name.{
  KernelName, parse_kernel_name, show_kernel_name, show_uname, parse_system_kernel, scan_type_of,
  scan_type, scan_version_of, scan_version, scan_release, system_version, system_release,
  system_kernel,
}
use clr_boot_manager.Libc.{has_byte, scan_int, expect, show_ℤ}
use clr_boot_manager.Libc.Numbers.{scan_int_all}
use clr_boot_manager.Libc.Scan.{
  split_at-append, scan_set-append, starts_with-append, drop-append, has_byte-show_ℤ,
}

-- A name whose parts fit the format of `sscanf`.
pub record IsName (k : KernelName) : Type 0 where
  pub type_some : 0 < length k.ktype
  pub type_fits : length k.ktype ≤ 31
  pub type_no_dot : has_byte b'.' k.ktype ≡ false
  pub version_some : 0 < length k.version
  pub version_fits : length k.version ≤ 15
  pub version_no_dash : has_byte b'-' k.version ≡ false

expect_self : (c : ℕ) (s : Bytes) → expect c (c ∷ s) ≡ some s
unfolding expect
expect_self c s = ground arith

scan_release-show :
    (type version : Bytes) (z : ℤ)
    → scan_release type version (some (show_ℤ z))
      ≡ some (record { ktype = type; version = version; release = z })
unfolding scan_release
scan_release-show type version z = rw (scan_int_all z, scan_release)

scan_version-show :
    (type version : Bytes) (z : ℤ)
    → 0 < length version
    → length version ≤ 15
    → has_byte b'-' version ≡ false
    → scan_version_of type (some (version ++ (b'-' ∷ show_ℤ z)))
      ≡ some (record { ktype = type; version = version; release = z })
unfolding scan_version_of scan_version
scan_version-show type [] z h l d = absurd (omega arith)
scan_version-show type (c ∷ version) z h l d =
    rw (scan_set-append 15 b'-' (c ∷ version) (show_ℤ z) d l, expect_self) (scan_release-show _ _ z)

scan_type-show :
    (k : KernelName)
    → IsName k
    → scan_type_of (some (k.ktype ++ (b'.' ∷ (k.version ++ (b'-' ∷ show_ℤ k.release))))) ≡ some k
unfolding scan_type_of
scan_type-show k v =
    rw (scan_set-append 31 b'.' k.ktype _ v.type_no_dot v.type_fits) (typed k.ktype refl)
  where
    typed :
        (t : Bytes)
        → t ≡ k.ktype
        → scan_type (t, b'.' ∷ (k.version ++ (b'-' ∷ show_ℤ k.release))) ≡ some k
    typed [] e = absurd (omega (arith, ap length e, v.type_some))
    typed (c ∷ t) e =
        unfold scan_type in
        rw expect_self (
          scan_version-show (c ∷ t) k.version k.release v.version_some v.version_fits
            v.version_no_dash
          ∙ rw e)

-- A name that is written by the format NAMESPACE.TYPE.VERSION-RELEASE is read back to the same
-- type, version and release, if the type has from 1 to 31 bytes with no dot and the version from 1
-- to 15 bytes with no dash.
pub parse-show_kernel_name :
    (namespace : Bytes) (k : KernelName)
    → IsName k
    → parse_kernel_name namespace (show_kernel_name namespace k) ≡ some k
unfolding parse_kernel_name show_kernel_name
parse-show_kernel_name namespace k v = rw (starts_with-append, drop-append) (scan_type-show k v)

-- `length s + 1` is within CBM_KELEM_LEN.
abbrev Short : Bytes → Type 0
Short s = (0 < length s) × (length s < 31)

-- A kernel release whose parts fit CBM_KELEM_LEN.
pub record IsUname (k : KernelName) : Type 0 where
  pub version_fits : Short k.version
  pub version_no_dash : has_byte b'-' k.version ≡ false
  pub release_fits : length (show_ℤ k.release) < 30
  pub type_fits : Short k.ktype

system_kernel-show :
    (k : KernelName)
    → IsUname k
    → system_kernel k.version k.ktype (scan_int (show_ℤ k.release))
      ≡ some
          (record { version = k.version; ktype = k.ktype; release = to_int16 (to_long k.release) })
unfolding system_kernel
system_kernel-show k v = rw (scan_int_all k.release) (ground arith)

empty_scan : scan_int [] ≡ none
unfolding scan_int
empty_scan = refl

length-show_ℤ : (z : ℤ) → 0 < length (show_ℤ z)
length-show_ℤ z = filled (show_ℤ z) (scan_int_all z)
  where
    filled : (s : Bytes) → scan_int s ≡ some z → 0 < length s
    filled [] e = absurd (none_left (sym empty_scan ∙ e))
      where
        none_left : ◌≡◌ {A = Option ℤ} none (some z) → ⊥
        none_left q = cc
    filled (c ∷ s) e = omega arith

system_release-show :
    (k : KernelName)
    → IsUname k
    → system_release k.version (show_ℤ k.release, b'.' ∷ k.ktype)
      ≡ some
          (record { version = k.version; ktype = k.ktype; release = to_int16 (to_long k.release) })
unfolding system_release
system_release-show k v = ground (arith, system_kernel-show k v, length-show_ℤ k.release)

system_version-show :
    (k : KernelName)
    → IsUname k
    → system_version (k.version, b'-' ∷ (show_ℤ k.release ++ (b'.' ∷ k.ktype)))
      ≡ some
          (record { version = k.version; ktype = k.ktype; release = to_int16 (to_long k.release) })
unfolding system_version
system_version-show k v =
    rw
      (split_at-append b'.' (show_ℤ k.release) k.ktype
        (has_byte-show_ℤ b'.' k.release (omega arith) refl))
      (ground (arith, system_release-show k v, length-append (show_ℤ k.release) (b'.' ∷ k.ktype)))

-- What `uname -r` gives, VERSION-RELEASE.TYPE, is read back to the same version and type, and to the
-- release, or the nearest number that a `long` holds, cut to 16 bits, if version and type have from 1
-- to 30 bytes, the version no dash, and the release is written in fewer than 30 bytes.
pub parse-show_uname :
    (k : KernelName)
    → IsUname k
    → parse_system_kernel (show_uname k)
      ≡ some
          (record { version = k.version; ktype = k.ktype; release = to_int16 (to_long k.release) })
unfolding parse_system_kernel show_uname
parse-show_uname k v =
    rw (split_at-append b'-' k.version _ v.version_no_dash) (system_version-show k v)
