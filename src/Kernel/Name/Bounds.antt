-- ===== src/Kernel/Name/Bounds.antt =====
-- bootman/kernel.c: what is read of `uname -r` fits the buffers of `SystemKernel`.
use clr_boot_manager.Prelude.{◌<◌, ◌≤◌, ◌≡◌, Option, none, some, [], ◌∷◌, Bytes, arith, length}
use clr_boot_manager.Int.{ℤ, pos, negsuc, to_int16, to_long, pos_part, neg_part}
use clr_boot_manager.Kernel.{SystemKernel}
use clr_boot_manager.Kernel.Name.{
  parse_system_kernel, system_version, system_release, system_kernel,
}
use clr_boot_manager.Libc.{split_at, scan_int}

-- From -32768 to 32767.
abbrev pub IsInt16 : ℤ → Type 0
IsInt16 z = (pos_part z < 32768) × (neg_part z ≤ 32768)

pub to_int16-IsInt16 : (z : ℤ) → IsInt16 (to_int16 z)
unfolding to_int16
to_int16-IsInt16 (pos n) = ground arith
to_int16-IsInt16 (negsuc n) = ground arith

-- A number that fits stays as it is.
pub to_int16_self : (z : ℤ) → IsInt16 z → to_int16 z ≡ z
unfolding to_int16
to_int16_self (pos n) h = ground arith
to_int16_self (negsuc n) h = ground arith

-- The string and its NUL fit CBM_KELEM_LEN bytes, and it is not empty.
abbrev pub Fits : SystemKernel → Type 0
Fits k =
    (0 < length k.version)
    × (length k.version < 31)
    × (0 < length k.ktype)
    × (length k.ktype < 31)
    × IsInt16 k.release

system_kernel-Fits :
    (version ktype : Bytes) (n : Option ℤ) (k : SystemKernel)
    → 0 < length version
    → length version < 31
    → system_kernel version ktype n ≡ some k
    → Fits k
unfolding system_kernel
system_kernel-Fits version ktype none k h l e = cc
system_kernel-Fits version ktype (some n) k h l e = ground (arith, to_int16-IsInt16 (to_long n))

system_release-Fits :
    (version : Bytes) (r : Bytes × Bytes) (k : SystemKernel)
    → length version < 31
    → system_release version r ≡ some k
    → Fits k
unfolding system_release
system_release-Fits version (rel, []) k l e = cc
system_release-Fits version (rel, c ∷ ktype) k l e =
    ground (arith, system_kernel-Fits version ktype (scan_int rel) k)

system_version-Fits : (r : Bytes × Bytes) (k : SystemKernel) → system_version r ≡ some k → Fits k
unfolding system_version
system_version-Fits (version, []) k e = cc
system_version-Fits (version, c ∷ rest) k e =
    ground (arith, system_release-Fits version (split_at b'.' rest) k)

-- Every kernel that is read has a version and a type of 1 to 30 bytes, which fit their buffers with
-- the NUL behind them, and a release in the range of 16 bits.
pub parse_system_kernel-Fits :
    (inp : Bytes) (k : SystemKernel) → parse_system_kernel inp ≡ some k → Fits k
unfolding parse_system_kernel
parse_system_kernel-Fits inp k e = system_version-Fits (split_at b'-' inp) k e
