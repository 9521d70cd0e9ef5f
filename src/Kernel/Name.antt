-- ===== src/Kernel/Name.antt =====
-- bootman/kernel.c: the names of kernels. A file in the kernel directory is named
-- NAMESPACE.TYPE.VERSION-RELEASE, and `uname -r` is VERSION-RELEASE.TYPE.
pub mod RoundTrip
pub mod Bounds
use clr_boot_manager.Prelude.{
  ℕ, suc, ◌+◌, Bool, true, false, ◌&&◌, Option, none, some, List, [], ◌∷◌, ◌++◌, Bytes, ◌==◌, leb,
  if◌then◌else◌, codes, starts_with, streq, length, drop,
}
use clr_boot_manager.Int.{ℤ, to_int16, to_long}
use clr_boot_manager.Libc.{split_at, scan_set, scan_int, expect, show_ℤ}
use clr_boot_manager.Kernel.{SystemKernel}

-- What `sscanf` reads of a kernel's name.
pub record KernelName : Type 0 where
  pub ktype : Bytes
  pub version : Bytes
  pub release : ℤ

scan_release : Bytes → Bytes → Option Bytes → Option KernelName
scan_release type version none = none
scan_release type version (some s) = elim (scan_int s) [
  | none ↦ none
  | some n ↦ some (record { ktype = type; version = version; release = n })
]

scan_version : Bytes → Bytes × Bytes → Option KernelName
scan_version type ([], s) = none
scan_version type (c ∷ version, s) = scan_release type (c ∷ version) (expect b'-' s)

scan_version_of : Bytes → Option Bytes → Option KernelName
scan_version_of type none = none
scan_version_of type (some s) = scan_version type (scan_set 15 b'-' s)

scan_type : Bytes × Bytes → Option KernelName
scan_type ([], s) = none
scan_type (c ∷ type, s) = scan_version_of (c ∷ type) (expect b'.' s)

scan_type_of : Option Bytes → Option KernelName
scan_type_of none = none
scan_type_of (some s) = scan_type (scan_set 31 b'.' s)

-- sscanf(name, KERNEL_NAMESPACE ".%31[^.].%15[^-]-%d", type, version, &release) == 3
unfoldable pub parse_kernel_name : Bytes → Bytes → Option KernelName
unfolding scan_type_of scan_type scan_version_of scan_version scan_release expect scan_set scan_int
parse_kernel_name namespace name =
    if starts_with namespace name
    then scan_type_of (expect b'.' (drop (length namespace) name))
    else none

-- "%s.%s.%s-%d", the name that `boot_manager_inspect_kernel` writes for the initrd.
unfoldable pub show_kernel_name : Bytes → KernelName → Bytes
unfolding show_ℤ
show_kernel_name namespace k =
    namespace ++ (b'.' ∷ (k.ktype ++ (b'.' ∷ (k.version ++ (b'-' ∷ show_ℤ k.release)))))

-- "%s-%d.%s", the tail of the names of the files that belong to a kernel.
unfoldable pub show_uname : KernelName → Bytes
unfolding show_ℤ
show_uname k = k.version ++ (b'-' ∷ (show_ℤ k.release ++ (b'.' ∷ k.ktype)))

-- CBM_KELEM_LEN
abbrev pub kelem_len : ℕ
kelem_len = 31

system_kernel : Bytes → Bytes → Option ℤ → Option SystemKernel
system_kernel version ktype none = none
system_kernel version ktype (some n) =
    if length ktype == 0
    then none
    else if leb (length ktype + 1) kelem_len
    then some (record { version = version; ktype = ktype; release = to_int16 (to_long n) })
    else none

-- Behind the dash: the release up to the dot, and the type behind it.
system_release : Bytes → Bytes × Bytes → Option SystemKernel
system_release version (krelease, []) = none
system_release version (krelease, _ ∷ ktype) =
    if leb kelem_len (length krelease + 1)
    then none
    else if length version == 0
    then none
    else if length krelease == 0
    then none
    else system_kernel version ktype (scan_int krelease)

system_version : Bytes × Bytes → Option SystemKernel
system_version (version, []) = none
system_version (version, _ ∷ rest) =
    if leb kelem_len (length version)
    then none
    else if length rest == 0
    then none
    else system_release version (split_at b'.' rest)

-- `cbm_parse_system_kernel`
unfoldable pub parse_system_kernel : Bytes → Option SystemKernel
unfolding system_version system_release system_kernel split_at scan_int
parse_system_kernel inp = system_version (split_at b'-' inp)
