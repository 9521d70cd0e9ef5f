-- ===== src/Kernel.antt =====
-- bootman/bootman.h: the kernel records.
pub mod Name
pub mod Paths
pub mod Select
pub mod Inspect
pub mod CString
pub mod Blobs
use clr_boot_manager.Prelude.{ℕ, Bool, Option, Bytes}
use clr_boot_manager.Int.{ℤ}

-- `Kernel.meta`
pub record Meta : Type 0 where
  pub bpath : Bytes
  pub version : Bytes
  pub release : ℤ
  pub ktype : Bytes
  pub cmdline : Bytes
  pub boots : Bool

-- `Kernel.source`; an absent path is NULL in the source.
pub record Source : Type 0 where
  pub path : Bytes
  pub cmdline_file : Option Bytes
  pub kconfig_file : Option Bytes
  pub initrd_file : Option Bytes
  pub user_initrd_file : Option Bytes
  pub kboot_file : Option Bytes
  pub module_dir : Option Bytes
  pub sysmap_file : Option Bytes
  pub vmlinux_file : Option Bytes
  pub headers_dir : Option Bytes

-- `Kernel.target`
pub record Target : Type 0 where
  pub path : Bytes
  pub legacy_path : Bytes
  pub initrd_path : Option Bytes

-- `addr` stands for the pointer: two records of one array are the same kernel if it is the same.
pub record Kernel : Type 0 where
  pub addr : ℕ
  pub meta : Meta
  pub source : Source
  pub target : Target

-- `SystemKernel`: the kernel that is running.
pub record SystemKernel : Type 0 where
  pub version : Bytes
  pub ktype : Bytes
  pub release : ℤ
