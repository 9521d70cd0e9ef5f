-- ===== src/BootLoaders/Syslinux.antt =====
-- bootloaders/syslinux-common.c, syslinux.c and extlinux.c. Kernels are queued, and the configuration is
-- written as a whole when the default is set.
pub mod Config
pub mod Queue
pub mod Setup
pub mod Vtable
use clr_boot_manager.Prelude.{Option, List, Bytes}
use clr_boot_manager.Kernel.{Kernel}

-- `struct SyslinuxContext`
pub record SyslinuxContext : Type 0 where
  pub kernel_queue : List Kernel
  pub syslinux_cmd : Option Bytes
  pub sgdisk_cmd : Option Bytes
  pub base_path : Bytes
