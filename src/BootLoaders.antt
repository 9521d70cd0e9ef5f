-- ===== src/BootLoaders.antt =====
-- bootloaders: the boot loaders, which are instances of the vtable.
pub mod SdClass
pub mod Syslinux
pub mod Grub2
pub mod Shim
