-- ===== src/BootMan.antt =====
-- bootman/bootman.c
pub mod BootDir
pub mod Mount
pub mod Loader
pub mod Kernels
pub mod Freestanding
pub mod Config
pub mod Prefix
pub mod SetUp
