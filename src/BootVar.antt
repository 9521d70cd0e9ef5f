-- ===== src/BootVar.antt =====
-- lib/bootvar.c: the boot entries among the EFI variables.
pub mod Numbers
pub mod Names
pub mod EspData
pub mod Records
