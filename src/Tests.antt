-- ===== src/Tests.antt =====
-- Runs of the program on concrete data, and the theorems at that data.
mod TextMap
mod Machine
mod Updates
mod Texts
mod Boot
mod Store
mod Disk
mod Loaders
mod Menus
mod Session
mod Shim
mod Uname
mod Variables
mod Commands
mod Probes
