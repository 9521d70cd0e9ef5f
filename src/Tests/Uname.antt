-- ===== src/Tests/Uname.antt =====
-- The kernel that runs, and the loaders that a build knows.
use clr_boot_manager.Prelude.{◌≡◌, refl, true, false, none, some, [], ◌∷◌, codes}
use clr_boot_manager.Platform.{World, shim_systemd, grub2, syslinux, extlinux}
use clr_boot_manager.Monad.{pure, modify, ◌>>◌}
use clr_boot_manager.Kernel.Name.{parse_system_kernel}
use clr_boot_manager.BootMan.SetUp.{bootman_known_loaders, set_uname}
use clr_boot_manager.Tests.Disk.{disk, platform_of_disk}
use clr_boot_manager.Tests.Machine.{manager}

abbrev empty_disk : World disk.State
empty_disk = record { manager = manager true; host = λ path. none }

known_name :
    (set_uname platform_of_disk
      (some (codes "5.4.1-10.native"))
      empty_disk).1.manager.sys_kernel.version
    ≡ codes "5.4.1"
unfolding set_uname parse_system_kernel modify pure ◌>>◌
known_name = refl

unknown_name :
    (set_uname platform_of_disk (some (codes "5.4.1")) empty_disk).1.manager.have_sys_kernel ≡ false
unfolding set_uname parse_system_kernel modify pure ◌>>◌
unknown_name = refl

-- systemd-boot is not known beside shim-systemd.
shim_first :
    bootman_known_loaders (record {
      have_shim_systemd_boot = true;
      have_systemd_boot = true;
      grub2_backend_enabled = true;
    })
    ≡ shim_systemd ∷ grub2 ∷ syslinux ∷ extlinux ∷ []
unfolding bootman_known_loaders
shim_first = refl
