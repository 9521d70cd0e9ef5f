-- ===== src/Tests/Menus.antt =====
-- The queue and the configuration of syslinux, and the menu of grub2.
use clr_boot_manager.Prelude.{
  ◌≡◌, refl, true, false, none, some, [], ◌∷◌, Bytes, codes, streq, All, ◌++◌, arith, starts_with,
}
use clr_boot_manager.Libc.{has_byte, lines, memmem}
use clr_boot_manager.Kernel.{Kernel}
use clr_boot_manager.BootLoaders.Syslinux.Config.{
  config_text, find_default, is_default, comma_names, initrd_names, name_list, append_pieces,
  root_uuid,
}
use clr_boot_manager.BootLoaders.SdClass.Entry.{other_initrds, optional, key_option}
use clr_boot_manager.BootMan.Freestanding.{next_initrd}
use clr_boot_manager.BootMan.Prefix.{get_vconsole}
use clr_boot_manager.Tests.TextMap.{get}
use clr_boot_manager.Kernel.Paths.{path_or_null}
use clr_boot_manager.Writer.Sticky.{concat}
use clr_boot_manager.BootLoaders.Syslinux.Config.RoundTrip.{
  IsPlain, kernel_lines, find_default-config_text,
}
use clr_boot_manager.BootLoaders.Grub2.{Grub2Config}
use clr_boot_manager.BootLoaders.Grub2.Entry.{write_kernel}
use clr_boot_manager.BootLoaders.Grub2.Menu.{
  others, is_the_default, config_pieces, in_submenu, config_pieces-in_submenu,
}
use clr_boot_manager.Tests.Disk.{platform_of_disk}
use clr_boot_manager.Tests.Machine.{manager, root_probe}
use clr_boot_manager.Tests.Loaders.{kernel, fresh}

kernel-IsPlain : All IsPlain (kernel_lines platform_of_disk root_probe (manager true) (kernel 10))
unfolding kernel_lines has_byte memmem comma_names initrd_names name_list append_pieces concat
    starts_with other_initrds next_initrd root_uuid optional key_option get_vconsole get
    path_or_null streq
kernel-IsPlain = (
  plain _ refl refl refl,
  (plain _ refl refl refl, (plain _ refl refl refl, (plain _ refl refl refl, tt))),
)
  where
    plain :
        (l : Bytes)
        → has_byte b'\n' l ≡ false
        → has_byte 0 l ≡ false
        → memmem l (codes "DEFAULT ") ≡ none
        → IsPlain l
    plain l a b c = record { no_newline = a; no_nul = b; no_default = c }

find_default-config_text_example :
    find_default
      (lines (config_text platform_of_disk (some (kernel 10)) root_probe (kernel 10 ∷ []) fresh))
    ≡ some (codes "org.clr.native.5.4-10")
unfolding is_default streq
find_default-config_text_example =
    find_default-config_text platform_of_disk root_probe fresh (kernel 10) (kernel 10 ∷ [])
      (kernel-IsPlain, tt)

abbrev other_kernel : Kernel
other_kernel = record (kernel 9) { addr = 1 }

abbrev grub2_config : Grub2Config
grub2_config = record {
  root_dev = root_probe;
  os_name = codes "Solus 4";
  os_id = codes "solus";
  vc_keymap = none;
  vc_font = none;
  is_separate = false;
  submenu = false;
}

config_pieces-in_submenu_example :
    config_pieces platform_of_disk
      (manager true)
      grub2_config
      (some (kernel 10))
      (kernel 10 ∷ other_kernel ∷ [])
    ≡ codes "#!/bin/bash\nset -e\n"
      ∷ codes ". \"/usr/share/grub/grub-mkconfig_lib\"\n"
      ∷ (write_kernel platform_of_disk grub2_config (manager true) (kernel 10)
          ++ in_submenu platform_of_disk
              (manager true)
              (record grub2_config { submenu = true })
              (other_kernel ∷ []))
unfolding others is_the_default
config_pieces-in_submenu_example =
    config_pieces-in_submenu platform_of_disk (manager true) grub2_config (kernel 10)
      (kernel 10 ∷ other_kernel ∷ []) (omega arith)
