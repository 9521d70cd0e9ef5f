-- ===== src/BootLoaders/Grub2/Entry.antt =====
-- bootloaders/grub2.c: the menu entry of a kernel.
use clr_boot_manager.Prelude.{none, some, List, [], ◌∷◌, ◌++◌, Bytes, if◌then◌else◌, codes}
use clr_boot_manager.Kernel.{Kernel}
use clr_boot_manager.Kernel.Inspect.{◌//◌}
use clr_boot_manager.Kernel.Paths.{path_or_null}
use clr_boot_manager.Platform.{Platform, BootManager}
use clr_boot_manager.BootLoaders.SdClass.Entry.{optional, key_option}
use clr_boot_manager.BootLoaders.Syslinux.Config.{initrd_names}
use clr_boot_manager.BootLoaders.Grub2.{Grub2Config, kernel_id}

-- GRUB2_10LINUX_CACHE
abbrev pub grub2_10linux_cache : Bytes
grub2_10linux_cache =
    codes "        if [[ \"${dirname}\" = \"/\" ]]; then\n"
    ++ (codes "                prep_root=\"$(prepare_grub_to_access_device ${GRUB_DEVICE})\"\n"
        ++ (codes "                printf '\t%s\\n' \"${prep_root}\"\n"
            ++ (codes "        else\n"
                ++ (codes
                      "                prep_root=\"$(prepare_grub_to_access_device ${GRUB_DEVICE_BOOT})\"\n"
                    ++ (codes "                printf '\t%s\\n' \"${prep_root}\"\n"
                        ++ codes "        fi\n")))))

-- The pieces of a text in a row, as one format writes them.
unfoldable pub format : List Bytes → Bytes
format [] = []
format (s ∷ rest) = s ++ format rest

-- Each name below a directory, behind a space.
unfoldable pub spaced_paths : Bytes → List Bytes → Bytes
spaced_paths dir [] = []
spaced_paths dir (name ∷ names) = b' ' ∷ ((dir // name) ++ spaced_paths dir names)

-- The two lines of the initrds, without the first space; none for no initrds.
unfoldable pub initrd_pieces : Bytes → Bytes → List Bytes
unfolding format
initrd_pieces tab [] = []
initrd_pieces tab (_ ∷ initrd_paths) =
    format (codes "echo \"" ∷ tab ∷ codes "echo 'Loading initial ramdisk'\"\n" ∷ [])
    ∷ format (codes "echo \"" ∷ tab ∷ codes "initrd " ∷ initrd_paths ∷ codes "\"\n" ∷ [])
    ∷ []

module _ (P : Platform) (config : Grub2Config) where
  unfoldable pub tab : Bytes
  tab = if config.submenu then codes "\t\t" else codes "\t"

  unfoldable pub root_tab : Bytes
  root_tab = if config.submenu then codes "\t" else []

  -- The boot directory, below the subvolume of the root file system if there is one.
  unfoldable pub boot_prefix : Bytes
  boot_prefix = elim config.root_dev.btrfs_sub [
    | some btrfs_sub ↦ b'/' ∷ (btrfs_sub // P.config.boot_directory)
    | none ↦ P.config.boot_directory
  ]

  -- The directory of the files as the boot loader sees it.
  unfoldable pub file_dir : Bytes
  unfolding boot_prefix
  file_dir = if config.is_separate then [] else boot_prefix

  -- The start of the entry, up to its opening brace.
  unfoldable pub open_pieces : Kernel → List Bytes
  unfolding format kernel_id root_tab
  open_pieces k =
      format (
        codes "echo \""
        ∷ root_tab
        ∷ codes "menuentry '"
        ∷ config.os_name
        ∷ codes " ("
        ∷ kernel_id k
        ∷ codes ")' --class "
        ∷ config.os_id
        ∷ codes " --class gnu-linux --class gnu --class os"
        ∷ [])
      ∷ format (
          codes " \\$menuentry_id_option '"
          ∷ config.os_id
          ∷ codes "-"
          ∷ kernel_id k
          ∷ codes "' {\"\n"
          ∷ [])
      ∷ []

  -- The modules that are loaded first.
  unfoldable pub module_pieces : Kernel → List Bytes
  unfolding format tab
  module_pieces k =
      format (tab ∷ codes "if [ \"x$GRUB_GFXPAYLOAD_LINUX\" = x ]; then\n" ∷ [])
      ∷ format (tab ∷ codes "\techo \"\tload_video\"\n" ∷ [])
      ∷ format (tab ∷ codes "fi\n" ∷ [])
      ∷ format (codes "echo \"" ∷ tab ∷ codes "insmod gzio\"\n" ∷ [])
      ∷ grub2_10linux_cache
      ∷ format (
          codes "echo \""
          ∷ tab
          ∷ codes "echo 'Loading "
          ∷ config.os_name
          ∷ codes " "
          ∷ k.meta.version
          ∷ codes " ...'\"\n"
          ∷ [])
      ∷ []

  -- The kernel and its options.
  unfoldable pub linux_pieces : Kernel → List Bytes
  unfolding format tab file_dir optional key_option path_or_null
  linux_pieces k =
      format (
        codes "echo \""
        ∷ tab
        ∷ codes "linux "
        ∷ (file_dir // k.target.legacy_path)
        ∷ codes " root=UUID="
        ∷ path_or_null config.root_dev.uuid
        ∷ codes " "
        ∷ [])
      ∷ (optional (key_option (codes "rd.luks.uuid")) config.root_dev.luks_uuid
          ++ (optional (key_option (codes "rootflags=subvol")) config.root_dev.btrfs_sub
              ++ (optional (key_option (codes "rd.vconsole.keymap")) config.vc_keymap
                  ++ (optional (key_option (codes "rd.vconsole.font")) config.vc_font
                      ++ ((k.meta.cmdline ++ codes "\"\n") ∷ [])))))

  -- `grub2_write_kernel`
  unfoldable pub write_kernel : BootManager → Kernel → List Bytes
  unfolding open_pieces module_pieces linux_pieces initrd_pieces spaced_paths initrd_names file_dir
      tab root_tab format
  write_kernel m k =
      open_pieces k
      ++ (module_pieces k
          ++ (linux_pieces k
              ++ (initrd_pieces tab (spaced_paths file_dir (initrd_names P k m))
                  ++ (format (codes "echo \"" ∷ root_tab ∷ codes "}\"\n\n" ∷ []) ∷ []))))
