-- ===== src/BootLoaders/SdClass/Entry.antt =====
-- bootloaders/systemd-class.c: the entry of a kernel in the boot menu.
pub mod Text
use clr_boot_manager.Prelude.{
  ℕ, zero, suc, Bool, true, false, Option, none, some, List, [], ◌∷◌, ◌++◌, Bytes, map, length,
  if◌then◌else◌, codes, streq,
}
use clr_boot_manager.Libc.{basename}
use clr_boot_manager.Kernel.{Kernel}
use clr_boot_manager.Kernel.Inspect.{◌//◌}
use clr_boot_manager.Kernel.Paths.{path_or_null}
use clr_boot_manager.Writer.{CbmWriter, writer_open, writer_close, append_all, writer_text}
use clr_boot_manager.Platform.{
  Platform, CbmDeviceProbe, BootManager, InitrdEntry, GlobResult, no_match, matches, failed, World,
  M,
}
use clr_boot_manager.Monad.{pure, ◌>>=◌, ◌>>◌, and_then, asks, call}
use clr_boot_manager.Files.{cbm_sync}
use clr_boot_manager.Files.Text.{unlink_if_there, write_if_changed}
use clr_boot_manager.BootMan.Freestanding.{next_initrd}
use clr_boot_manager.BootMan.Prefix.{get_os_name, get_vconsole}
use clr_boot_manager.BootLoaders.SdClass.{SdClassConfig, get_entry_path_for_kernel}

-- "%s %s/%s\n" of a keyword, the directory of the kernels and a name
unfoldable pub file_line : Bytes → Bytes → Bytes → Bytes
file_line keyword destination name = keyword ++ (b' ' ∷ ((destination // name) ++ (b'\n' ∷ [])))

-- The piece of text for a value that may be NULL.
unfoldable pub optional : (Bytes → Bytes) → Option Bytes → List Bytes
optional f none = []
optional f (some x) = f x ∷ []

-- `streq(a, b)` of libnica, where the second may be NULL
unfoldable pub streq_option : Bytes → Option Bytes → Bool
streq_option a none = false
streq_option a (some b) = streq a b

-- The paths that `glob` found.
unfoldable pub glob_found : GlobResult → List Bytes
glob_found no_match = []
glob_found failed = []
glob_found (matches paths) = paths

-- The loop over `boot_manager_initrd_iterator_next`, which goes past the microcode.
unfoldable pub other_initrds : ℕ → Option Bytes → List (Bytes × InitrdEntry) → List Bytes
unfolding next_initrd streq_option
other_initrds zero ucode it = []
other_initrds (suc fuel) ucode it = elim (next_initrd it) [
  | none ↦ []
  | some (name, rest) ↦
      let more = other_initrds fuel ucode rest in
      if streq_option name ucode then more else name ∷ more
]

-- The start of the options: the root device.
unfoldable pub root_option : CbmDeviceProbe → Bytes
unfolding path_or_null
root_option dev = elim dev.part_uuid [
  | some part_uuid ↦ codes "options root=PARTUUID=" ++ (part_uuid ++ codes " ")
  | none ↦ codes "options root=UUID=" ++ (path_or_null dev.uuid ++ codes " ")
]

-- "KEY=%s "
unfoldable pub key_option : Bytes → Bytes → Bytes
key_option key value = key ++ (b'=' ∷ (value ++ codes " "))

module _ (P : Platform) where
  -- What `_append_extra_initrds` returns, and the names that it appends.
  unfoldable pub append_extra_initrds : P.host.State → Option Bytes → Bool × List Bytes
  unfolding glob_found path_or_null basename
  append_extra_initrds s initrd_target =
      let res = P.host.glob s (path_or_null initrd_target ++ codes ".*") in
      (
        elim res [ no_match ↦ true | matches _ ↦ false | failed ↦ false ],
        map basename (glob_found res),
      )

  module _ (destination : Bytes) where
    -- The lines up to the options, each the text of one call of the writer.
    unfoldable pub file_lines : Kernel → World P.host.State → List Bytes
    unfolding file_line optional append_extra_initrds other_initrds
    file_lines k w =
        let initrd = file_line (codes "initrd") destination in
        let ucode = w.manager.ucode_initrd in
        let it = P.initrd_order w.manager.initrd_freestanding in
        (codes "title " ++ (get_os_name P w.manager ++ (b'\n' ∷ [])))
        ∷ file_line (codes "linux") destination k.target.path
        ∷ (optional initrd ucode
            ++ (optional initrd k.target.initrd_path
                ++ (map initrd (append_extra_initrds w.host k.source.initrd_file).1
                    ++ map initrd (other_initrds (suc (length it)) ucode it))))

    -- The pieces of the line of options.
    unfoldable pub option_pieces : Kernel → CbmDeviceProbe → BootManager → List Bytes
    unfolding root_option key_option optional
    option_pieces k dev m =
        root_option dev
        ∷ (optional (key_option (codes "rd.luks.uuid")) dev.luks_uuid
            ++ (optional (key_option (codes "rootflags=subvol")) dev.btrfs_sub
                ++ (optional (key_option (codes "rd.vconsole.keymap"))
                      (get_vconsole P m (codes "KEYMAP"))
                    ++ (optional (key_option (codes "rd.vconsole.font"))
                          (get_vconsole P m (codes "FONT"))
                        ++ ((k.meta.cmdline ++ (b'\n' ∷ [])) ∷ [])))))

    -- The writer behind its close.
    unfoldable pub write_entry : Kernel → CbmDeviceProbe → World P.host.State → CbmWriter
    unfolding file_lines option_pieces writer_open writer_close append_all
    write_entry k dev w =
        let start = (writer_open (record { buffer = none; memstream = false; error = 0 })).1 in
        writer_close (append_all start (file_lines k w ++ option_pieces k dev w.manager))

    module _ (c : SdClassConfig) where
      unfoldable pub install_entry : Kernel → Option CbmDeviceProbe → M P.host.State Bool
      install_entry k none = pure false
      install_entry k (some dev) = do
        path ← asks (get_entry_path_for_kernel P c k)
        text ← asks (λ w. writer_text (write_entry k dev w))
        write_if_changed P.host path text

      -- `sd_class_install_kernel`
      unfoldable pub install_kernel : Kernel → M P.host.State Bool
      unfolding install_entry
      install_kernel k = do
        root_dev ← asks (λ w. w.manager.sysconfig.root_device)
        install_entry k root_dev

  -- A failed removal is only logged; after one that succeeds the file systems are synced.
  unfoldable pub unlink_and_sync : Bytes → M P.host.State (Unit {0})
  unlink_and_sync path = do
    gone ← call (P.host.unlink path)
    if gone then cbm_sync P.host else pure tt

  -- `sd_class_remove_kernel`
  unfoldable pub remove_kernel : SdClassConfig → Kernel → M P.host.State Bool
  unfolding unlink_and_sync
  remove_kernel c k = do
    path ← asks (get_entry_path_for_kernel P c k)
    there ← asks (λ w. P.host.file_exists w.host path)
    (if there then unlink_and_sync path else pure tt) >> pure true
