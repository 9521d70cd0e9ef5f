-- ===== src/BootLoaders/Syslinux/Config.antt =====
-- bootloaders/syslinux-common.c: the configuration file.
pub mod RoundTrip
use clr_boot_manager.Prelude.{
  ℕ, zero, suc, Bool, true, false, ◌&&◌, Option, none, some, List, [], ◌∷◌, ◌++◌, Bytes,
  if◌then◌else◌, codes, streq, length, drop,
}
use clr_boot_manager.Int.{ℤ, pos, ltb_ℤ, eqb_ℤ}
use clr_boot_manager.Libc.{memmem, lines, show_ℤ}
use clr_boot_manager.Writer.{CbmWriter, writer_open, writer_close, append_all, writer_text}
use clr_boot_manager.Kernel.{Kernel}
use clr_boot_manager.Kernel.Inspect.{◌//◌, c_string}
use clr_boot_manager.Kernel.Paths.{path_or_null}
use clr_boot_manager.Platform.{Platform, CbmDeviceProbe, BootManager, World, M}
use clr_boot_manager.Monad.{pure, ◌>>=◌, ◌>>◌, and_then, asks}
use clr_boot_manager.Files.{cbm_sync}
use clr_boot_manager.Files.Devices.{file_has_content}
use clr_boot_manager.Files.Text.{file_holds, file_set_text}
use clr_boot_manager.BootMan.Config.{get_timeout_value}
use clr_boot_manager.BootMan.Prefix.{get_vconsole}
use clr_boot_manager.BootLoaders.SdClass.Entry.{optional, key_option, other_initrds}
use clr_boot_manager.BootLoaders.Syslinux.{SyslinuxContext}

-- The test that marks a queued kernel as the default: same type, version and release.
unfoldable pub is_default : Option Kernel → Kernel → Bool
is_default none k = false
is_default (some d) k =
    streq k.meta.ktype d.meta.ktype
    && streq k.meta.version d.meta.version
    && eqb_ℤ k.meta.release d.meta.release

-- "KEYWORD %s\n"
unfoldable pub word_line : Bytes → Bytes → Bytes
word_line keyword value = keyword ++ (b' ' ∷ (value ++ (b'\n' ∷ [])))

-- Each name behind a comma.
unfoldable pub comma_names : List Bytes → Bytes
comma_names [] = []
comma_names (name ∷ names) = b',' ∷ (name ++ comma_names names)

-- The line of the initrds, without the first comma; no line for no initrds.
unfoldable pub initrd_line : Bytes → List Bytes
unfolding word_line
initrd_line [] = []
initrd_line (_ ∷ names) = word_line (codes "  INITRD") names ∷ []

-- The root device as an option of the kernel
unfoldable pub root_uuid : CbmDeviceProbe → Bytes
unfolding path_or_null
root_uuid dev = elim dev.part_uuid [
  | some part_uuid ↦ codes "root=PARTUUID=" ++ (part_uuid ++ codes " ")
  | none ↦ codes "root=UUID=" ++ (path_or_null dev.uuid ++ codes " ")
]

-- A name that may be absent
unfoldable pub name_list : Option Bytes → List Bytes
name_list none = []
name_list (some name) = name ∷ []

-- The timeout, in the unit of the configuration.
unfoldable pub timeout_pieces : Option Kernel → ℤ → List Bytes
unfolding word_line
timeout_pieces none timeout = codes "TIMEOUT 100\n" ∷ []
timeout_pieces (some _) timeout =
    if ltb_ℤ (pos 0) timeout then word_line (codes "TIMEOUT") (show_ℤ timeout) ∷ [] else []

-- What is behind the text that was found, or what is found later.
unfoldable pub found_or : Option Bytes → Option (Bytes × Bytes) → Option Bytes
found_or later none = later
found_or later (some (_, result)) = some result

-- The first line with "DEFAULT " in it gives what is behind that.
unfoldable pub find_default : List Bytes → Option Bytes
unfolding memmem c_string found_or
find_default [] = none
find_default (line ∷ rest) =
    let later = find_default rest in found_or later (memmem (c_string line) (codes "DEFAULT "))

-- A configuration that cannot be opened names no default.
unfoldable pub default_in : Option Bytes → Option Bytes
unfolding find_default lines
default_in none = none
default_in (some content) = find_default (lines content)

-- The line of the default kernel
unfoldable pub default_pieces : Option Kernel → Kernel → List Bytes
unfolding is_default word_line
default_pieces default_kernel k =
    if is_default default_kernel k
    then word_line (codes "DEFAULT") k.target.legacy_path ∷ []
    else []

module _ (P : Platform) where
  -- The initrds of a kernel, in the order in which they are written.
  unfoldable pub initrd_names : Kernel → BootManager → List Bytes
  unfolding name_list other_initrds
  initrd_names k m =
      let it = P.initrd_order m.initrd_freestanding in
      name_list m.ucode_initrd
      ++ (name_list k.target.initrd_path ++ other_initrds (suc (length it)) m.ucode_initrd it)

  -- The options of a kernel, up to its own command line.
  unfoldable pub append_pieces : CbmDeviceProbe → BootManager → List Bytes
  unfolding root_uuid optional key_option
  append_pieces dev m =
      codes "APPEND "
      ∷ root_uuid dev
      ∷ (optional (key_option (codes "rd.luks.uuid")) dev.luks_uuid
          ++ (optional (key_option (codes "rootflags=subvol")) dev.btrfs_sub
              ++ (optional (key_option (codes "rd.vconsole.keymap"))
                    (get_vconsole P m (codes "KEYMAP"))
                  ++ optional (key_option (codes "rd.vconsole.font"))
                      (get_vconsole P m (codes "FONT")))))

  -- What is written for one kernel of the queue.
  unfoldable pub kernel_pieces : Option Kernel → CbmDeviceProbe → BootManager → Kernel → List Bytes
  unfolding default_pieces word_line initrd_line comma_names initrd_names append_pieces
  kernel_pieces default_kernel dev m k =
      default_pieces default_kernel k
      ++ (word_line (codes "LABEL") k.target.legacy_path
          ∷ word_line (codes "  KERNEL") k.target.legacy_path
          ∷ (initrd_line (comma_names (initrd_names k m))
              ++ (append_pieces dev m ++ ((k.meta.cmdline ++ (b'\n' ∷ [])) ∷ []))))

  -- The loop over the queue.
  unfoldable pub queue_pieces :
      Option Kernel → CbmDeviceProbe → BootManager → List Kernel → List Bytes
  unfolding kernel_pieces
  queue_pieces default_kernel dev m [] = []
  queue_pieces default_kernel dev m (k ∷ ks) =
      kernel_pieces default_kernel dev m k ++ queue_pieces default_kernel dev m ks

  -- The writer behind its close.
  unfoldable pub write_config :
      Option Kernel → CbmDeviceProbe → List Kernel → World P.host.State → CbmWriter
  unfolding timeout_pieces queue_pieces writer_open writer_close append_all
  write_config default_kernel dev queue w =
      let start = (writer_open (record { buffer = none; memstream = false; error = 0 })).1 in
      writer_close (
        append_all start (
          timeout_pieces default_kernel (get_timeout_value P w)
          ++ queue_pieces default_kernel dev w.manager queue))

  unfoldable pub config_text :
      Option Kernel → CbmDeviceProbe → List Kernel → World P.host.State → Bytes
  unfolding write_config
  config_text default_kernel dev queue w = writer_text (write_config default_kernel dev queue w)

  module _ (ctx : SyslinuxContext) where
    -- "%s/syslinux.cfg"
    abbrev pub config_path : Bytes
    config_path = ctx.base_path // codes "syslinux.cfg"

    -- The file holds the text, and something at all.
    unfoldable pub config_current : Bytes → World P.host.State → Bool
    unfolding file_has_content file_holds
    config_current text w =
        file_has_content P.host w.host config_path && file_holds P.host config_path text w

    unfoldable pub set_for_device : Option Kernel → Option CbmDeviceProbe → M P.host.State Bool
    set_for_device default_kernel none = pure false
    set_for_device default_kernel (some dev) = do
      text ← asks (config_text default_kernel dev ctx.kernel_queue)
      same ← asks (config_current text)
      if same
          then pure true
          else and_then (file_set_text P.host config_path text) (cbm_sync P.host >> pure true)

    -- `syslinux_common_set_default_kernel`
    unfoldable pub set_default_kernel : Option Kernel → M P.host.State Bool
    unfolding set_for_device
    set_default_kernel default_kernel = do
      root_dev ← asks (λ w. w.manager.sysconfig.root_device)
      set_for_device default_kernel root_dev

    -- `syslinux_common_get_default_kernel`
    unfoldable pub get_default_kernel : M P.host.State (Option Bytes)
    unfolding default_in
    get_default_kernel = asks (λ w. default_in (P.host.read w.host config_path))
