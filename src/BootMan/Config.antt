-- ===== src/BootMan/Config.antt =====
-- bootman/config.c: the timeout and the console mode, each in a file of its own.
pub mod Timeout
use clr_boot_manager.Prelude.{
  Bool, true, false, Option, none, some, [], ◌∷◌, ◌++◌, Bytes, if◌then◌else◌, codes,
}
use clr_boot_manager.Int.{ℤ, pos, negsuc, ltb_ℤ}
use clr_boot_manager.Libc.{split_at, scan_int, show_ℤ}
use clr_boot_manager.Kernel.Inspect.{◌//◌, c_string}
use clr_boot_manager.Platform.{Platform, World, M}
use clr_boot_manager.Monad.{pure, ◌>>=◌, and_then, asks, call}

-- The first line without its end, up to a NUL; none if there is no line.
unfoldable pub first_line : Bytes → Option Bytes
first_line [] = none
first_line (c ∷ s) = some (c_string (split_at b'\n' (c ∷ s)).0)

-- `atoi`
unfoldable pub atoi : Bytes → ℤ
atoi s = elim (scan_int s) [ none ↦ pos 0 | some z ↦ z ]

-- What `boot_manager_get_timeout_value` makes of the value.
unfoldable pub timeout_of_value : Option Bytes → ℤ
timeout_of_value none = negsuc 0
timeout_of_value (some value) =
    let timeout = atoi value in if ltb_ℤ (pos 0) timeout then timeout else negsuc 0

module _ (P : Platform) where
  -- "PREFIX KERNEL_CONF_DIRECTORY/FILENAME"
  unfoldable pub sysconf_path : Bytes → World P.host.State → Bytes
  sysconf_path filename w =
      (w.manager.sysconfig.prefix ++ P.config.kernel_conf_directory) // filename

  -- Writes the contents and a newline, or removes the file.
  unfoldable pub write_contents : Bytes → Option Bytes → M P.host.State Bool
  write_contents path none = do
    there ← asks (λ w. P.host.file_exists w.host path)
    if there then call (P.host.unlink path) else pure true
  write_contents path (some contents) = call (P.host.write path (contents ++ (b'\n' ∷ [])))

  -- `write_sysconf_file`
  unfoldable pub write_sysconf_file : Bytes → Option Bytes → M P.host.State Bool
  write_sysconf_file filename contents = do
    dir ← asks (λ w. w.manager.sysconfig.prefix ++ P.config.kernel_conf_directory)
    and_then (call (P.host.mkdir_p dir))
        (asks (sysconf_path filename) >>= λ path. write_contents path contents)

  -- `boot_manager_set_timeout_value`
  unfoldable pub set_timeout_value : ℤ → M P.host.State Bool
  set_timeout_value timeout =
      write_sysconf_file (codes "timeout")
        (if ltb_ℤ (pos 0) timeout then some (show_ℤ timeout) else none)

  -- `boot_manager_set_console_mode`; no mode removes the file.
  unfoldable pub set_console_mode : Option Bytes → M P.host.State Bool
  set_console_mode mode = write_sysconf_file (codes "console_mode") mode

  -- `read_sysconf_value`
  unfoldable pub read_sysconf_value : Bytes → World P.host.State → Option Bytes
  unfolding first_line
  read_sysconf_value filename w =
      let path = sysconf_path filename w in
      if P.host.file_exists w.host path
      then elim (P.host.read w.host path) [ none ↦ none | some content ↦ first_line content ]
      else none

  -- `boot_manager_get_timeout_value`
  unfoldable pub get_timeout_value : World P.host.State → ℤ
  get_timeout_value w = timeout_of_value (read_sysconf_value (codes "timeout") w)

  -- `boot_manager_get_console_mode`
  unfoldable pub get_console_mode : World P.host.State → Option Bytes
  get_console_mode w = read_sysconf_value (codes "console_mode") w
