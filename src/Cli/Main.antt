-- ===== src/Cli/Main.antt =====
-- cli/main.c: the commands by their names, and the exit status.
pub mod Root
use clr_boot_manager.Prelude.{
  ℕ, Bool, true, false, not, ◌&&◌, ◌||◌, ◌==◌, Option, none, some, List, [], ◌∷◌, Bytes,
  if◌then◌else◌, codes, streq, is_some,
}
use clr_boot_manager.Platform.{Platform}
use clr_boot_manager.Cli.{Process, Reply}
use clr_boot_manager.Cli.Update.{command_update, command_mount_boot}
use clr_boot_manager.Cli.Kernels.{command_list_kernels, command_set_kernel, command_remove_kernel}
use clr_boot_manager.Cli.Config.{
  command_set_timeout, command_get_timeout, command_set_console_mode, command_get_console_mode,
}
use clr_boot_manager.Cli.Booted.{command_report_booted}

-- `SubCommand`, but for its texts
pub record SubCommand (S : Type 0) : Type 0 where
  pub name : Bytes
  pub callback : List Bytes → S → Reply × S
  pub requires_root : Bool

-- The command with the name.
unfoldable pub find_command : {S : Type 0} → Bytes → List (SubCommand S) → Option (SubCommand S)
find_command name [] = none
find_command name (c ∷ cs) = if streq c.name name then some c else find_command name cs

-- EXIT_SUCCESS and EXIT_FAILURE
abbrev pub exit_success : ℕ
exit_success = 0

abbrev pub exit_failure : ℕ
exit_failure = 1

-- The name of the command that an argument asks for.
unfoldable pub command_name : Bytes → Bytes
command_name arg =
    if streq arg (codes "-h") || streq arg (codes "--help")
    then codes "help"
    else if streq arg (codes "-v") || streq arg (codes "--version")
    then codes "version"
    else arg

-- `-h` and `--help` set `explicit_help`.
unfoldable pub is_explicit_help : Bytes → Bool
is_explicit_help arg = streq arg (codes "-h") || streq arg (codes "--help")

module _ (P : Platform) (process : Process P.host.State) where
  -- The commands that need to be root.
  unfoldable pub root_commands : List (SubCommand P.host.State)
  root_commands =
      record { name = codes "update"; callback = command_update P process; requires_root = true }
      ∷ record {
        name = codes "set-timeout";
        callback = command_set_timeout P process;
        requires_root = true;
      }
      ∷ record {
        name = codes "get-timeout";
        callback = command_get_timeout P process;
        requires_root = true;
      }
      ∷ record {
        name = codes "set-console-mode";
        callback = command_set_console_mode P process;
        requires_root = true;
      }
      ∷ record {
        name = codes "get-console-mode";
        callback = command_get_console_mode P process;
        requires_root = true;
      }
      ∷ record {
        name = codes "report-booted";
        callback = command_report_booted P process;
        requires_root = true;
      }
      ∷ record {
        name = codes "list-kernels";
        callback = command_list_kernels P process;
        requires_root = true;
      }
      ∷ record {
        name = codes "set-kernel";
        callback = command_set_kernel P process;
        requires_root = true;
      }
      ∷ record {
        name = codes "remove-kernel";
        callback = command_remove_kernel P process;
        requires_root = true;
      }
      ∷ record {
        name = codes "mount-boot";
        callback = command_mount_boot P process;
        requires_root = true;
      }
      ∷ []

  -- The names of all commands.
  known_name : Bytes → Bool
  unfolding find_command root_commands
  known_name name =
      is_some (find_command name root_commands)
      || streq name (codes "version")
      || streq name (codes "help")

  -- `print_usage`, whose texts are left out: it fails for a topic that is not known.
  unfoldable pub print_usage : Bool → List Bytes → P.host.State → Reply × P.host.State
  unfolding known_name
  print_usage explicit_help [] s = (record { ok = true; out = [] }, s)
  print_usage explicit_help (topic ∷ _) s =
      (record { ok = explicit_help || known_name topic; out = [] }, s)

  -- `print_version`, whose text is left out
  unfoldable pub print_version : List Bytes → P.host.State → Reply × P.host.State
  print_version argv s = (record { ok = true; out = [] }, s)

  unfoldable pub commands : Bool → List (SubCommand P.host.State)
  unfolding root_commands print_usage print_version
  commands explicit_help =
      record { name = codes "version"; callback = print_version; requires_root = false }
      ∷ record { name = codes "help"; callback = print_usage explicit_help; requires_root = false }
      ∷ root_commands

  -- The exit status, and the lines of the command. Without the rights of root `main` returns `false`,
  -- which is EXIT_SUCCESS.
  unfoldable pub run_command :
      Option (SubCommand P.host.State) → List Bytes → P.host.State → (ℕ × List Bytes) × P.host.State
  run_command none argv s = ((exit_failure, []), s)
  run_command (some c) argv s =
      if c.requires_root && not (process.geteuid s == 0)
      then ((exit_success, []), s)
      else (let r = c.callback argv s in
          ((if r.0.ok then exit_success else exit_failure, r.0.out), r.1))

  -- `main`, on the arguments behind the name of the program
  unfoldable pub main : List Bytes → P.host.State → (ℕ × List Bytes) × P.host.State
  unfolding run_command commands find_command command_name is_explicit_help
  main [] s = ((exit_failure, []), s)
  main (arg ∷ argv) s =
      run_command (find_command (command_name arg) (commands (is_explicit_help arg))) argv s
