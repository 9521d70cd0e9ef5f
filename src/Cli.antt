-- ===== src/Cli.antt =====
-- cli/cli.c: the options that the commands share, and the manager that a command works on.
pub mod Update
pub mod Kernels
pub mod Config
pub mod Booted
pub mod Main
use clr_boot_manager.Prelude.{
  ℕ, Bool, true, false, ◌||◌, Option, none, some, List, [], ◌∷◌, ◌++◌, Bytes, if◌then◌else◌, codes,
  starts_with,
}
use clr_boot_manager.Int.{pos}
use clr_boot_manager.Libc.{lines}
use clr_boot_manager.Kernel.Inspect.{◌//◌}
use clr_boot_manager.Platform.{Platform, BootManager, World, M}
use clr_boot_manager.Monad.{pure, ◌>>=◌, ◌>>◌}
use clr_boot_manager.BootMan.SetUp.{set_uname, set_image_mode, set_update_efi_vars, free}

-- What `getopt_long` returns for an option of `cli_opts`; `unknown` is '?'.
pub data CliOption : Type 0 where
  path : Bytes → CliOption
  image no_efi_update unknown : CliOption

-- What the tool asks of its process. `getopt_long` gives the options in their order, and the
-- arguments that are none.
pub record Process (S : Type 0) : Type 0 where
  pub geteuid : S → ℕ
  -- the release that `uname` tells
  pub uname : S → Option Bytes
  pub getopt_long : List Bytes → List CliOption × List Bytes

-- What `cli_default_args_init` leaves in the variables of a command; `operands` are the arguments
-- from `argv[optind]` on.
pub record CliArgs : Type 0 where
  pub root : Option Bytes
  pub forced_image : Bool
  pub update_efi_vars : Bool
  pub operands : List Bytes

-- The loop over the options; none at one that is not known. `takes_image` says whether the command
-- passes a variable for the image mode.
unfoldable pub take_options : Bool → List CliOption → CliArgs → Option CliArgs
take_options takes_image [] args = some args
take_options takes_image (path root ∷ rest) args =
    take_options takes_image rest (record args { root = some root })
take_options takes_image (image ∷ rest) args =
    take_options takes_image rest (record args { forced_image = takes_image })
take_options takes_image (no_efi_update ∷ rest) args =
    take_options takes_image rest (record args { update_efi_vars = false })
take_options takes_image (unknown ∷ rest) args = none

-- A line of the file update_efi_vars says no.
unfoldable pub says_no : List Bytes → Bool
says_no [] = false
says_no (line ∷ rest) =
    starts_with (codes "no") line || starts_with (codes "false") line || says_no rest

unfoldable pub root_or_empty : Option Bytes → Bytes
root_or_empty none = []
root_or_empty (some root) = root

-- The lines that a command prints to its standard output, and whether it succeeded.
pub record Reply : Type 0 where
  pub ok : Bool
  pub out : List Bytes

abbrev pub failed : Reply
failed = record { ok = false; out = [] }

module _ (P : Platform) (process : Process P.host.State) where
  -- What the file says, if there is one that can be read.
  unfoldable pub read_efi_choice : P.host.State → CliArgs → Option CliArgs
  unfolding says_no root_or_empty
  read_efi_choice s args =
      let cfg_path =
        (root_or_empty args.root // P.config.kernel_conf_directory) // codes "update_efi_vars" in
      if P.host.file_exists s cfg_path
      then elim (P.host.read s cfg_path) [
        | none ↦ none
        | some text ↦
            some (if says_no (lines text) then record args { update_efi_vars = false } else args)
      ]
      else some args

  efi_choice : P.host.State → Option CliArgs → Option CliArgs
  unfolding read_efi_choice
  efi_choice s none = none
  efi_choice s (some args) = if args.update_efi_vars then read_efi_choice s args else some args

  -- `cli_default_args_init`, from the initial `update_efi_vars` of the command
  unfoldable pub default_args_init : Bool → Bool → List Bytes → P.host.State → Option CliArgs
  unfolding take_options efi_choice
  default_args_init takes_image update_efi_vars argv s =
      let parsed = process.getopt_long argv in
      efi_choice s (
        take_options takes_image parsed.0 (record {
          root = none;
          forced_image = false;
          update_efi_vars = update_efi_vars;
          operands = parsed.1;
        }))

  -- What `calloc` leaves of a manager. Its system configuration is NULL, and nothing reads it before
  -- the prefix is set.
  unfoldable pub blank_manager : BootManager
  blank_manager = record {
    kernel_dir = [];
    bootloader = none;
    abs_bootdir = none;
    sys_kernel = record { version = []; ktype = []; release = pos 0 };
    have_sys_kernel = false;
    os_release = [];
    vconsole = [];
    image_mode = false;
    update_efi_vars = false;
    sysconfig = record {
      prefix = [];
      root_device = none;
      boot_device = none;
      wanted_boot_mask = 0;
    };
    cmdline = none;
    initrd_freestanding_dir = [];
    user_initrd_freestanding_dir = [];
    initrd_freestanding = [];
    ucode_initrd = none;
  }

  -- `boot_manager_new`
  unfoldable pub boot_manager_new : P.host.State → World P.host.State
  unfolding blank_manager
  boot_manager_new s =
      ((set_uname P (process.uname s) >> set_image_mode P false)
        (record { manager = blank_manager; host = s })).1

  -- A command on a manager of its own, which is freed at every return.
  unfoldable pub with_manager : Bool → M P.host.State Reply → P.host.State → Reply × P.host.State
  unfolding boot_manager_new
  with_manager update_efi_vars body s =
      let r =
        (set_update_efi_vars P update_efi_vars >> body >>= λ reply. free P >> pure reply)
          (boot_manager_new s) in
      (r.0, r.1.host)
