-- ===== src/Cli/Config.antt =====
-- cli/ops/timeout.c and cli/ops/console_mode.c: the commands that set and print a value.
pub mod Checks
use clr_boot_manager.Prelude.{
  ℕ, Bool, true, false, not, ◌&&◌, ◌||◌, ◌==◌, Option, none, some, List, [], ◌∷◌, ◌++◌, Bytes,
  if◌then◌else◌, codes, streq, length,
}
use clr_boot_manager.Int.{ℤ, pos, negsuc, ltb_ℤ, to_int32, to_long}
use clr_boot_manager.Libc.{isdigit, skip_space, scan_int, show_ℤ}
use clr_boot_manager.Kernel.{SystemKernel}
use clr_boot_manager.Kernel.Name.{KernelName, parse_system_kernel, show_uname}
use clr_boot_manager.Platform.{Platform, World, M}
use clr_boot_manager.Monad.{pure, ◌>>=◌, ◌>>◌, and_then, asks, call}
use clr_boot_manager.BootMan.Config.{
  set_timeout_value, get_timeout_value, set_console_mode, get_console_mode,
}
use clr_boot_manager.BootMan.Prefix.{set_prefix}
use clr_boot_manager.Cli.{CliArgs, Process, Reply, failed, default_args_init, with_manager}
use clr_boot_manager.Cli.Update.{with_args, update_do}
use clr_boot_manager.Cli.Kernels.{one_operand}

unfoldable pub all_digits : Bytes → Bool
all_digits [] = true
all_digits (c ∷ s) = isdigit c && all_digits s

-- `is_numeric`: digits, behind a sign or not; no digit is needed.
unfoldable pub is_numeric : Bytes → Bool
unfolding all_digits
is_numeric [] = true
is_numeric (c ∷ s) = (isdigit c || c == b'-') && all_digits s

-- `n_val` starts as -1, and stays so where `sscanf` finds no number; a number is cut to
-- the `int` that it is stored in.
unfoldable pub number_or_unset : Option ℤ → ℤ
number_or_unset none = negsuc 0
number_or_unset (some z) = to_int32 (to_long z)

unfoldable pub in_range : ℤ → Option ℤ
in_range n_val = if ltb_ℤ n_val (negsuc 0) then none else some n_val

-- The checks of set-timeout on its operand. `sscanf` tells the end of the text only where there is
-- nothing but white space.
unfoldable pub timeout_of_operand : Bytes → Option ℤ
unfolding is_numeric number_or_unset in_range
timeout_of_operand operand =
    if length (skip_space operand) == 0
    then none
    else if not (is_numeric operand)
    then none
    else in_range (number_or_unset (scan_int operand))

-- `is_console_mode`
unfoldable pub is_console_mode : Bytes → Bool
is_console_mode s =
    streq s []
    || streq s (codes "0")
    || streq s (codes "1")
    || streq s (codes "2")
    || streq s (codes "auto")
    || streq s (codes "max")
    || streq s (codes "keep")

-- The checks of set-console-mode on its operand; an empty one is NULL and removes the mode.
unfoldable pub mode_of_operand : Bytes → Option (Option Bytes)
unfolding is_console_mode
mode_of_operand operand =
    if not (is_console_mode operand)
    then none
    else if streq operand []
    then some none
    else some (some operand)

-- A value that the one operand has by a check.
unfoldable pub value_of_operand : {A : Type 0} → (Bytes → Option A) → Option Bytes → Option A
value_of_operand check none = none
value_of_operand check (some operand) = check operand

module _ (P : Platform) where
  -- The root of the arguments, or "/", not as an image.
  unfoldable pub select_plain : Option Bytes → M P.host.State Bool
  select_plain none = set_prefix P (codes "/")
  select_plain (some root) = set_prefix P root

  -- The value is set, a line says so, and the system is updated.
  unfoldable pub set_and_update :
      {A : Type 0}
      → (A → M P.host.State Bool)
      → (A → Bytes)
      → Option Bytes
      → Option A
      → M P.host.State Reply
  set_and_update set_value line root none = pure failed
  set_and_update set_value line root (some value) = do
    done ← set_value value
    (if done
        then (do ok ← update_do P root false; pure (record { ok = ok; out = line value ∷ [] }))
        else pure failed)

  -- A prefix that was set, or the end of the command.
  unfoldable pub when_selected : M P.host.State Reply → Bool → M P.host.State Reply
  when_selected body false = pure failed
  when_selected body true = body

  unfoldable pub timeout_set_line : ℤ → Bytes
  timeout_set_line n_val =
      if ltb_ℤ (pos 0) n_val
      then codes "New timeout value is: " ++ show_ℤ n_val
      else codes "Timeout has been removed"

  unfoldable pub timeout_line : ℤ → Bytes
  timeout_line tval =
      if ltb_ℤ (pos 0) tval
      then codes "Timeout value: " ++ (show_ℤ tval ++ codes " seconds")
      else codes "No timeout is currently configured"

  unfoldable pub mode_set_line : Option Bytes → Bytes
  mode_set_line none = codes "Console mode has been removed"
  mode_set_line (some mode) = codes "New console mode is: " ++ mode

  unfoldable pub mode_line : Option Bytes → Bytes
  mode_line none = codes "No console mode is currently configured"
  mode_line (some mode) = codes "Console mode: " ++ mode

  -- The line of a command that takes no operand.
  unfoldable pub print_line : (World P.host.State → Bytes) → List Bytes → M P.host.State Reply
  print_line line [] = asks (λ w. record { ok = true; out = line w ∷ [] })
  print_line line (_ ∷ _) = pure failed

  module _ (process : Process P.host.State) where
    unfoldable pub command_set :
        {A : Type 0}
        → (Bytes → Option A)
        → (A → M P.host.State Bool)
        → (A → Bytes)
        → List Bytes
        → P.host.State
        → Reply × P.host.State
    unfolding value_of_operand one_operand select_plain when_selected set_and_update
    command_set check set_value line argv s =
        with_args P process (default_args_init P process false false argv s)
          (λ args. with_manager P process args.update_efi_vars (
            select_plain args.root
            >>= when_selected (
                set_and_update set_value line args.root
                  (value_of_operand check (one_operand args.operands)))))
          s

    -- `cbm_command_set_timeout`
    unfoldable pub command_set_timeout : List Bytes → P.host.State → Reply × P.host.State
    unfolding command_set timeout_of_operand timeout_set_line
    command_set_timeout = command_set timeout_of_operand (set_timeout_value P) timeout_set_line

    -- `cbm_command_set_console_mode`
    unfoldable pub command_set_console_mode : List Bytes → P.host.State → Reply × P.host.State
    unfolding command_set mode_of_operand mode_set_line
    command_set_console_mode = command_set mode_of_operand (set_console_mode P) mode_set_line

    -- What the commands that print a value go on with where the options are not known: no root, and
    -- a number of arguments that is not 0.
    unfoldable pub args_or_unparsed : Option CliArgs → CliArgs
    args_or_unparsed (some args) = args
    args_or_unparsed none = record {
      root = none;
      forced_image = false;
      update_efi_vars = false;
      operands = [] ∷ [];
    }

    unfoldable pub command_print :
        (World P.host.State → Bytes) → List Bytes → P.host.State → Reply × P.host.State
    unfolding args_or_unparsed select_plain when_selected print_line
    command_print line argv s =
        let args = args_or_unparsed (default_args_init P process false false argv s) in
        with_manager P process args.update_efi_vars
          (select_plain args.root >>= when_selected (print_line line args.operands)) s

    -- `cbm_command_get_timeout`
    unfoldable pub command_get_timeout : List Bytes → P.host.State → Reply × P.host.State
    unfolding command_print timeout_line
    command_get_timeout = command_print (λ w. timeout_line (get_timeout_value P w))

    -- `cbm_command_get_console_mode`
    unfoldable pub command_get_console_mode : List Bytes → P.host.State → Reply × P.host.State
    unfolding command_print mode_line
    command_get_console_mode = command_print (λ w. mode_line (get_console_mode P w))
