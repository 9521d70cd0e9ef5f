-- ===== src/Cli/Kernels.antt =====
-- cli/ops/kernels.c: the commands that list the kernels, make one the default, and remove one.
pub mod Ids
use clr_boot_manager.Prelude.{
  Bool, true, false, Option, none, some, List, [], ◌∷◌, Bytes, if◌then◌else◌, codes,
}
use clr_boot_manager.Kernel.{Kernel}
use clr_boot_manager.Kernel.Name.{KernelName, parse_kernel_name}
use clr_boot_manager.Platform.{Platform, M}
use clr_boot_manager.Monad.{pure, ◌>>=◌, ◌>>◌, and_then}
use clr_boot_manager.BootMan.Kernels.{list_kernels, set_default_kernel, remove_kernel_wrapper}
use clr_boot_manager.Cli.{CliArgs, Process, Reply, failed, default_args_init, with_manager}
use clr_boot_manager.Cli.Update.{select_root, silent, with_args}

-- The `Kernel kern = { 0 }` of a command, with the parts of a name. Its other members are NULL,
-- which `printf` of glibc writes as "(null)".
unfoldable pub kernel_named : KernelName → Kernel
kernel_named n =
    let null = codes "(null)" in
    record {
      addr = 0;
      meta = record {
        bpath = null;
        version = n.version;
        release = n.release;
        ktype = n.ktype;
        cmdline = null;
        boots = false;
      };
      source = record {
        path = null;
        cmdline_file = none;
        kconfig_file = none;
        initrd_file = none;
        user_initrd_file = none;
        kboot_file = none;
        module_dir = none;
        sysmap_file = none;
        vmlinux_file = none;
        headers_dir = none;
      };
      target = record { path = null; legacy_path = null; initrd_path = none };
    }

-- The one operand of a command; none if there is another number of them.
unfoldable pub one_operand : List Bytes → Option Bytes
one_operand (operand ∷ []) = some operand
one_operand _ = none

module _ (P : Platform) where
  -- The kernel that an operand TYPE.VERSION-RELEASE of the namespace names.
  unfoldable pub kernel_of_id : Bytes → Option Kernel
  unfolding kernel_named
  kernel_of_id operand = elim (parse_kernel_name P.config.kernel_namespace operand) [
    | none ↦ none
    | some n ↦ some (kernel_named n)
  ]

  unfoldable pub kernel_of_operand : Option Bytes → Option Kernel
  unfolding kernel_of_id
  kernel_of_operand none = none
  kernel_of_operand (some operand) = kernel_of_id operand

  unfoldable pub on_kernel : (Kernel → M P.host.State Bool) → Option Kernel → M P.host.State Bool
  on_kernel act none = pure false
  on_kernel act (some k) = act k

  -- The lines of the list, if there is one.
  unfoldable pub listed : Option (List Bytes) → Reply
  listed none = failed
  listed (some kernels) = record { ok = true; out = kernels }

  list_selected : Bool → M P.host.State Reply
  unfolding listed
  list_selected false = pure failed
  list_selected true = do kernels ← list_kernels P; pure (listed kernels)

  module _ (process : Process P.host.State) where
    -- `cbm_command_list_kernels`
    unfoldable pub command_list_kernels : List Bytes → P.host.State → Reply × P.host.State
    unfolding list_selected
    command_list_kernels argv s =
        with_args P process (default_args_init P process true true argv s)
          (λ args.
            with_manager P process args.update_efi_vars
              (select_root P args.forced_image args.root >>= list_selected))
          s

    -- A command on the kernel that its one operand names.
    unfoldable pub command_on_kernel :
        (Kernel → M P.host.State Bool) → List Bytes → P.host.State → Reply × P.host.State
    unfolding kernel_of_operand one_operand on_kernel
    command_on_kernel act argv s =
        with_args P process (default_args_init P process true true argv s)
          (λ args. with_manager P process args.update_efi_vars (
            silent P (
              and_then (select_root P args.forced_image args.root)
                (on_kernel act (kernel_of_operand (one_operand args.operands))))))
          s

    -- `cbm_command_set_kernel`
    unfoldable pub command_set_kernel : List Bytes → P.host.State → Reply × P.host.State
    unfolding command_on_kernel
    command_set_kernel = command_on_kernel (set_default_kernel P)

    -- `cbm_command_remove_kernel`
    unfoldable pub command_remove_kernel : List Bytes → P.host.State → Reply × P.host.State
    unfolding command_on_kernel
    command_remove_kernel = command_on_kernel (remove_kernel_wrapper P)
