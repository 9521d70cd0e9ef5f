-- ===== src/Cli/Update.antt =====
-- cli/ops/update.c and cli/ops/mount.c: the update of the system below a root, and the mount of its
-- boot directory.
use clr_boot_manager.Prelude.{
  Bool, true, false, Option, none, some, List, [], Bytes, if◌then◌else◌, codes, streq,
}
use clr_boot_manager.Kernel.Inspect.{◌//◌}
use clr_boot_manager.Platform.{Platform, M}
use clr_boot_manager.Monad.{pure, ◌>>=◌, ◌>>◌, and_then, asks}
use clr_boot_manager.BootMan.SetUp.{set_image_mode}
use clr_boot_manager.BootMan.Prefix.{set_prefix}
use clr_boot_manager.BootMan.Freestanding.{enumerate_initrds_freestanding}
use clr_boot_manager.BootMan.Mount.{Mounted, error, already, mounted, detect_and_mount_boot}
use clr_boot_manager.Update
use clr_boot_manager.Cli.{
  CliArgs, Process, Reply, failed, default_args_init, with_manager, root_or_empty,
}

module _ (P : Platform) where
  -- Anything but "/" is an image.
  use_root : Bool → Bytes → Option Bytes → M P.host.State Bool
  use_root forced_image root none = pure false
  use_root forced_image root (some realp) =
      set_image_mode P (if streq realp (codes "/") then forced_image else true) >> set_prefix P root

  -- The manager is set to the root of the arguments.
  unfoldable pub select_root : Bool → Option Bytes → M P.host.State Bool
  unfolding use_root
  select_root forced_image none = set_image_mode P forced_image >> set_prefix P (codes "/")
  select_root forced_image (some root) =
      asks (λ w. P.host.realpath w.host root) >>= use_root forced_image root

  -- `boot_manager_detect_kernel_dir`
  unfoldable pub detect_kernel_dir : Option Bytes → P.host.State → Bool
  unfolding root_or_empty
  detect_kernel_dir root s = P.host.file_exists s (root_or_empty root // P.config.kernel_directory)

  -- `cbm_command_update_do`
  unfoldable pub update_do : Option Bytes → Bool → M P.host.State Bool
  update_do root forced_image = do
    there ← asks (λ w. detect_kernel_dir root w.host)
    if there
        then and_then (select_root forced_image root)
            (and_then (enumerate_initrds_freestanding P) (Update.update P))
        else pure true

  -- The result of a command that prints nothing
  unfoldable pub silent : M P.host.State Bool → M P.host.State Reply
  silent body = do ok ← body; pure (record { ok = ok; out = [] })

  module _ (process : Process P.host.State) where
    -- A command that cannot read its options fails before it has a manager.
    unfoldable pub with_args :
        Option CliArgs
        → (CliArgs → P.host.State → Reply × P.host.State)
        → P.host.State
        → Reply × P.host.State
    with_args none run s = (failed, s)
    with_args (some args) run s = run args s

    -- `cbm_command_update`
    unfoldable pub command_update : List Bytes → P.host.State → Reply × P.host.State
    unfolding with_args silent update_do
    command_update argv s =
        with_args (default_args_init P process true true argv s)
          (λ args.
            with_manager P process args.update_efi_vars
              (silent (update_do args.root args.forced_image)))
          s

    -- A mount that succeeded, or was not needed.
    did_mount : Mounted → Bool
    did_mount error = false
    did_mount already = true
    did_mount (mounted dir) = true

    -- `cbm_command_mount_boot`; what is mounted stays.
    unfoldable pub command_mount_boot : List Bytes → P.host.State → Reply × P.host.State
    unfolding with_args silent select_root did_mount
    command_mount_boot argv s =
        with_args (default_args_init P process true false argv s)
          (λ args. with_manager P process args.update_efi_vars (
            silent (
              and_then (select_root args.forced_image args.root)
                (do m ← detect_and_mount_boot P; pure (did_mount m)))))
          s
