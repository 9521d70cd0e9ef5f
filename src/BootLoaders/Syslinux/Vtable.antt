-- ===== src/BootLoaders/Syslinux/Vtable.antt =====
-- bootloaders/syslinux.c and extlinux.c: instances of the vtable. The data that the manager keeps for its
-- loader is a part of the state of the host here.
use clr_boot_manager.Prelude.{
  ℕ, Bool, true, false, Option, none, some, List, ◌++◌, Bytes, if◌then◌else◌, codes, bit_or,
}
use clr_boot_manager.Kernel.{Kernel}
use clr_boot_manager.Platform.{Platform, BootLoader, World, M}
use clr_boot_manager.Monad.{pure, ◌>>=◌, asks, call}
use clr_boot_manager.BootMan.BootDir.{cap_gpt, cap_legacy, cap_fatfs, cap_extfs, cap_partless}
use clr_boot_manager.BootLoaders.SdClass.Vtable.{Variable}
use clr_boot_manager.BootLoaders.Syslinux.{SyslinuxContext}
use clr_boot_manager.BootLoaders.Syslinux.Queue.{enqueue}
use clr_boot_manager.BootLoaders.Syslinux.Config.{set_default_kernel, get_default_kernel}
use clr_boot_manager.BootLoaders.Syslinux.Setup.{
  CommandWriter, syslinux_command, extlinux_command, start_queue, init_context, install,
}

module _ (P : Platform) (loader_data : Variable P.host.State (Option SyslinuxContext))
    (gptmbr_bin mbr_bin : Bytes) where
  init_with : CommandWriter → Option (List Kernel) → M P.host.State Bool
  init_with writer none = pure false
  init_with writer (some queue) = do
    result ← asks (init_context P writer queue)
    call (λ s. (result.0, loader_data.put result.1 s))

  -- `syslinux_common_init`
  unfoldable pub init : CommandWriter → M P.host.State Bool
  unfolding init_with
  init writer = asks (start_queue P) >>= init_with writer

  -- `syslinux_common_destroy`
  unfoldable pub destroy : M P.host.State (Unit {0})
  destroy = call (λ s. (tt, loader_data.put none s))

  on_context :
      {A : Type 0}
      → A
      → (SyslinuxContext → M P.host.State A)
      → Option SyslinuxContext
      → M P.host.State A
  on_context missing f none = pure missing
  on_context missing f (some ctx) = f ctx

  -- The boot manager makes these calls between `init` and `destroy` only.
  unfoldable pub with_context :
      {A : Type 0} → A → (SyslinuxContext → M P.host.State A) → M P.host.State A
  unfolding on_context
  with_context missing f = asks (λ w. loader_data.get w.host) >>= on_context missing f

  -- `syslinux_common_install_kernel`
  unfoldable pub install_kernel : Kernel → SyslinuxContext → M P.host.State Bool
  install_kernel k ctx = call (λ s.
      (true, loader_data.put (some (record ctx { kernel_queue = enqueue k ctx.kernel_queue })) s))

  -- The capabilities of a loader whose program is there
  unfoldable pub capabilities : Bytes → ℕ → World P.host.State → ℕ
  capabilities program fs w =
      if P.host.executable w.host (w.manager.sysconfig.prefix ++ program)
      then bit_or (bit_or (bit_or cap_gpt cap_legacy) fs) cap_partless
      else 0

  -- What the two loaders share.
  unfoldable pub syslinux_like : CommandWriter → (World P.host.State → ℕ) → BootLoader P.host.State
  syslinux_like writer caps = record {
    init = init writer;
    destroy = destroy;
    get_kernel_destination = λ w. none;
    install_kernel = λ k. with_context false (install_kernel k);
    remove_kernel = λ k. pure true;
    set_default_kernel = λ k. with_context false (λ ctx. set_default_kernel P ctx (some k));
    get_default_kernel = with_context none (get_default_kernel P);
    needs_update = pure true;
    needs_install = pure true;
    install = with_context false (install P gptmbr_bin mbr_bin);
    update = with_context false (install P gptmbr_bin mbr_bin);
    remove = pure true;
    get_capabilities = caps;
  }

  -- `syslinux_bootloader`
  unfoldable pub syslinux_bootloader : BootLoader P.host.State
  syslinux_bootloader =
      syslinux_like syslinux_command (capabilities (codes "/usr/bin/syslinux") cap_fatfs)

  -- `extlinux_bootloader`
  unfoldable pub extlinux_bootloader : BootLoader P.host.State
  extlinux_bootloader =
      syslinux_like extlinux_command (capabilities (codes "/usr/bin/extlinux") cap_extfs)
