-- ===== src/BootLoaders/Grub2/Vtable.antt =====
-- bootloaders/grub2.c: the instance of the vtable. The queue is a static variable, which is a part of the
-- state of the host here.
use clr_boot_manager.Prelude.{
  ℕ, Bool, true, false, Option, none, some, List, [], ◌++◌, if◌then◌else◌, codes, bit_or,
}
use clr_boot_manager.Kernel.{Kernel}
use clr_boot_manager.Platform.{Platform, BootLoader, World, M}
use clr_boot_manager.Monad.{pure, ◌>>=◌, asks, call}
use clr_boot_manager.BootMan.BootDir.{cap_legacy, cap_extfs, cap_partless}
use clr_boot_manager.BootLoaders.SdClass.Vtable.{Variable}
use clr_boot_manager.BootLoaders.Syslinux.Queue.{enqueue}
use clr_boot_manager.BootLoaders.Grub2.Script.{remove_kernel, set_default_kernel}

module _ (P : Platform) (kernel_queue : Variable P.host.State (Option (List Kernel))) where
  -- `grub2_init`: an empty queue
  unfoldable pub init : M P.host.State Bool
  init = call (λ s. (true, kernel_queue.put (some []) s))

  -- `grub2_destroy`
  unfoldable pub destroy : M P.host.State (Unit {0})
  destroy = call (λ s. (tt, kernel_queue.put none s))

  on_queue : (List Kernel → M P.host.State Bool) → Option (List Kernel) → M P.host.State Bool
  on_queue f none = pure false
  on_queue f (some queue) = f queue

  -- The boot manager makes these calls between `init` and `destroy` only.
  unfoldable pub with_queue : (List Kernel → M P.host.State Bool) → M P.host.State Bool
  unfolding on_queue
  with_queue f = asks (λ w. kernel_queue.get w.host) >>= on_queue f

  -- `grub2_install_kernel`
  unfoldable pub install_kernel : Kernel → List Kernel → M P.host.State Bool
  install_kernel k queue = call (λ s. (true, kernel_queue.put (some (enqueue k queue)) s))

  -- `grub2_get_capabilities`
  unfoldable pub get_capabilities : World P.host.State → ℕ
  get_capabilities w =
      if P.host.executable w.host (w.manager.sysconfig.prefix ++ codes "/usr/sbin/grub-mkconfig")
      then bit_or (bit_or cap_legacy cap_extfs) cap_partless
      else 0

  -- `grub2_bootloader`
  unfoldable pub grub2_bootloader : BootLoader P.host.State
  grub2_bootloader = record {
    init = init;
    destroy = destroy;
    get_kernel_destination = λ w. none;
    install_kernel = λ k. with_queue (install_kernel k);
    remove_kernel = λ k. remove_kernel P k;
    set_default_kernel = λ k. with_queue (λ queue. set_default_kernel P queue (some k));
    get_default_kernel = pure none;
    needs_update = pure false;
    needs_install = pure false;
    install = pure true;
    update = pure true;
    remove = pure true;
    get_capabilities = get_capabilities;
  }
