-- ===== src/BootLoaders/SdClass/Vtable.antt =====
-- bootloaders/systemd-boot.c: systemd-boot as an instance of the vtable. The configuration of
-- systemd-class.c is a static variable, which is a part of the state of the host here.
pub mod Session
use clr_boot_manager.Prelude.{Bool, true, false, Option, none, some, Bytes, codes}
use clr_boot_manager.Platform.{Platform, BootLoader, World, M}
use clr_boot_manager.Monad.{pure, ◌>>=◌, asks, call}
use clr_boot_manager.BootLoaders.SdClass.{BootLoaderConfig, SdClassConfig, sd_class_config_of}
use clr_boot_manager.BootLoaders.SdClass.Entry
use clr_boot_manager.BootLoaders.SdClass.Default
use clr_boot_manager.BootLoaders.SdClass.Blob
use clr_boot_manager.BootLoaders.SdClass.Blob.{sd_class_capabilities}

-- A static variable of the program within a state.
pub record Variable (S A : Type 0) : Type 0 where
  pub get : S → A
  pub put : A → S → S

-- `systemd_boot_config`
abbrev pub systemd_boot_config : BootLoaderConfig
systemd_boot_config = record {
  vendor_dir = codes "systemd";
  efi_dir = codes "/usr/lib/systemd/boot/efi";
  efi_blob = codes "systemd-bootx64.efi";
}

module _ (P : Platform) (sd_class_config : Variable P.host.State (Option SdClassConfig)) where
  -- `sd_class_init`
  unfoldable pub init : BootLoaderConfig → M P.host.State Bool
  init config = do
    paths ← asks (sd_class_config_of P config)
    call (λ s. (true, sd_class_config.put (some paths) s))

  -- `sd_class_destroy`; the paths are NULL then.
  unfoldable pub destroy : M P.host.State (Unit {0})
  destroy = call (λ s. (tt, sd_class_config.put none s))

  on_paths :
      {A : Type 0}
      → A
      → (SdClassConfig → M P.host.State A)
      → Option SdClassConfig
      → M P.host.State A
  on_paths missing f none = pure missing
  on_paths missing f (some c) = f c

  -- The boot manager makes these calls between `init` and `destroy` only.
  unfoldable pub with_paths :
      {A : Type 0} → A → (SdClassConfig → M P.host.State A) → M P.host.State A
  unfolding on_paths
  with_paths missing f = asks (λ w. sd_class_config.get w.host) >>= on_paths missing f

  -- `sd_class_get_kernel_destination_default`
  unfoldable pub kernel_destination : World P.host.State → Option Bytes
  kernel_destination w = elim (sd_class_config.get w.host) [
    | none ↦ none
    | some c ↦ some c.kernel_dir_esp
  ]

  -- `systemd_bootloader`
  unfoldable pub systemd_bootloader : BootLoader P.host.State
  systemd_bootloader = record {
    init = init systemd_boot_config;
    destroy = destroy;
    get_kernel_destination = kernel_destination;
    install_kernel = λ k. with_paths false (λ c. Entry.install_kernel P c.kernel_dir_esp c k);
    remove_kernel = λ k. with_paths false (λ c. Entry.remove_kernel P c k);
    set_default_kernel = λ k. with_paths false (λ c. Default.set_default_kernel P c (some k));
    get_default_kernel = with_paths none (Default.get_default_kernel P);
    needs_update = with_paths false (λ c. asks (Blob.needs_update P c));
    needs_install = with_paths false (λ c. asks (Blob.needs_install P c));
    install = with_paths false (Blob.install P);
    update = with_paths false (Blob.update P);
    remove = with_paths false (Blob.remove P);
    get_capabilities = λ w. sd_class_capabilities;
  }
