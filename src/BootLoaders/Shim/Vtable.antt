-- ===== src/BootLoaders/Shim/Vtable.antt =====
-- bootloaders/shim-systemd.c: shim-systemd as an instance of the vtable. Its configuration and that
-- of systemd-class.c are static variables.
use clr_boot_manager.Prelude.{
  ℕ, Bool, true, false, Option, none, some, Bytes, if◌then◌else◌, bit_or,
}
use clr_boot_manager.Platform.{Platform, BootLoader, World, M}
use clr_boot_manager.Monad.{pure, ◌>>=◌, ◌>>◌, asks, call}
use clr_boot_manager.BootMan.BootDir.{cap_gpt, cap_uefi, cap_fatfs}
use clr_boot_manager.BootLoaders.SdClass.{SdClassConfig}
use clr_boot_manager.BootLoaders.SdClass.Entry
use clr_boot_manager.BootLoaders.SdClass.Default
use clr_boot_manager.BootLoaders.SdClass.Vtable.{Variable, systemd_boot_config}
use clr_boot_manager.BootLoaders.SdClass.Vtable
use clr_boot_manager.BootLoaders.Shim.{ShimSystemdConfig, shim_config_of}
use clr_boot_manager.BootLoaders.Shim.Install
use clr_boot_manager.BootLoaders.Shim.Install.{BootVar}

-- `shim_systemd_get_capabilities`
abbrev shim_capabilities : ℕ
shim_capabilities = bit_or (bit_or cap_gpt cap_uefi) cap_fatfs

module _ (P : Platform) (B : BootVar P.host.State)
    (sd_class_config : Variable P.host.State (Option SdClassConfig))
    (config : Variable P.host.State (Option ShimSystemdConfig))
    (has_boot_rec : Variable P.host.State (Option Bool)) where
  -- The EFI variables are read, unless on an image.
  unfoldable pub init_variables : Bool → M P.host.State (Unit {0})
  init_variables image = if image then pure tt else call (λ s. (tt, B.init s))

  -- `shim_systemd_init`; systemd-class.c is set up with the configuration of systemd-boot, which
  -- has the members of the one here.
  unfoldable pub init : M P.host.State Bool
  unfolding init_variables
  init = do
    image ← asks (λ w. w.manager.image_mode)
    init_variables image
    Vtable.init P sd_class_config systemd_boot_config
    paths ← asks (shim_config_of P)
    call (λ s. (true, config.put (some paths) s))

  destroy_variables : Option ShimSystemdConfig → M P.host.State (Unit {0})
  destroy_variables none = pure tt
  destroy_variables (some c) = do
    update ← asks (λ w. w.manager.update_efi_vars)
    if c.is_image_mode then pure tt else (if update then call (λ s. (tt, B.destroy s)) else pure tt)

  -- `shim_systemd_destroy`; the paths are freed, and what is known of the boot entry stays.
  unfoldable pub destroy : M P.host.State (Unit {0})
  unfolding destroy_variables
  destroy = do
    c ← asks (λ w. config.get w.host)
    call (λ s. (tt, config.put none s))
    destroy_variables c
    Vtable.destroy P sd_class_config

  on_config :
      {A : Type 0}
      → A
      → (ShimSystemdConfig → M P.host.State A)
      → Option ShimSystemdConfig
      → M P.host.State A
  on_config missing f none = pure missing
  on_config missing f (some c) = f c

  -- The boot manager makes these calls between `init` and `destroy` only.
  unfoldable pub with_config :
      {A : Type 0} → A → (ShimSystemdConfig → M P.host.State A) → M P.host.State A
  unfolding on_config
  with_config missing f = asks (λ w. config.get w.host) >>= on_config missing f

  -- `shim_systemd_get_kernel_destination`
  unfoldable pub get_kernel_destination : World P.host.State → Option Bytes
  get_kernel_destination w = elim (config.get w.host) [ none ↦ none | some c ↦ some c.bin_dst_esp ]

  -- `shim_systemd_bootloader`
  unfoldable pub shim_systemd_bootloader : BootLoader P.host.State
  shim_systemd_bootloader = record {
    init = init;
    destroy = destroy;
    get_kernel_destination = get_kernel_destination;
    install_kernel = λ k. with_config false (λ c.
        Vtable.with_paths P sd_class_config false
          (λ paths. Entry.install_kernel P c.bin_dst_esp paths k));
    remove_kernel =
        λ k. Vtable.with_paths P sd_class_config false (λ paths. Entry.remove_kernel P paths k);
    set_default_kernel = λ k.
        Vtable.with_paths P sd_class_config false
          (λ paths. Default.set_default_kernel P paths (some k));
    get_default_kernel = Vtable.with_paths P sd_class_config none (Default.get_default_kernel P);
    needs_update = with_config false (Install.needs_update P B has_boot_rec);
    needs_install = with_config false (Install.needs_install P B has_boot_rec);
    install = with_config false (Install.install P B has_boot_rec);
    update = with_config false (Install.install P B has_boot_rec);
    remove = pure true;
    get_capabilities = λ w. shim_capabilities;
  }
