-- ===== src/BootLoaders/Shim/Install.antt =====
-- bootloaders/shim-systemd.c: the installation of shim, and whether it is needed. The EFI variables
-- of lib/bootvar.c are behind an interface.
pub mod Current
use clr_boot_manager.Prelude.{
  Bool, true, false, not, ◌&&◌, ◌||◌, Option, none, some, [], ◌∷◌, Bytes, codes, if◌then◌else◌,
}
use clr_boot_manager.Platform.{Platform, World, M}
use clr_boot_manager.Monad.{pure, ◌>>=◌, ◌>>◌, and_then, asks, call, for_all}
use clr_boot_manager.Files.{copy_file_atomic}
use clr_boot_manager.BootMan.BootDir.{get_boot_dir}
use clr_boot_manager.BootLoaders.SdClass.Vtable.{Variable}
use clr_boot_manager.BootLoaders.Shim.{ShimSystemdConfig, Blob, blobs, any_missing, any_outdated}

-- lib/bootvar.h; the results of the calls that change the variables are only logged.
pub record BootVar (S : Type 0) : Type 0 where
  pub init : S → S
  pub destroy : S → S
  -- for a mount point and a path on the partition
  pub has_boot_rec : S → Bytes → Bytes → Bool
  pub create : Bytes → Bytes → S → S

-- `config.has_boot_rec` is negative (none), or says whether there is a boot entry.
module _ (P : Platform) (B : BootVar P.host.State)
    (has_boot_rec : Variable P.host.State (Option Bool)) (c : ShimSystemdConfig) where
  -- Whether there is a boot entry, which an image has.
  unfoldable pub find_boot_rec : World P.host.State → Bool
  find_boot_rec w =
      if c.is_image_mode then true else B.has_boot_rec w.host P.config.boot_directory c.shim_dst_esp

  set_boot_rec : Bool → M P.host.State Bool
  set_boot_rec r = call (λ s. (r, has_boot_rec.put (some r) s))

  known_or_found : Option Bool → M P.host.State Bool
  unfolding find_boot_rec set_boot_rec
  known_or_found (some r) = pure r
  known_or_found none = asks find_boot_rec >>= set_boot_rec

  -- What is known of the boot entry, which is looked for once.
  unfoldable pub boot_rec : M P.host.State Bool
  unfolding known_or_found
  boot_rec = asks (λ w. has_boot_rec.get w.host) >>= known_or_found

  -- `shim_systemd_needs_install`
  unfoldable pub needs_install : M P.host.State Bool
  needs_install = do r ← boot_rec; asks (λ w. any_missing P (blobs c) w || not r)

  -- `shim_systemd_needs_update`
  unfoldable pub needs_update : M P.host.State Bool
  needs_update = do r ← boot_rec; asks (λ w. any_outdated P (blobs c) w || not r)

  -- `make_layout`
  unfoldable pub make_layout : M P.host.State Bool
  make_layout = do
    entries ← asks (λ w.
        P.host.build_case_correct_path w.host (get_boot_dir P w)
          (codes "loader" ∷ codes "entries" ∷ []))
    and_then (call (P.host.mkdir_p c.bin_dst_host))
        (and_then (call (P.host.mkdir_p entries)) (call (P.host.mkdir_p c.efi_fallback_dir)))

  -- `shim_systemd_install_fallback_bootloader`
  unfoldable pub install_fallback_bootloader : M P.host.State Bool
  install_fallback_bootloader = copy_file_atomic P.host c.systemd_src c.efi_fallback_dst_host

  unfoldable pub copy_blob : Blob → M P.host.State Bool
  copy_blob b = copy_file_atomic P.host b.src b.dst

  -- There is no boot entry as far as is known, and the variables may be written.
  unfoldable pub wants_entry : World P.host.State → Bool
  wants_entry w = elim (has_boot_rec.get w.host) [
    | none ↦ false
    | some r ↦ not r && w.manager.update_efi_vars
  ]

  -- The boot entry of a system that runs.
  unfoldable pub make_entry : M P.host.State Bool
  unfolding wants_entry
  make_entry = do
    wanted ← asks wants_entry
    (if wanted
        then call (λ s. (true, B.create P.config.boot_directory c.shim_dst_esp s))
        else pure true)

  -- `shim_systemd_install`
  unfoldable pub install : M P.host.State Bool
  unfolding make_layout copy_blob make_entry install_fallback_bootloader
  install = and_then make_layout (
      and_then (for_all copy_blob (blobs c))
        (if c.is_image_mode then install_fallback_bootloader else make_entry))
