-- ===== src/BootLoaders/SdClass/Vtable/Session.antt =====
-- bootloaders/systemd-boot.c: the calls of the vtable between `init` and `destroy`.
use clr_boot_manager.Prelude.{◌≡◌, ◌∙◌, refl, sym, ap, Bool, true, false, Option, none, some, Bytes}
use clr_boot_manager.Kernel.{Kernel}
use clr_boot_manager.Kernel.Name.{show_kernel_name}
use clr_boot_manager.Platform.{Platform, World, M}
use clr_boot_manager.Monad.{
  Keeps, run-Keeps, ◌>>=◌, asks, call, pure-Keeps, asks-Keeps, >>=-Keeps, >>-Keeps, if-Keeps,
  and_then-Keeps, call-Keeps,
}
use clr_boot_manager.Files.{cbm_sync}
use clr_boot_manager.Files.Text.{
  unlink_if_there, write_synced, file_set_text, file_holds, write_if_changed,
}
use clr_boot_manager.Files.Stored.{StoresTexts}
use clr_boot_manager.BootLoaders.SdClass.{SdClassConfig, sd_class_config_of}
use clr_boot_manager.BootLoaders.SdClass.Default
use clr_boot_manager.BootLoaders.SdClass.Default.{default_text}
use clr_boot_manager.BootLoaders.SdClass.Default.RoundTrip.{IsEntry, name_of}
use clr_boot_manager.BootLoaders.SdClass.Default.Stored.{get_default_kernel-set_default_kernel}
use clr_boot_manager.BootLoaders.SdClass.Vtable.{
  Variable, systemd_boot_config, init, with_paths, systemd_bootloader,
}

-- A variable of the program keeps what was put there, and calls on files leave it alone.
pub record IsVariable (P : Platform) {A : Type 0} (v : Variable P.host.State A) : Type 0 where
  pub put_get : (a : A) (s : P.host.State) → v.get (v.put a s) ≡ a
  pub unlinked : (path : Bytes) (s : P.host.State) → v.get (P.host.unlink path s).1 ≡ v.get s
  pub written :
      (path text : Bytes) (s : P.host.State) → v.get (P.host.write path text s).1 ≡ v.get s
  pub synced : (s : P.host.State) → v.get (P.host.sync s) ≡ v.get s

module _ (P : Platform) (v : Variable P.host.State (Option SdClassConfig))
    (lawful : IsVariable P v) where
  -- The paths are `paths`.
  abbrev Has : Option SdClassConfig → World P.host.State → Type 0
  Has paths w = v.get w.host ≡ paths

  cbm_sync-Has : (paths : Option SdClassConfig) → Keeps (Has paths) (cbm_sync P.host)
  unfolding cbm_sync
  cbm_sync-Has paths = call-Keeps _ (λ w p. lawful.synced w.host ∙ p)

  write_if_changed-Has :
      (paths : Option SdClassConfig) (path text : Bytes)
      → Keeps (Has paths) (write_if_changed P.host path text)
  unfolding write_if_changed file_set_text unlink_if_there write_synced
  write_if_changed-Has paths path text =
      >>=-Keeps (asks-Keeps (file_holds P.host path text)) (λ same.
        if-Keeps same (pure-Keeps true) (
          and_then-Keeps
            (and_then-Keeps
              (>>=-Keeps (asks-Keeps (λ w. P.host.file_exists w.host path)) (λ there.
                if-Keeps there
                  (call-Keeps (P.host.unlink path) (λ w p. lawful.unlinked path w.host ∙ p))
                  (pure-Keeps true)))
              (>>-Keeps (cbm_sync-Has paths) (
                >>=-Keeps
                  (call-Keeps (P.host.write path text) (λ w p. lawful.written path text w.host ∙ p))
                  (λ written. >>-Keeps (cbm_sync-Has paths) (pure-Keeps written)))))
            (>>-Keeps (cbm_sync-Has paths) (pure-Keeps true))))

  set_default_kernel-Has :
      (paths : Option SdClassConfig) (c : SdClassConfig) (k : Kernel)
      → Keeps (Has paths) (Default.set_default_kernel P c (some k))
  unfolding Default.set_default_kernel
  set_default_kernel-Has paths c k =
      >>=-Keeps (asks-Keeps (default_text P (some k)))
        (λ text. write_if_changed-Has paths c.loader_config text)

  with_paths-some :
      {A : Type 0} (missing : A) (f : SdClassConfig → M P.host.State A) (c : SdClassConfig)
      (w : World P.host.State)
      → v.get w.host ≡ some c
      → with_paths P v missing f w ≡ f c w
  unfolding with_paths ◌>>=◌ asks
  with_paths-some missing f c w e = rw (with_paths, e) refl

  init-Has :
      (w : World P.host.State)
      → Has (some (sd_class_config_of P systemd_boot_config w)) (init P v systemd_boot_config w).1
  unfolding init ◌>>=◌ asks call
  init-Has w = lawful.put_get (some (sd_class_config_of P systemd_boot_config w)) w.host

  -- Through the vtable of systemd-boot: once the loader is initialised, and a default kernel was set
  -- with success, the default that is read is the name of that kernel. The host keeps the texts that
  -- are written, calls on files leave the loader's variable alone, and the parts of the kernel's name
  -- fit the buffers, with no dash in the version, no newline and no NUL, and its release is not below 0,
  -- which the reading refuses.
  pub systemd_bootloader_default :
      StoresTexts P.host
      → (k : Kernel) (w : World P.host.State) → IsEntry P.config.vendor_prefix k
      → ((systemd_bootloader P v).set_default_kernel k ((systemd_bootloader P v).init w).1).0 ≡ true
      → ((systemd_bootloader P v).get_default_kernel
          ((systemd_bootloader P v).set_default_kernel k ((systemd_bootloader P v).init w).1).1).0
        ≡ some (show_kernel_name P.config.kernel_namespace (name_of k))
  unfolding systemd_bootloader
  systemd_bootloader_default stores k w e ok =
      let c = sd_class_config_of P systemd_boot_config w in
      let ready = (init P v systemd_boot_config w).1 in
      let set_default = λ (paths : SdClassConfig). Default.set_default_kernel P paths (some k) in
      let set_there = with_paths-some false set_default c ready (init-Has w) in
      let kept = run-Keeps (set_default_kernel-Has (some c) c k) ready (init-Has w) in
      ap
        (λ (r : Bool × World P.host.State).
          (with_paths P v none (Default.get_default_kernel P) r.1).0)
        set_there
      ∙ ap (λ (r : Option Bytes × World P.host.State). r.0)
          (with_paths-some none (Default.get_default_kernel P) c (set_default c ready).1 kept)
      ∙ get_default_kernel-set_default_kernel P stores c k ready e
          (ap (λ (r : Bool × World P.host.State). r.0) (sym set_there) ∙ ok)
