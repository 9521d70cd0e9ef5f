-- ===== src/BootLoaders/SdClass/Blob/Current.antt =====
-- bootloaders/systemd-class.c: after an update the loader on the boot partition is the one of the
-- system.
use clr_boot_manager.Prelude.{
  ◌≡◌, ◌∙◌, refl, true, false, Option, some, ◌++◌, Bytes, codes, streq, sym, Bool, if◌then◌else◌,
  ◌&&◌,
}
use clr_boot_manager.Platform.{Platform, Host, World}
use clr_boot_manager.Monad.{
  Keeps, run-Keeps, and_then_true, pure, ◌>>=◌, ◌>>◌, asks, call, and_then-Keeps, >>-Keeps,
  pure-Keeps, if-Keeps, >>=-Keeps, asks-Keeps,
}
use clr_boot_manager.Files.{files_match, copy_file_atomic, cbm_sync}
use clr_boot_manager.Files.Copy.{SendsBytes}
use clr_boot_manager.Files.Atomic.{Replaces, copy_file_atomic-copies}
use clr_boot_manager.Files.Match.{files_match_iff}
use clr_boot_manager.Files.Frame.{
  LeavesOthers, Reads, cbm_sync-Keeps, mkdir_p-Keeps, copy_file_atomic-Keeps,
}
use clr_boot_manager.BootLoaders.SdClass.{SdClassConfig, ensure_dir, ensure_dirs}
use clr_boot_manager.BootLoaders.SdClass.Blob.{
  stale, install_blob, update_blob, needs_update, update,
}

-- A copy to `target` does not write the file at `kept`, which other calls leave alone.
pub record IsApart (H : Host) (target kept : Bytes) : Type 0 where
  pub others : LeavesOthers H kept
  pub target_apart : streq target kept ≡ false
  pub temporary_apart : streq (target ++ codes ".TmpWrite") kept ≡ false

-- What a copy from `src` to `target` relies on.
pub record Copies (H : Host) (src target : Bytes) : Type 0 where
  pub sends : SendsBytes H (target ++ codes ".TmpWrite") src
  pub replaces : Replaces H (target ++ codes ".TmpWrite") target
  pub source_apart : IsApart H target src

module _ (P : Platform) where
  module _ (target kept : Bytes) (apart : IsApart P.host target kept) (content : Option Bytes) where
    abbrev Held : World P.host.State → Type 0
    Held = Reads P.host kept content

    synced-Keeps : Keeps Held (cbm_sync P.host >> pure true)
    synced-Keeps = >>-Keeps (cbm_sync-Keeps P.host kept apart.others content) (pure-Keeps true)

    copy-Keeps : (src : Bytes) → Keeps Held (copy_file_atomic P.host src target)
    copy-Keeps src =
        copy_file_atomic-Keeps P.host kept apart.others content src target apart.target_apart
          apart.temporary_apart

    update_blob-Keeps : (src : Bytes) → Keeps Held (update_blob P src target)
    unfolding update_blob
    update_blob-Keeps src =
        >>=-Keeps (asks-Keeps (λ w. files_match P.host w.host src target))
          (λ same. and_then-Keeps (if-Keeps same (pure-Keeps true) (copy-Keeps src)) synced-Keeps)

    install_blob-Keeps : (src : Bytes) → Keeps Held (install_blob P src target)
    unfolding install_blob
    install_blob-Keeps src = and_then-Keeps (copy-Keeps src) synced-Keeps

    ensure_dir-Keeps : (c : SdClassConfig) (dir : Bytes) → Keeps Held (ensure_dir P c dir)
    unfolding ensure_dir
    ensure_dir-Keeps c dir =
        and_then-Keeps (mkdir_p-Keeps P.host kept apart.others content dir) synced-Keeps

    ensure_dirs-Keeps : (c : SdClassConfig) → Keeps Held (ensure_dirs P c)
    unfolding ensure_dirs
    ensure_dirs-Keeps c = and_then-Keeps (ensure_dir-Keeps c c.efi_dir) (
        and_then-Keeps (ensure_dir-Keeps c c.vendor_dir)
          (and_then-Keeps (ensure_dir-Keeps c c.kernel_dir) (ensure_dir-Keeps c c.entries_dir)))

  module _ (src target : Bytes) (copies : Copies P.host src target) (content : Bytes) where
    synced-copied :
        (w : World P.host.State)
        → P.host.read w.host target ≡ some content
        → P.host.read ((cbm_sync P.host >> pure true) w).1.host target ≡ some content
    unfolding cbm_sync ◌>>◌ pure call
    synced-copied w got = copies.replaces.synced target w.host ∙ got

    update_blob-copies :
        (w : World P.host.State)
        → P.host.read w.host src ≡ some content
        → (update_blob P src target w).0 ≡ true
        → P.host.read (update_blob P src target w).1.host target ≡ some content
    unfolding update_blob ◌>>=◌ asks pure
    update_blob-copies w has ok =
        and_then_true _ _ (λ v. P.host.read v.host target ≡ some content) w ok
          (λ copied _.
            synced-copied _ (matched_or_copied (files_match P.host w.host src target) refl copied))
      where
        matched_or_copied :
            (b : Bool)
            → b ≡ files_match P.host w.host src target
            → ((if b then pure true else copy_file_atomic P.host src target) w).0 ≡ true
            → P.host.read
                ((if b then pure true else copy_file_atomic P.host src target) w).1.host
                target
              ≡ some content
        matched_or_copied true e copied =
            (files_match_iff P.host w.host src target content has).0 (sym e)
        matched_or_copied false e copied =
            copy_file_atomic-copies P.host src target copies.sends copies.replaces content w has
              copied

  -- A target that holds the bytes of the source is not stale.
  stale-false :
      (src target content : Bytes) (w : World P.host.State)
      → P.host.read w.host src ≡ some content
      → P.host.read w.host target ≡ some content
      → stale P src target w ≡ false
  unfolding stale
  stale-false src target content w has got =
      rw ((files_match_iff P.host w.host src target content has).1 got)
        (and_false (P.host.file_exists w.host target))
    where
      and_false : (b : Bool) → b && false ≡ false
      and_false true = refl
      and_false false = refl

  -- The source, the first target and the second, once an update has succeeded.
  abbrev AllHold : SdClassConfig → Bytes → World P.host.State → Type 0
  AllHold c content w =
      (P.host.read w.host c.efi_blob_source ≡ some content)
      × (P.host.read w.host c.efi_blob_dest ≡ some content)
      × (P.host.read w.host c.default_path_efi_blob ≡ some content)

  module _ (c : SdClassConfig) (first : Copies P.host c.efi_blob_source c.efi_blob_dest)
      (second : Copies P.host c.efi_blob_source c.default_path_efi_blob)
      (first_kept : IsApart P.host c.default_path_efi_blob c.efi_blob_dest) where
    update-AllHold :
        (content : Bytes) (w : World P.host.State)
        → P.host.read w.host c.efi_blob_source ≡ some content
        → (update P c w).0 ≡ true
        → AllHold c content (update P c w).1
    unfolding update
    update-AllHold content w has ok = and_then_true _ _ (AllHold c content) w ok (λ made rest.
        let ready = run-Keeps (ensure_dirs-Keeps _ _ first.source_apart (some content) c) w has in
        and_then_true _ _ (AllHold c content) _ rest (λ one two.
          let kept =
            run-Keeps (update_blob-Keeps _ _ first.source_apart (some content) _) _ ready in
          let got = update_blob-copies _ _ first content _ ready one in
          (
            run-Keeps (update_blob-Keeps _ _ second.source_apart (some content) _) _ kept,
            run-Keeps (update_blob-Keeps _ _ first_kept (some content) _) _ got,
            update_blob-copies _ _ second content _ kept two,
          )))

    -- Where an update of the loader succeeds, no update is needed any more. The source can be read
    -- before, `sendfile` moves bytes of its source to the end of its target, `rename` moves a file,
    -- and the two targets, their temporary files and the source are different files, of which a call
    -- on one leaves the others alone.
    pub needs_update-update :
        (content : Bytes) (w : World P.host.State)
        → P.host.read w.host c.efi_blob_source ≡ some content
        → (update P c w).0 ≡ true
        → needs_update P c (update P c w).1 ≡ false
    unfolding needs_update
    needs_update-update content w has ok =
        let all = update-AllHold content w has ok in
        rw
          (
            stale-false _ _ content (update P c w).1 all.0 all.1,
            stale-false _ _ content (update P c w).1 all.0 all.2,
          )
          refl
