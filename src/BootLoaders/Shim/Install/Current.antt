-- ===== src/BootLoaders/Shim/Install/Current.antt =====
-- bootloaders/shim-systemd.c: after an installation the files on the boot partition are those of
-- the system.
use clr_boot_manager.Prelude.{
  All, All-zip, All-map, ◌≡◌, ◌∙◌, refl, Bool, true, false, not, Option, none, some, List, [], ◌∷◌,
  Bytes, if◌then◌else◌,
}
use clr_boot_manager.Platform.{Platform, Host, World, M}
use clr_boot_manager.Monad.{
  Keeps, run-Keeps, and_then_true, ◌>>=◌, asks, for_all, and_then-Keeps, pure-Keeps, if-Keeps,
  >>=-Keeps, asks-Keeps, call-Keeps, for_all-Keeps-All,
}
use clr_boot_manager.Files.Atomic.{copy_file_atomic-copies}
use clr_boot_manager.Files.Match.{files_match_iff}
use clr_boot_manager.Files.Frame.{LeavesOthers, Reads, mkdir_p-Keeps, copy_file_atomic-Keeps}
use clr_boot_manager.BootLoaders.SdClass.Blob.Current.{IsApart, Copies}
use clr_boot_manager.BootLoaders.SdClass.Vtable.{Variable}
use clr_boot_manager.BootLoaders.Shim.{ShimSystemdConfig, Blob, blobs, any_outdated}
use clr_boot_manager.BootLoaders.Shim.Install.{
  BootVar, boot_rec, find_boot_rec, known_or_found, set_boot_rec, make_layout, copy_blob,
  make_entry, wants_entry, install_fallback_bootloader, install, needs_update,
}

-- Copying `b` disturbs neither file of `earlier`, whose own copy leaves the source of `b` alone.
pub record AreApart (H : Host) (earlier b : Blob) : Type 0 where
  pub source_kept : IsApart H b.dst earlier.src
  pub target_kept : IsApart H b.dst earlier.dst
  pub next_kept : IsApart H earlier.dst b.src

-- The copies can be made one behind the other.
abbrev pub AllApart : (H : Host) → List Blob → Type 0
AllApart H [] = Unit
AllApart H (b ∷ bs) = Copies H b.src b.dst × All (AreApart H b) bs × AllApart H bs

module _ (P : Platform) (content : Bytes → Bytes) where
  -- The source has its bytes.
  abbrev pub HasSource : World P.host.State → Blob → Type 0
  HasSource w b = P.host.read w.host b.src ≡ some (content b.src)

  -- The source and the target have the bytes of the source.
  abbrev IsCopied : World P.host.State → Blob → Type 0
  IsCopied w b = HasSource w b × (P.host.read w.host b.dst ≡ some (content b.src))

  -- A file that can be read is there.
  abbrev pub Exists : Type 0
  Exists =
      (s : P.host.State) (path bytes : Bytes)
      → P.host.read s path ≡ some bytes
      → P.host.file_exists s path ≡ true

  any_outdated-false :
      (exists : Exists) (bs : List Blob) (w : World P.host.State)
      → All (IsCopied w) bs
      → any_outdated P bs w ≡ false
  unfolding any_outdated
  any_outdated-false exists [] w h = refl
  any_outdated-false exists (b ∷ bs) w ((source, target), rest) =
      rw
        (
          exists w.host b.dst (content b.src) target,
          (files_match_iff P.host w.host b.dst b.src (content b.src) target).1 source,
        )
        (any_outdated-false exists bs w rest)

  module _ (B : BootVar P.host.State) (v : Variable P.host.State (Option Bool))
      (c : ShimSystemdConfig) where
    copy_blob-Keeps :
        (kept bytes : Bytes) (b : Blob)
        → IsApart P.host b.dst kept
        → Keeps (Reads P.host kept (some bytes)) (copy_blob P B v c b)
    unfolding copy_blob
    copy_blob-Keeps kept bytes b apart =
        copy_file_atomic-Keeps P.host kept apart.others (some bytes) b.src b.dst apart.target_apart
          apart.temporary_apart

    later-Keeps :
        (kept bytes : Bytes) (bs : List Blob)
        → All (λ b. IsApart P.host b.dst kept) bs
        → Keeps (Reads P.host kept (some bytes)) (for_all (copy_blob P B v c) bs)
    later-Keeps kept bytes bs apart =
        for_all-Keeps-All _ bs (All-map _ _ bs (copy_blob-Keeps kept bytes) apart)

    copy_blob-target :
        (b : Blob) (w : World P.host.State)
        → Copies P.host b.src b.dst
        → HasSource w b
        → (copy_blob P B v c b w).0 ≡ true
        → P.host.read (copy_blob P B v c b w).1.host b.dst ≡ some (content b.src)
    unfolding copy_blob
    copy_blob-target b w copies =
        copy_file_atomic-copies P.host b.src b.dst copies.sends copies.replaces (content b.src) w

    for_all-IsCopied :
        (bs : List Blob) (w : World P.host.State)
        → AllApart P.host bs
        → All (HasSource w) bs
        → (for_all (copy_blob P B v c) bs w).0 ≡ true
        → All (IsCopied (for_all (copy_blob P B v c) bs w).1) bs
    unfolding for_all
    for_all-IsCopied [] w apart h ok = tt
    for_all-IsCopied (b ∷ bs) w (copies, apart, all) (h, hs) ok =
        and_then_true _ _ (λ u. All (IsCopied u) (b ∷ bs)) w ok
          (λ one rest.
            let source =
              run-Keeps (copy_blob-Keeps b.src (content b.src) b copies.source_apart) w h in
            let target = copy_blob-target b w copies h one in
            let next =
              All-zip _ _ _ bs
                (λ a k s. run-Keeps (copy_blob-Keeps a.src (content a.src) b k.next_kept) w s) apart
                hs in
            let sources = All-map _ _ bs (λ a k. k.source_kept) apart in
            let targets = All-map _ _ bs (λ a k. k.target_kept) apart in
            (
              (
                run-Keeps (later-Keeps b.src (content b.src) bs sources) _ source,
                run-Keeps (later-Keeps b.dst (content b.src) bs targets) _ target,
              ),
              for_all-IsCopied bs _ all next rest,
            ))

    make_layout-Keeps :
        (kept bytes : Bytes)
        → LeavesOthers P.host kept
        → Keeps (Reads P.host kept (some bytes)) (make_layout P B v c)
    unfolding make_layout
    make_layout-Keeps kept bytes others = >>=-Keeps (asks-Keeps _) (λ entries.
        let made = mkdir_p-Keeps P.host kept others (some bytes) in
        and_then-Keeps (made c.bin_dst_host)
          (and_then-Keeps (made entries) (made c.efi_fallback_dir)))

    make_layout-HasSource :
        (bs : List Blob) (w : World P.host.State)
        → AllApart P.host bs
        → All (HasSource w) bs
        → All (HasSource (make_layout P B v c w).1) bs
    make_layout-HasSource [] w apart h = tt
    make_layout-HasSource (b ∷ bs) w (copies, _, all) (h, hs) = (
      run-Keeps (make_layout-Keeps b.src (content b.src) copies.source_apart.others) w h,
      make_layout-HasSource bs w all hs,
    )

    module _
        (created : (dir path : Bytes) (s : P.host.State) (kept : Bytes)
          → P.host.read (B.create dir path s) kept ≡ P.host.read s kept)
        (put_kept : (r : Option Bool) (s : P.host.State) (kept : Bytes)
          → P.host.read (v.put r s) kept ≡ P.host.read s kept) where
      make_entry-Keeps :
          (kept : Bytes) (o : Option Bytes) → Keeps (Reads P.host kept o) (make_entry P B v c)
      unfolding make_entry
      make_entry-Keeps kept o = >>=-Keeps (asks-Keeps (wants_entry P B v c)) (λ wanted.
          if-Keeps wanted
            (call-Keeps _ (λ w p. created P.config.boot_directory c.shim_dst_esp w.host kept ∙ p))
            (pure-Keeps true))

      known_or_found-Keeps :
          (kept : Bytes) (o : Option Bytes) (r : Option Bool)
          → Keeps (Reads P.host kept o) (known_or_found P B v c r)
      unfolding known_or_found set_boot_rec
      known_or_found-Keeps kept o (some r) = pure-Keeps r
      known_or_found-Keeps kept o none =
          >>=-Keeps (asks-Keeps (find_boot_rec P B v c))
            (λ r. call-Keeps _ (λ w p. put_kept (some r) w.host kept ∙ p))

      boot_rec-Keeps :
          (kept : Bytes) (o : Option Bytes) → Keeps (Reads P.host kept o) (boot_rec P B v c)
      unfolding boot_rec
      boot_rec-Keeps kept o =
          >>=-Keeps (asks-Keeps (λ w. v.get w.host)) (known_or_found-Keeps kept o)

      IsCopied-kept :
          {A : Type 0} (m : M P.host.State A)
          → ((kept : Bytes) (o : Option Bytes) → Keeps (Reads P.host kept o) m)
          → (bs : List Blob) (w : World P.host.State) → All (IsCopied w) bs
          → All (IsCopied (m w).1) bs
      IsCopied-kept m k bs w =
          All-map _ _ bs
            (λ b (source, target). (run-Keeps (k b.src _) w source, run-Keeps (k b.dst _) w target))

      finish-IsCopied :
          (image : Bool) (w : World P.host.State)
          → image ≡ false
          → All (IsCopied w) (blobs c)
          → All
              (IsCopied
                ((if image then install_fallback_bootloader P B v c else make_entry P B v c) w).1)
              (blobs c)
      finish-IsCopied true w native h = cc
      finish-IsCopied false w native h =
          IsCopied-kept (make_entry P B v c) make_entry-Keeps (blobs c) w h

      install-IsCopied :
          (w : World P.host.State)
          → AllApart P.host (blobs c)
          → c.is_image_mode ≡ false
          → All (HasSource w) (blobs c)
          → (install P B v c w).0 ≡ true
          → All (IsCopied (install P B v c w).1) (blobs c)
      unfolding install
      install-IsCopied w apart native h ok =
          and_then_true _ _ (λ u. All (IsCopied u) (blobs c)) w ok
            (λ made rest.
              and_then_true _ _ (λ u. All (IsCopied u) (blobs c)) _ rest
                (λ copied _. finish-IsCopied c.is_image_mode _ native (
                  for_all-IsCopied (blobs c) _ apart (make_layout-HasSource (blobs c) w apart h)
                    copied)))

      -- Where an installation outside of an image succeeds, an update is needed only for want of a
      -- boot entry. All sources can be read before, `sendfile` moves bytes of its source to the end
      -- of its target, `rename` moves a file, a file that can be read is there, the copies are apart
      -- from each other, and neither the EFI variables nor what is known of the boot entry are
      -- among the files.
      pub needs_update-install :
          (w : World P.host.State)
          → Exists
          → AllApart P.host (blobs c)
          → c.is_image_mode ≡ false
          → All (HasSource w) (blobs c)
          → (install P B v c w).0 ≡ true
          → (needs_update P B v c (install P B v c w).1).0
            ≡ not (boot_rec P B v c (install P B v c w).1).0
      unfolding needs_update ◌>>=◌ asks
      needs_update-install w exists apart native h ok =
          rw
            (any_outdated-false exists (blobs c) (boot_rec P B v c (install P B v c w).1).1 (
              IsCopied-kept (boot_rec P B v c) boot_rec-Keeps (blobs c) _
                (install-IsCopied w apart native h ok)))
            refl
