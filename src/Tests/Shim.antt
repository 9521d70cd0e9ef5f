-- ===== src/Tests/Shim.antt =====
-- shim-systemd on a system that has files, and what is known of the boot entry beside them.
use clr_boot_manager.Tests.TextMap.{put, get}
use clr_boot_manager.Prelude.{
  All, ◌≡◌, refl, true, false, not, Bool, ◌&&◌, Option, some, List, [], ◌∷◌, ◌++◌, Bytes, codes,
  streq,
}
use clr_boot_manager.Platform.{Host, Platform, World}
use clr_boot_manager.Monad.{and_then, asks, call, pure, for_all, ◌>>=◌, ◌>>◌}
use clr_boot_manager.Files.{
  cbm_sync, copy_file_atomic, copy_file, send_stat, send_all, on_sent, clear_kind, clear_target,
  replace_target,
}
use clr_boot_manager.Files.Frame.{LeavesOthers}
use clr_boot_manager.BootLoaders.SdClass.Blob.Current.{IsApart, Copies}
use clr_boot_manager.BootLoaders.SdClass.Vtable.{Variable}
use clr_boot_manager.BootLoaders.Shim.{ShimSystemdConfig, Blob, blobs}
use clr_boot_manager.BootLoaders.Shim.Install.{
  BootVar, boot_rec, make_layout, copy_blob, make_entry, wants_entry, install, needs_update,
}
use clr_boot_manager.BootLoaders.Shim.Install.Current.{
  AreApart, AllApart, HasSource, Exists, needs_update-install,
}
use clr_boot_manager.Tests.Disk.{disk, set, send, disk-SendsBytes, disk-Replaces, disk-LeavesOthers}
use clr_boot_manager.Tests.Machine.{build, boot_loader, manager}
use clr_boot_manager.Tests.Session.{beside}

abbrev shim_host : Host
shim_host = beside (Option Bool) disk

abbrev shim_platform : Platform
shim_platform = record {
  host = shim_host;
  config = build;
  loader = λ i. boot_loader 38;
  known_loaders = [];
  qsort = λ compare ks. ks;
  map_order = λ m. m;
  initrd_order = λ m. m;
  map_put = put;
  map_get = get;
}

-- A firmware without the boot entry.
abbrev boot_var : BootVar shim_host.State
boot_var = record {
  init = λ s. s;
  destroy = λ s. s;
  has_boot_rec = λ s dir path. false;
  create = λ dir path s. s;
}

abbrev known : Variable shim_host.State (Option Bool)
known = record { get = λ s. s.1; put = λ a s. (s.0, a) }

abbrev config : ShimSystemdConfig
config = record {
  shim_src = codes "a";
  mm_src = codes "b";
  fb_src = codes "c";
  systemd_src = codes "d";
  shim_dst_host = codes "A";
  mm_dst_host = codes "B";
  fb_dst_host = codes "C";
  systemd_dst_host = codes "D";
  shim_dst_esp = codes "A";
  efi_fallback_dir = codes "F";
  efi_fallback_dst_host = codes "E";
  bin_dst_esp = codes "G";
  is_image_mode = false;
  bin_dst_host = codes "G";
  vendor_mok = codes "e";
  mok_dst = codes "H";
  bootcsv_src = codes "f";
  bootcsv_dst_host = codes "I";
}

-- Every source has its name as its bytes.
abbrev sources : World shim_host.State
sources = record { manager = manager true; host = (λ path. some path, some true) }

both_true : (a b : Bool) → (a && b) ≡ true → (a ≡ true) × (b ≡ true)
both_true true b h = (refl, h)
both_true false b h = cc

not-true : (a : Bool) → not a ≡ true → a ≡ false
not-true true h = cc
not-true false h = refl

-- The tests of the files by their names.
abbrev is_apart : Bytes → Bytes → Bool
is_apart target kept = not (streq target kept) && not (streq (target ++ codes ".TmpWrite") kept)

abbrev are_apart : Blob → Blob → Bool
are_apart earlier b =
    is_apart b.dst earlier.src && (is_apart b.dst earlier.dst && is_apart earlier.dst b.src)

abbrev apart_from_all : Blob → List Blob → Bool
apart_from_all b [] = true
apart_from_all b (a ∷ bs) = are_apart b a && apart_from_all b bs

abbrev copies_alone : Blob → Bool
copies_alone b = is_apart b.dst b.src && not (streq b.dst (b.dst ++ codes ".TmpWrite"))

abbrev all_apart : List Blob → Bool
all_apart [] = true
all_apart (b ∷ bs) = copies_alone b && (apart_from_all b bs && all_apart bs)

shim_host-LeavesOthers : (kept : Bytes) → LeavesOthers shim_host kept
shim_host-LeavesOthers kept =
    let others = disk-LeavesOthers kept in
    record {
      synced = λ s. others.synced s.0;
      directory_made = λ path s. others.directory_made path s.0;
      created = λ path s. others.created path s.0;
      written = λ path text s. others.written path text s.0;
      unlinked = λ path s. others.unlinked path s.0;
      renamed = λ from to s. others.renamed from to s.0;
      sent = λ target src off count s. others.sent target src off count s.0;
    }

shim_host-IsApart :
    (target kept : Bytes) → is_apart target kept ≡ true → IsApart shim_host target kept
shim_host-IsApart target kept h = record {
  others = shim_host-LeavesOthers kept;
  target_apart = not-true (streq target kept) (both_true _ _ h).0;
  temporary_apart = not-true (streq (target ++ codes ".TmpWrite") kept) (both_true _ _ h).1;
}

shim_host-Copies : (b : Blob) → copies_alone b ≡ true → Copies shim_host b.src b.dst
shim_host-Copies b h =
    let new_name = b.dst ++ codes ".TmpWrite" in
    let apart = both_true (is_apart b.dst b.src) (not (streq b.dst new_name)) h in
    let sends =
      disk-SendsBytes new_name b.src (shim_host-IsApart b.dst b.src apart.0).temporary_apart in
    let replaces = disk-Replaces new_name b.dst (not-true _ apart.1) in
    record {
      sends = record {
        sent = λ content out off count written s. sends.sent content out off count written s.0;
        bounded = λ off count written s. sends.bounded off count written s.0;
        source_kept = λ off count s. sends.source_kept off count s.0;
        created = λ content s. sends.created content s.0;
        size = λ content st s. sends.size content st s.0;
      };
      replaces = record {
        renamed = λ s. replaces.renamed s.0;
        unlinked = λ s. replaces.unlinked s.0;
        synced = λ path s. replaces.synced path s.0;
      };
      source_apart = shim_host-IsApart b.dst b.src apart.0;
    }

apart_from_all-All :
    (b : Blob) (bs : List Blob) → apart_from_all b bs ≡ true → All (AreApart shim_host b) bs
apart_from_all-All b [] h = tt
apart_from_all-All b (a ∷ bs) h =
    let parts = both_true (are_apart b a) (apart_from_all b bs) h in
    let here =
      both_true (is_apart a.dst b.src) (is_apart a.dst b.dst && is_apart b.dst a.src) parts.0 in
    let targets = both_true (is_apart a.dst b.dst) (is_apart b.dst a.src) here.1 in
    (
      record {
        source_kept = shim_host-IsApart _ _ here.0;
        target_kept = shim_host-IsApart _ _ targets.0;
        next_kept = shim_host-IsApart _ _ targets.1;
      },
      apart_from_all-All b bs parts.1,
    )

all_apart-AllApart : (bs : List Blob) → all_apart bs ≡ true → AllApart shim_host bs
all_apart-AllApart [] h = tt
all_apart-AllApart (b ∷ bs) h =
    let parts = both_true (copies_alone b) (apart_from_all b bs && all_apart bs) h in
    let rest = both_true (apart_from_all b bs) (all_apart bs) parts.1 in
    (shim_host-Copies b parts.0, apart_from_all-All b bs rest.0, all_apart-AllApart bs rest.1)

exists : Exists shim_platform (λ path. path)
exists s path bytes read = rw read refl

config-AllApart : AllApart shim_host (blobs config)
unfolding blobs streq
config-AllApart = all_apart-AllApart (blobs config) refl

config-HasSource : All (HasSource shim_platform (λ path. path) sources) (blobs config)
unfolding blobs
config-HasSource = (refl, (refl, (refl, (refl, (refl, (refl, (refl, tt)))))))

installed : (install shim_platform boot_var known config sources).0 ≡ true
unfolding install make_layout copy_blob make_entry wants_entry for_all blobs and_then asks call pure
    ◌>>=◌ ◌>>◌ cbm_sync streq set send copy_file_atomic copy_file send_stat send_all on_sent
    clear_kind clear_target replace_target
installed = refl

needs_update-install_example :
    (needs_update shim_platform boot_var known config
      (install shim_platform boot_var known config sources).1).0
    ≡ not
        (boot_rec shim_platform boot_var known config
          (install shim_platform boot_var known config sources).1).0
needs_update-install_example =
    needs_update-install shim_platform (λ path. path) boot_var known config
      (λ dir path s kept. refl) (λ r s kept. refl) sources exists config-AllApart refl
      config-HasSource installed
