-- ===== src/Tests/Disk.antt =====
-- A system whose state is its files.
use clr_boot_manager.Tests.TextMap.{put, get}
use clr_boot_manager.Prelude.{
  sym, ap, ◌∙◌, ℕ, false, ◌++◌, length, take, drop, ◌≡◌, refl, true, Option, none, some, [], ◌∷◌,
  Bytes, codes, streq, streq_refl, is_some, if◌then◌else◌, arith,
}
use clr_boot_manager.Platform.{Stat, regular, no_match, Host, Platform}
use clr_boot_manager.Files.Copy.{SendsBytes}
use clr_boot_manager.Files.Atomic.{Replaces}
use clr_boot_manager.Files.Frame.{LeavesOthers}
use clr_boot_manager.Files.Stored.{StoresTexts}
use clr_boot_manager.BootMan.Config.Timeout.{StoresFiles}
use clr_boot_manager.Tests.Machine.{build, boot_loader, root_probe, path_below}

unfoldable pub set : Bytes → Option Bytes → (Bytes → Option Bytes) → Bytes → Option Bytes
set path content s p = if streq path p then content else s p

-- What sendfile makes of the files, from the contents of its source and of its target.
unfoldable pub send :
    Option Bytes → Option Bytes → Bytes → ℕ → ℕ → (Bytes → Option Bytes) → Bytes → Option Bytes
send (some content) (some out) target off count s =
    set target (some (out ++ take count (drop off content))) s
send _ _ target off count s = s

abbrev pub disk : Host
disk = record {
  State = Bytes → Option Bytes;
  file_exists = λ s path. is_some (s path);
  read = λ s path. s path;
  stat = λ s path. elim (s path) [
    | none ↦ none
    | some text ↦ some (record { kind = regular; size = length text })
  ];
  lstat = λ s path. some (record { kind = regular; size = 1 });
  realpath = λ s path. some path;
  readlink = λ s path. none;
  list_dir = λ s path. some [];
  glob = λ s path. no_match;
  unlink = λ path s. (true, set path none s);
  rm_rf = λ path s. (true, s);
  mkdir_p = λ path s. (true, s);
  rename = λ from to s. (true, set to (s from) s);
  create = λ path s. (true, set path (some []) s);
  write = λ path text s. (true, set path (some text) s);
  sendfile = λ target src off count s. (some count, send (s src) (s target) target off count s);
  sync = λ s. s;
  mounts = λ s. some (record { mnt_fsname = codes "/dev/sda1"; mnt_dir = codes "//boot" } ∷ []);
  mount = λ device target fs s. (true, s);
  umount = λ path s. (true, s);
  executable = λ s path. true;
  system = λ command s. (true, s);
  write_device = λ path bytes s. (some (length bytes), s);
  symlink = λ target path s. (true, s);
  chmod_executable = λ path s. (true, s);
  getenv = λ s name. none;
  sysfs_path = codes "/sys";
  devfs_path = codes "/dev";
  wholedisk_of_device = λ s path. none;
  wholedisk_of_path = λ s path. none;
  devno_to_devname = λ s n. none;
  safeprobe = λ s path. true;
  partitions = λ s path. none;
  blkid_type = λ s path. some (codes "vfat");
  probe_path = λ s path. some root_probe;
  build_case_correct_path = λ s root names. path_below root names;
}

send-elsewhere :
    (a b : Option Bytes) (target path : Bytes) (off count : ℕ) (s : Bytes → Option Bytes)
    → streq target path ≡ false
    → send a b target off count s path ≡ s path
unfolding send set
send-elsewhere none b target path off count s h = refl
send-elsewhere (some content) none target path off count s h = refl
send-elsewhere (some content) (some out) target path off count s h = rw h

send-target :
    (content out target : Bytes) (off count : ℕ) (s : Bytes → Option Bytes)
    → send (some content) (some out) target off count s target
      ≡ some (out ++ take count (drop off content))
unfolding send set
send-target content out target off count s = rw (streq_refl target)

same : {A : Type 0} {a b : A} → some a ≡ some b → a ≡ b
same e = cc

pub disk-SendsBytes : (target src : Bytes) → streq target src ≡ false → SendsBytes disk target src
unfolding send set
disk-SendsBytes target src apart = record {
  sent = λ content out off count written s has got moved.
      rw (has, got)
        (send-target content out target off count s
          ∙ ap (λ (n : ℕ). some (out ++ take n (drop off content))) (same moved));
  bounded = λ off count written s moved. omega (arith, same moved);
  source_kept = λ off count s. send-elsewhere (s src) (s target) target src off count s apart;
  created = λ content s has made. (rw (streq_refl target), rw apart has);
  size = λ content st s has found. sym (ap (λ (t : Stat). t.size) (same (rw has at found)));
}

pub disk-Replaces :
    (new_name target : Bytes) → streq target new_name ≡ false → Replaces disk new_name target
unfolding set
disk-Replaces new_name target apart = record {
  renamed = λ s moved. rw (streq_refl target);
  unlinked = λ s. rw apart;
  synced = λ path s. refl;
}

pub disk-LeavesOthers : (kept : Bytes) → LeavesOthers disk kept
unfolding set
disk-LeavesOthers kept = record {
  synced = λ s. refl;
  directory_made = λ path s. refl;
  created = λ path s apart. rw apart;
  written = λ path text s apart. rw apart;
  unlinked = λ path s apart. rw apart;
  renamed = λ from to s from_apart apart. rw apart;
  sent = λ target src off count s apart.
      send-elsewhere (s src) (s target) target kept off count s apart;
}

pub disk-StoresTexts : StoresTexts disk
unfolding set
disk-StoresTexts = record {
  written_read = λ path text s ok. rw (streq_refl path);
  synced_read = λ path s. refl;
}

pub disk-StoresFiles : StoresFiles disk
unfolding set
disk-StoresFiles = record {
  written_there = λ path text s ok. rw (streq_refl path);
  written_read = λ path text s ok. rw (streq_refl path);
  removed_gone = λ path s ok. rw (streq_refl path);
}

abbrev pub platform_of_disk : Platform
platform_of_disk = record {
  host = disk;
  config = build;
  loader = λ i. boot_loader 38;
  known_loaders = [];
  qsort = λ compare ks. ks;
  map_order = λ m. m;
  initrd_order = λ m. m;
  map_put = put;
  map_get = get;
}
