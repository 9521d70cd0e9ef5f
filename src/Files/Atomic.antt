-- ===== src/Files/Atomic.antt =====
-- lib/files.c: an atomic copy that succeeds leaves the bytes of the source at its target.
use clr_boot_manager.Prelude.{
  ◌≡◌, refl, ◌∙◌, true, Option, none, some, ◌++◌, Bytes, codes, Bool-cases, inl, inr,
}
use clr_boot_manager.Platform.{Host, Stat, FileKind, regular, symlink, directory, other, World}
use clr_boot_manager.Monad.{pure, ◌>>=◌, ◌>>◌, and_then, asks, call}
use clr_boot_manager.Files.{
  cbm_sync, copy_file, clear_kind, clear_target, replace_target, copy_file_atomic,
}
use clr_boot_manager.Files.Copy.{SendsBytes, copy_file-copies, absurd_of}

-- `rename` moves the bytes of a file, `unlink` leaves other files alone, and `sync` all.
pub record Replaces (H : Host) (new_name target : Bytes) : Type 0 where
  pub renamed :
      (s : H.State)
      → (H.rename new_name target s).0 ≡ true
      → H.read (H.rename new_name target s).1 target ≡ H.read s new_name
  pub unlinked : (s : H.State) → H.read (H.unlink target s).1 new_name ≡ H.read s new_name
  pub synced : (path : Bytes) (s : H.State) → H.read (H.sync s) path ≡ H.read s path

module _ (H : Host) (new_name target : Bytes) (replaces : Replaces H new_name target) where
  unlinked_kept :
      (w : World H.State)
      → H.read (and_then (call (H.unlink target)) (cbm_sync H >> pure true) w).1.host new_name
        ≡ H.read w.host new_name
  unfolding cbm_sync and_then call pure ◌>>◌
  unlinked_kept w = elim (Bool-cases (H.unlink target w.host).0) [
    | inl gone ↦ rw gone (replaces.synced new_name _ ∙ replaces.unlinked w.host)
    | inr kept ↦ rw kept (replaces.unlinked w.host)
  ]

  clear_kind-kept :
      (k : FileKind) (w : World H.State)
      → H.read (clear_kind H target k w).1.host new_name ≡ H.read w.host new_name
  unfolding clear_kind cbm_sync and_then call pure ◌>>◌
  clear_kind-kept directory w = replaces.synced new_name w.host
  clear_kind-kept regular w = unlinked_kept w
  clear_kind-kept symlink w = unlinked_kept w
  clear_kind-kept other w = unlinked_kept w

  clear_target-kept :
      (st : Option Stat) (w : World H.State)
      → H.read (clear_target H target st w).1.host new_name ≡ H.read w.host new_name
  unfolding clear_target pure
  clear_target-kept none w = refl
  clear_target-kept (some st) w = clear_kind-kept st.kind w

  replace_target-copies :
      (content : Bytes) (w : World H.State)
      → H.read w.host new_name ≡ some content
      → (replace_target H new_name target w).0 ≡ true
      → H.read (replace_target H new_name target w).1.host target ≡ some content
  unfolding replace_target cbm_sync and_then asks call pure ◌>>=◌ ◌>>◌
  replace_target-copies content w has ok =
      let synced = (cbm_sync H w).1 in
      let cleared = clear_target H target (H.stat synced.host target) synced in
      elim (Bool-cases cleared.0) [
        | inl clear ↦ elim (Bool-cases (H.rename new_name target cleared.1.host).0) [
          | inl moved ↦
              rw (clear, moved)
                (replaces.synced target _
                  ∙ replaces.renamed cleared.1.host moved
                  ∙ clear_target-kept _ synced
                  ∙ replaces.synced new_name w.host
                  ∙ has)
          | inr kept ↦ absurd_of (rw (clear, kept) at ok)
        ]
        | inr kept ↦ absurd_of (rw kept at ok)
      ]

-- Where `copy_file_atomic` succeeds, the target holds the bytes of the source. The source is not the
-- temporary file beside the target, `sendfile` appends bytes of its source to its target, `rename`
-- moves a file, and `unlink` and `sync` leave the temporary file alone.
pub copy_file_atomic-copies :
    (H : Host) (src target : Bytes)
    → SendsBytes H (target ++ codes ".TmpWrite") src
    → Replaces H (target ++ codes ".TmpWrite") target
    → (content : Bytes) (w : World H.State) → H.read w.host src ≡ some content
    → (copy_file_atomic H src target w).0 ≡ true
    → H.read (copy_file_atomic H src target w).1.host target ≡ some content
unfolding copy_file_atomic ◌>>=◌ ◌>>◌ call pure
copy_file_atomic-copies H src target sends replaces content w has ok =
    let new_name = target ++ codes ".TmpWrite" in
    let copied = copy_file H src new_name w in
    elim (Bool-cases copied.0) [
      | inl good ↦ rw good (
          replace_target-copies H new_name target replaces content copied.1
            (copy_file-copies H new_name src sends content w has good) (rw good at ok))
      | inr bad ↦ absurd_of (rw bad at ok)
    ]
