-- ===== src/Files/Stored.antt =====
-- lib/files.c: a text that was stored is the text that is read.
use clr_boot_manager.Prelude.{
  ◌≡◌, ◌∙◌, ap, true, Option, none, some, Bytes, streq_iff, Bool-cases, inl, inr,
}
use clr_boot_manager.Kernel.Inspect.{c_string}
use clr_boot_manager.Platform.{Host, World}
use clr_boot_manager.Monad.{pure, ◌>>=◌, ◌>>◌, and_then, asks, call}
use clr_boot_manager.Files.{cbm_sync}
use clr_boot_manager.Files.Copy.{absurd_of}
use clr_boot_manager.Files.Text.{
  unlink_if_there, write_synced, file_set_text, file_get_text, holds, file_holds, write_if_changed,
}

-- What was written is read, and a sync leaves it alone.
pub record StoresTexts (H : Host) : Type 0 where
  pub written_read :
      (path text : Bytes) (s : H.State)
      → (H.write path text s).0 ≡ true
      → H.read (H.write path text s).1 path ≡ some text
  pub synced_read : (path : Bytes) (s : H.State) → H.read (H.sync s) path ≡ H.read s path

module _ (H : Host) (stores : StoresTexts H) (path text : Bytes) (fits : c_string text ≡ text) where
  read-file_get_text :
      (w : World H.State) → H.read w.host path ≡ some text → file_get_text H path w ≡ some text
  unfolding file_get_text
  read-file_get_text w e = rw (file_get_text, e) (ap some fits)

  cbm_sync-file_get_text :
      (w : World H.State) → file_get_text H path (cbm_sync H w).1 ≡ file_get_text H path w
  unfolding cbm_sync call file_get_text
  cbm_sync-file_get_text w = rw (file_get_text, stores.synced_read path w.host)

  write_synced-file_get_text :
      (w : World H.State)
      → (write_synced H path text w).0 ≡ true
      → file_get_text H path (write_synced H path text w).1 ≡ some text
  unfolding write_synced call pure ◌>>=◌ ◌>>◌
  write_synced-file_get_text w ok =
      cbm_sync-file_get_text (call (H.write path text) w).1
      ∙ read-file_get_text (call (H.write path text) w).1 (stores.written_read path text w.host ok)

  pub file_get_text-file_set_text :
      (w : World H.State)
      → (file_set_text H path text w).0 ≡ true
      → file_get_text H path (file_set_text H path text w).1 ≡ some text
  unfolding file_set_text and_then ◌>>◌
  file_get_text-file_set_text w ok = elim (Bool-cases (unlink_if_there H path w).0) [
    | inl gone ↦ rw gone (write_synced-file_get_text _ (rw gone at ok))
    | inr kept ↦ absurd_of (rw kept at ok)
  ]

  holds-some : (o : Option Bytes) → holds text o ≡ true → o ≡ some text
  unfolding holds
  holds-some none h = absurd_of h
  holds-some (some old) h = ap some ((streq_iff old text).0 h)

  -- A text that was written, or was there already, is the text that is read.
  pub file_get_text-write_if_changed :
      (w : World H.State)
      → (write_if_changed H path text w).0 ≡ true
      → file_get_text H path (write_if_changed H path text w).1 ≡ some text
  unfolding write_if_changed and_then ◌>>=◌ ◌>>◌ asks pure
  file_get_text-write_if_changed w ok = elim (Bool-cases (file_holds H path text w)) [
    | inl same ↦ rw same (holds-some (file_get_text H path w) (unfold file_holds in same))
    | inr differs ↦ elim (Bool-cases (file_set_text H path text w).0) [
      | inl set ↦
          rw (differs, set)
            (cbm_sync-file_get_text (file_set_text H path text w).1
              ∙ file_get_text-file_set_text w set)
      | inr kept ↦ absurd_of (rw (differs, kept) at ok)
    ]
  ]
