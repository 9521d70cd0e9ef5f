-- ===== src/Files/Text.antt =====
-- lib/files.c: files that are read and written as a whole.
use clr_boot_manager.Prelude.{Bool, true, false, Option, none, some, Bytes, if◌then◌else◌, streq}
use clr_boot_manager.Kernel.Inspect.{c_string}
use clr_boot_manager.Platform.{Host, World, M}
use clr_boot_manager.Monad.{pure, ◌>>=◌, ◌>>◌, and_then, asks, call}
use clr_boot_manager.Files.{cbm_sync}

-- Whether a file could be read, and held the text.
unfoldable pub holds : Bytes → Option Bytes → Bool
holds text none = false
holds text (some old) = streq old text

module _ (H : Host) where
  -- `nc_file_exists(path) && unlink(path)`: what is not there counts as removed.
  unfoldable pub unlink_if_there : Bytes → M H.State Bool
  unlink_if_there path = do
    there ← asks (λ w. H.file_exists w.host path)
    if there then call (H.unlink path) else pure true

  -- The text is written, and the file systems are synced whether that succeeds or not.
  unfoldable pub write_synced : Bytes → Bytes → M H.State Bool
  write_synced path text = do written ← call (H.write path text); cbm_sync H >> pure written

  -- `file_set_text`
  unfoldable pub file_set_text : Bytes → Bytes → M H.State Bool
  file_set_text path text = and_then (unlink_if_there path) (cbm_sync H >> write_synced path text)

  -- `file_get_text`; none if the file cannot be opened. The text ends at the first NUL.
  unfoldable pub file_get_text : Bytes → World H.State → Option Bytes
  unfolding c_string
  file_get_text path w = elim (H.read w.host path) [
    | none ↦ none
    | some content ↦ some (c_string content)
  ]

  unfoldable pub file_holds : Bytes → Bytes → World H.State → Bool
  unfolding holds file_get_text
  file_holds path text w = holds text (file_get_text path w)

  -- A file that holds the text already is left alone.
  unfoldable pub write_if_changed : Bytes → Bytes → M H.State Bool
  write_if_changed path text = do
    same ← asks (file_holds path text)
    if same then pure true else and_then (file_set_text path text) (cbm_sync H >> pure true)
