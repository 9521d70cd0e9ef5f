-- ===== src/Writer/Sticky.antt =====
-- lib/writer.c: what a sequence of calls leaves in the writer.
use mathlib.Core.List.{append-nil, append_assoc}
use clr_boot_manager.Prelude.{
  ◌≡◌, refl, sym, ◌∙◌, true, false, none, some, List, [], ◌∷◌, ◌++◌, Bytes, ◌==◌,
}
use clr_boot_manager.Writer.{
  CbmWriter, ebadf, writer_open, writer_close, writer_append, append_all, grow,
}

-- The pieces in a row.
unfoldable pub concat : List Bytes → Bytes
concat [] = []
concat (s ∷ rest) = s ++ concat rest

pub concat-append : (xs ys : List Bytes) → concat (xs ++ ys) ≡ concat xs ++ concat ys
unfolding concat
concat-append [] ys = refl
concat-append (x ∷ xs) ys = rw (concat-append xs ys) (sym (append_assoc x (concat xs) (concat ys)))

append_all-grow :
    (ss : List Bytes) (text : Bytes)
    → append_all (record { buffer = some text; memstream = true; error = 0 }) ss
      ≡ record { buffer = some (text ++ concat ss); memstream = true; error = 0 }
unfolding append_all writer_append grow concat
append_all-grow [] text = rw append-nil
append_all-grow (s ∷ ss) text =
    append_all-grow ss (text ++ s) ∙ rw (append_assoc text s (concat ss))

-- A new writer that is opened, written to piece by piece and closed holds the pieces in a row, and no
-- error.
pub append_all-writer_open :
    (ss : List Bytes)
    → writer_close
        (append_all (writer_open (record { buffer = none; memstream = false; error = 0 })).1 ss)
      ≡ record { buffer = some (concat ss); memstream = false; error = 0 }
unfolding writer_open writer_close
append_all-writer_open ss = rw (append_all-grow ss [])

append_all-error :
    (ss : List Bytes) (self : CbmWriter) → (self.error == 0) ≡ false → append_all self ss ≡ self
unfolding append_all writer_append
append_all-error [] self bad = refl
append_all-error (s ∷ ss) self bad = rw bad (append_all-error ss self bad)

-- What is written to a writer behind its close is lost: the text stays as it was, and the error is
-- EBADF where there was none before.
append_all-writer_close :
    (s : Bytes) (ss : List Bytes) (self : CbmWriter)
    → self.error ≡ 0
    → append_all (writer_close self) (s ∷ ss) ≡ record self { memstream = false; error = ebadf }
unfolding append_all writer_append writer_close
append_all-writer_close s ss self fine = rw fine (append_all-error ss _ refl)
