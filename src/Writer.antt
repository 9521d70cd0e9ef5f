-- ===== src/Writer.antt =====
-- lib/writer.c: a text that is written in pieces, with an error that stays.
pub mod Sticky
use clr_boot_manager.Prelude.{
  ℕ, Bool, true, false, ◌||◌, Option, none, some, List, [], ◌∷◌, ◌++◌, Bytes, ◌==◌, if◌then◌else◌,
  is_some,
}

-- `CbmWriter`: the text, whether the stream is open, and the error.
pub record CbmWriter : Type 0 where
  pub buffer : Option Bytes
  pub memstream : Bool
  pub error : ℕ

-- EBADF
abbrev pub ebadf : ℕ
ebadf = 9

-- `cbm_writer_open`; the stream is opened with no text.
unfoldable pub writer_open : CbmWriter → Bool × CbmWriter
writer_open writer =
    if is_some writer.buffer || writer.memstream
    then (false, writer)
    else (true, record writer { buffer = some []; memstream = true })

-- `cbm_writer_close`
unfoldable pub writer_close : CbmWriter → CbmWriter
writer_close self = record self { memstream = false }

-- The text of an open stream grows.
unfoldable pub grow : Option Bytes → Bytes → Option Bytes
grow none s = some s
grow (some text) s = some (text ++ s)

-- `cbm_writer_append`, and `cbm_writer_append_printf` on the text that it formats
unfoldable pub writer_append : CbmWriter → Bytes → CbmWriter
writer_append self s =
    if self.error == 0
    then (if self.memstream
        then record self { buffer = grow self.buffer s }
        else record self { error = ebadf })
    else self

-- Calls of `cbm_writer_append` one behind the other.
unfoldable pub append_all : CbmWriter → List Bytes → CbmWriter
append_all self [] = self
append_all self (s ∷ rest) = append_all (writer_append self s) rest

-- The text of a writer; none was written to one that was not opened.
unfoldable pub writer_text : CbmWriter → Bytes
writer_text writer = elim writer.buffer [ none ↦ [] | some text ↦ text ]
