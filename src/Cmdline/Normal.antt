-- ===== src/Cmdline/Normal.antt =====
-- lib/cmdline.c: the text that is made of a command line file is in a normal form, which the parser
-- does not change.
use mathlib.Core.List.{append-nil}
use clr_boot_manager.Prelude.{
  ◌≡◌, refl, true, false, some, List, [], ◌∷◌, ◌++◌, Bytes, Option-cases, inl, inr, All,
}
use clr_boot_manager.Libc.{lines, has_byte}
use clr_boot_manager.Libc.Lines.{NoNewline, lines-All, has_byte-append}
use clr_boot_manager.Cmdline.{option_of_line, write_options, parse_file_internal}
use clr_boot_manager.Cmdline.Options.{
  IsOption, option, option_of_line-IsOption, option_of_line-has_byte, IsOption-join,
}

-- A text behind what was written before it.
abbrev spaced : Bytes → Bytes
spaced [] = []
spaced (c ∷ s) = b' ' ∷ c ∷ s

-- Empty, or a single line that is an option.
pub data IsNormal : Bytes → Type 0 where
  blank : IsNormal []
  filled : {t : Bytes} → IsOption t → NoNewline t → IsNormal t

write_options-spaced : (ls : List Bytes) → write_options true ls ≡ spaced (write_options false ls)
unfolding write_options
write_options-spaced [] = refl
write_options-spaced (line ∷ ls) = elim (Option-cases (option_of_line line)) [
  | inl e ↦ rw (e, write_options) (write_options-spaced ls)
  | inr (l, e) ↦ rw (e, write_options) (written l (option_of_line-IsOption line l e))
]
  where
    written :
        (l : Bytes)
        → IsOption l
        → (b' ' ∷ l) ++ write_options true ls ≡ spaced (l ++ write_options true ls)
    written l (option dark plain stripped) = refl

join-IsNormal : (l t : Bytes) → IsOption l → NoNewline l → IsNormal t → IsNormal (l ++ spaced t)
join-IsNormal l t o n blank = rw append-nil (filled o n)
join-IsNormal l t o n (filled (option dark plain stripped) m) =
    filled (IsOption-join l _ o (option dark plain stripped))
      (has_byte-append b'\n' l _ n (unfold has_byte in m))

write_options-IsNormal : (ls : List Bytes) → All NoNewline ls → IsNormal (write_options false ls)
unfolding write_options
write_options-IsNormal [] a = blank
write_options-IsNormal (line ∷ ls) (n, a) = elim (Option-cases (option_of_line line)) [
  | inl e ↦ rw (e, write_options) (write_options-IsNormal ls a)
  | inr (l, e) ↦
      rw (e, write_options, write_options-spaced ls)
        (join-IsNormal l _ (option_of_line-IsOption line l e)
          (option_of_line-has_byte b'\n' line l e n) (write_options-IsNormal ls a))
]

-- What is written for a file is empty, or one line that starts with neither white space nor `#` and
-- does not end with white space.
pub parse_file-IsNormal : (content : Bytes) → IsNormal (parse_file_internal (some content))
unfolding parse_file_internal
parse_file-IsNormal content = write_options-IsNormal (lines content) (lines-All content)
