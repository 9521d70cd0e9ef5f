-- ===== src/OsRelease/Quoted.antt =====
-- lib/os-release.c: what is read of a file.
use mathlib.Core.List.{append_assoc}
use mathlib.Core.Path.{subst}
use clr_boot_manager.Prelude.{
  ℕ, ◌≡◌, refl, sym, ◌∙◌, ap, false, some, List, [], ◌∷◌, ◌++◌, Bytes, ◌==◌, codes, streq, All,
  Option, none, map, Option-cases, inl, inr,
}
use clr_boot_manager.Platform.{Platform}
use clr_boot_manager.Libc.{isspace, skip_space, split_at, toupper, has_byte}
use clr_boot_manager.Libc.Scan.{split_at-append}
use clr_boot_manager.Cmdline.{rstrip}
use clr_boot_manager.Cmdline.Options.{IsOption, option, rstrip-append}
use clr_boot_manager.OsRelease.{
  CbmOsReleaseKey, name, version, id, version_id, pretty_name, ansi_color, home_url, support_url,
  bug_report_url, os_release_field, field_of_line, assignment_of_text, assignment, unquote,
  drop_last_quote, drop_first_quote, parse_lines, get_value,
}

-- KEY="VALUE"
abbrev pub quoted : Bytes → Bytes → Bytes
quoted key value = key ++ (b'=' ∷ 34 ∷ (value ++ (34 ∷ [])))

drop_last_quote-append : (s : Bytes) → drop_last_quote (s ++ (34 ∷ [])) ≡ s
unfolding drop_last_quote
drop_last_quote-append [] = refl
drop_last_quote-append (c ∷ []) = refl
drop_last_quote-append (c ∷ d ∷ s) = ap (λ (t : Bytes). c ∷ t) (drop_last_quote-append (d ∷ s))

unquote_quoted : (s : Bytes) → unquote (34 ∷ (s ++ (34 ∷ []))) ≡ s
unfolding unquote
unquote_quoted s =
    ap drop_first_quote (drop_last_quote-append (34 ∷ s)) ∙ unfold drop_first_quote in refl

quote-IsOption : IsOption (34 ∷ [])
unfolding isspace rstrip
quote-IsOption = option refl refl refl

rstrip-quoted : (key value : Bytes) → rstrip (quoted key value) ≡ quoted key value
rstrip-quoted key value =
    ap rstrip (sym (append_assoc key (b'=' ∷ 34 ∷ value) (34 ∷ [])))
    ∙ rstrip-append (key ++ (b'=' ∷ 34 ∷ value)) (34 ∷ []) quote-IsOption
    ∙ append_assoc key (b'=' ∷ 34 ∷ value) (34 ∷ [])

skip_space_dark : (c : ℕ) (s : Bytes) → isspace c ≡ false → skip_space (c ∷ s) ≡ c ∷ s
unfolding skip_space
skip_space_dark c s dark = rw dark

assignment_of_text_plain :
    (c : ℕ) (s : Bytes)
    → (c == b'#') ≡ false
    → assignment_of_text (c ∷ s) ≡ assignment (split_at b'=' (rstrip (c ∷ s)))
unfolding assignment_of_text
assignment_of_text_plain c s plain = rw plain

assignment_quoted :
    (c : ℕ) (key value : Bytes)
    → assignment (c ∷ key, b'=' ∷ 34 ∷ (value ++ (34 ∷ []))) ≡ some (map toupper (c ∷ key), value)
unfolding assignment
assignment_quoted c key value = rw (unquote_quoted value)

-- A line KEY="VALUE" gives the key in upper case and the value, if the key starts with neither white
-- space nor `#` and holds no `=`.
pub field_of_line-quoted :
    (c : ℕ) (key value : Bytes)
    → isspace c ≡ false
    → (c == b'#') ≡ false
    → has_byte b'=' (c ∷ key) ≡ false
    → field_of_line (quoted (c ∷ key) value) ≡ some (map toupper (c ∷ key), value)
unfolding field_of_line
field_of_line-quoted c key value dark plain h =
    rw
      (
        skip_space_dark c _ dark,
        assignment_of_text_plain c _ plain,
        rstrip-quoted (c ∷ key) value,
        split_at-append b'=' (c ∷ key) _ h,
      )
      (assignment_quoted c key value)

field_line :
    (key : CbmOsReleaseKey) (value : Bytes)
    → field_of_line (quoted (os_release_field key) value) ≡ some (os_release_field key, value)
unfolding os_release_field isspace has_byte toupper
field_line name value = field_of_line-quoted b'N' (codes "AME") value refl refl refl
field_line version value = field_of_line-quoted b'V' (codes "ERSION") value refl refl refl
field_line id value = field_of_line-quoted b'I' (codes "D") value refl refl refl
field_line version_id value = field_of_line-quoted b'V' (codes "ERSION_ID") value refl refl refl
field_line pretty_name value = field_of_line-quoted b'P' (codes "RETTY_NAME") value refl refl refl
field_line ansi_color value = field_of_line-quoted b'A' (codes "NSI_COLOR") value refl refl refl
field_line home_url value = field_of_line-quoted b'H' (codes "OME_URL") value refl refl refl
field_line support_url value = field_of_line-quoted b'S' (codes "UPPORT_URL") value refl refl refl
field_line bug_report_url value =
    field_of_line-quoted b'B' (codes "UG_REPORT_URL") value refl refl refl

-- What is relied on of libnica's hash map: a value that was put under a key is found there, and the
-- other keys are left alone.
pub record IsHashMap (P : Platform) : Type 0 where
  pub same :
      (key value : Bytes) (m : List (Bytes × Bytes))
      → P.map_get key (P.map_put key value m) ≡ some value
  pub other :
      (key value field : Bytes) (m : List (Bytes × Bytes))
      → streq key field ≡ false
      → P.map_get field (P.map_put key value m) ≡ P.map_get field m

-- What was read of a line is no value of the field.
abbrev pub IsOther : Bytes → Option (Bytes × Bytes) → Type 0
IsOther field none = Unit
IsOther field (some (key, value)) = streq key field ≡ false

module _ (P : Platform) (law : IsHashMap P) where
  parse_lines-others :
      (ls : List Bytes) (field value : Bytes) (m : List (Bytes × Bytes))
      → All (λ l. IsOther field (field_of_line l)) ls
      → P.map_get field m ≡ some value
      → P.map_get field (parse_lines P m ls) ≡ some value
  unfolding parse_lines
  parse_lines-others [] field value m others e = e
  parse_lines-others (l ∷ ls) field value m (other, others) e =
      elim (Option-cases (field_of_line l)) [
        | inl skip ↦ rw (skip, parse_lines) (parse_lines-others ls field value m others e)
        | inr ((k, v), found) ↦
            rw (found, parse_lines)
              (parse_lines-others ls field value (P.map_put k v m) others
                (law.other k v field m (subst (IsOther field) found other) ∙ e))
      ]

  parse_lines-last :
      (before after : List Bytes) (line field value : Bytes) (m : List (Bytes × Bytes))
      → field_of_line line ≡ some (field, value)
      → All (λ l. IsOther field (field_of_line l)) after
      → P.map_get field (parse_lines P m (before ++ (line ∷ after))) ≡ some value
  unfolding parse_lines
  parse_lines-last [] after line field value m e others =
      rw (e, parse_lines) (parse_lines-others after field value _ others (law.same field value m))
  parse_lines-last (l ∷ before) after line field value m e others =
      elim (Option-cases (field_of_line l)) [
        | inl skip ↦
            rw (skip, parse_lines) (parse_lines-last before after line field value m e others)
        | inr ((k, v), found) ↦
            rw (found, parse_lines)
              (parse_lines-last before after line field value (P.map_put k v m) e others)
      ]

  -- The value of a field is the one that a line FIELD="VALUE" gives it, if none of the lines behind it
  -- gives the field another, whatever the lines before it say and whichever other fields there are. A
  -- value that is put in libnica's hash map is found there, and the other keys are left alone.
  pub get_value-parse_lines :
      (key : CbmOsReleaseKey) (value : Bytes) (before after : List Bytes) (m : List (Bytes × Bytes))
      → All (λ l. IsOther (os_release_field key) (field_of_line l)) after
      → get_value P (parse_lines P m (before ++ (quoted (os_release_field key) value ∷ after))) key
        ≡ value
  unfolding get_value
  get_value-parse_lines key value before after m others = rw (
    get_value,
    parse_lines-last before after _ (os_release_field key) value m (field_line key value) others,
  )
