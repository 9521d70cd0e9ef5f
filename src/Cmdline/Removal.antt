-- ===== src/Cmdline/Removal.antt =====
-- lib/cmdline.c: the removal of options from a command line.
use clr_boot_manager.Prelude.{
  ℕ, ◌+◌, ◌≤◌, ◌≡◌, ◌∙◌, ap, false, Option, none, some, [], ◌∷◌, ◌++◌, Bytes, ◌==◌, arith, length,
  starts_with,
}
use clr_boot_manager.Libc.{memmem, has_byte}
use clr_boot_manager.Libc.Scan.{starts_with-append, drop-append}
use clr_boot_manager.Cmdline.{remove_option, cut}

-- The two parts are no longer than the text.
abbrev Within : Bytes → Option (Bytes × Bytes) → Type 0
Within s none = Unit
Within s (some (before, behind)) = length before + length behind ≤ length s

remove_option-some :
    (out l before behind : Bytes)
    → memmem out l ≡ some (before, behind)
    → remove_option out l ≡ cut out before behind
unfolding remove_option
remove_option-some out l before behind e = rw (e, remove_option)

memmem-first :
    (c : ℕ) (before l behind : Bytes)
    → has_byte c before ≡ false
    → memmem (before ++ ((c ∷ l) ++ behind)) (c ∷ l) ≡ some (before, behind)
unfolding memmem has_byte
memmem-first c [] l behind h =
    rw (starts_with-append (c ∷ l) behind, memmem)
      (ap (λ (t : Bytes). some ([], t)) (drop-append l behind))
memmem-first c (d ∷ before) l behind h =
    rw (other, memmem-first c before l behind (ground arith), memmem)
  where
    other : starts_with (c ∷ l) (d ∷ (before ++ ((c ∷ l) ++ behind))) ≡ false
    other = unfold starts_with in ground arith

-- An option goes with the space behind it where it is followed by a space, and alone where the
-- command line or a string in its buffer ends; before another byte `d` the command line stays. What
-- stands before it, which here does not hold its first byte, is not looked at: the option need not be
-- a word of its own.
pub remove_option-first :
    (c d : ℕ) (before l behind : Bytes)
    → has_byte c before ≡ false
    → (d == b' ') ≡ false
    → (d == 0) ≡ false
    → (remove_option (before ++ ((c ∷ l) ++ [])) (c ∷ l) ≡ before)
      × (remove_option (before ++ ((c ∷ l) ++ (b' ' ∷ behind))) (c ∷ l) ≡ before ++ behind)
      × (remove_option (before ++ ((c ∷ l) ++ (0 ∷ behind))) (c ∷ l) ≡ before ++ (0 ∷ behind))
      × (remove_option (before ++ ((c ∷ l) ++ (d ∷ behind))) (c ∷ l)
          ≡ before ++ ((c ∷ l) ++ (d ∷ behind)))
unfolding cut
remove_option-first c d before l behind h other text = (
  remove_option-some _ _ before [] (memmem-first c before l [] h),
  remove_option-some _ _ before (b' ' ∷ behind) (memmem-first c before l (b' ' ∷ behind) h),
  remove_option-some _ _ before (0 ∷ behind) (memmem-first c before l (0 ∷ behind) h),
  remove_option-some _ _ before (d ∷ behind) (memmem-first c before l (d ∷ behind) h)
      ∙ rw (other, text),
)
