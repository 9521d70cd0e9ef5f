-- ===== src/Libc/Lines.antt =====
-- The lines of a text hold no newline, and a text that holds none is one line.
use mathlib.Core.List.{append_assoc}
use clr_boot_manager.Prelude.{
  ℕ, ◌≡◌, ◌∙◌, refl, sym, ap, true, false, List, [], ◌∷◌, ◌++◌, Bytes, ◌==◌, arith, Bool-cases, inl,
  inr, All,
}
use clr_boot_manager.Libc.{has_byte, lines, push_byte, skip_space}

abbrev pub NoNewline : Bytes → Type 0
NoNewline s = has_byte b'\n' s ≡ false

push_byte-All :
    (c : ℕ) (ls : List Bytes)
    → (c == b'\n') ≡ false
    → All NoNewline ls
    → All NoNewline (push_byte c ls)
unfolding push_byte has_byte
push_byte-All c [] h a = (rw h, tt)
push_byte-All c (l ∷ ls) h (a, b) = (rw h a, b)

pub lines-All : (s : Bytes) → All NoNewline (lines s)
unfolding lines
lines-All [] = tt
lines-All (c ∷ s) = elim (Bool-cases (c == b'\n')) [
  | inl newline ↦ rw newline (unfold has_byte in refl, lines-All s)
  | inr other ↦ rw other (push_byte-All c (lines s) other (lines-All s))
]

pub lines_one : (c : ℕ) (s : Bytes) → NoNewline (c ∷ s) → lines (c ∷ s) ≡ (c ∷ s) ∷ []
unfolding lines has_byte push_byte
lines_one c [] h = ground arith
lines_one c (d ∷ s) h = ground (arith, lines_one d s)

pub has_byte-skip_space :
    (b : ℕ) (s : Bytes) → has_byte b s ≡ false → has_byte b (skip_space s) ≡ false
unfolding skip_space has_byte
has_byte-skip_space b [] h = refl
has_byte-skip_space b (c ∷ s) h = ground (arith, has_byte-skip_space b s)

pub has_byte-append :
    (b : ℕ) (s t : Bytes)
    → has_byte b s ≡ false
    → has_byte b t ≡ false
    → has_byte b (s ++ t) ≡ false
unfolding has_byte
has_byte-append b [] t h g = g
has_byte-append b (c ∷ s) t h g = ground (arith, has_byte-append b s t)

-- Each line with its newline
unfoldable pub unlines : List Bytes → Bytes
unlines [] = []
unlines (l ∷ ls) = l ++ (b'\n' ∷ unlines ls)

lines_first : (l rest : Bytes) → NoNewline l → lines (l ++ (b'\n' ∷ rest)) ≡ l ∷ lines rest
unfolding lines has_byte
lines_first [] rest h = refl
lines_first (c ∷ l) rest h = elim (Bool-cases (c == b'\n')) [
  | inl newline ↦ absurd_of (rw newline at h)
  | inr other ↦ rw (other, lines_first l rest (rw other at h)) (unfold push_byte in refl)
]
  where
    absurd_of : {A : Type 0} → true ≡ false → A
    absurd_of e = cc

-- Lines that hold no newline are read back.
pub lines-unlines : (ls : List Bytes) → All NoNewline ls → lines (unlines ls) ≡ ls
unfolding unlines
lines-unlines [] a = unfold lines in refl
lines-unlines (l ∷ ls) (h, a) =
    lines_first l (unlines ls) h ∙ ap (λ (r : List Bytes). l ∷ r) (lines-unlines ls a)

pub unlines-append : (xs ys : List Bytes) → unlines (xs ++ ys) ≡ unlines xs ++ unlines ys
unfolding unlines
unlines-append [] ys = refl
unlines-append (l ∷ xs) ys =
    rw (unlines-append xs ys) (sym (append_assoc l (b'\n' ∷ unlines xs) (unlines ys)))
