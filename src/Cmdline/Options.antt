-- ===== src/Cmdline/Options.antt =====
-- lib/cmdline.c: the options that a command line file gives.
use mathlib.Core.List.{append_assoc}
use mathlib.Core.Path.{subst}
use clr_boot_manager.Prelude.{
  ℕ, ◌≡◌, refl, sym, ◌∙◌, ap, Bool, true, false, Option, none, some, [], ◌∷◌, ◌++◌, Bytes, ◌==◌,
  if◌then◌else◌, arith, Bool-cases, inl, inr, ◌⊎◌,
}
use clr_boot_manager.Libc.{isspace, skip_space, has_byte}
use clr_boot_manager.Libc.Lines.{has_byte-skip_space}
use clr_boot_manager.Cmdline.{rstrip, option_of_line, not_comment, not_blank}

-- An option as a line of its own stands for itself: it is not empty, it neither starts nor ends with
-- white space, and it does not start with `#`.
pub data IsOption : Bytes → Type 0 where
  option :
      {c : ℕ} {s : Bytes}
      → isspace c ≡ false
      → (c == b'#') ≡ false
      → rstrip (c ∷ s) ≡ c ∷ s
      → IsOption (c ∷ s)

rstrip-cons : (c d : ℕ) (s r : Bytes) → rstrip s ≡ d ∷ r → rstrip (c ∷ s) ≡ c ∷ d ∷ r
unfolding rstrip
rstrip-cons c d s r e = rw e

rstrip-nil :
    (c : ℕ) (s : Bytes) → rstrip s ≡ [] → rstrip (c ∷ s) ≡ (if isspace c then [] else c ∷ [])
unfolding rstrip
rstrip-nil c s e = rw e

rstrip_empty : rstrip [] ≡ []
unfolding rstrip
rstrip_empty = refl

rstrip_byte : (c : ℕ) → rstrip (c ∷ []) ≡ (if isspace c then [] else c ∷ [])
rstrip_byte c = rstrip-nil c [] rstrip_empty

rstrip_idem : (s : Bytes) → rstrip (rstrip s) ≡ rstrip s
rstrip_idem [] = rw rstrip_empty rstrip_empty
rstrip_idem (c ∷ s) = split (rstrip s) refl (rstrip_idem s)
  where
    byte :
        (b : Bool) → isspace c ≡ b → rstrip (if b then [] else c ∷ []) ≡ (if b then [] else c ∷ [])
    byte true e = rstrip_empty
    byte false e = rstrip_byte c ∙ rw e

    split :
        (r : Bytes)
        → rstrip s ≡ r
        → rstrip (rstrip s) ≡ rstrip s
        → rstrip (rstrip (c ∷ s)) ≡ rstrip (c ∷ s)
    split [] e ih = rw (rstrip-nil c s e) (byte (isspace c) refl)
    split (d ∷ r) e ih =
        rw (rstrip-cons c d s r e) (rstrip-cons c d (d ∷ r) r (ap rstrip (sym e) ∙ ih ∙ e))

-- A text that starts with a byte other than white space still does so when it is stripped.
rstrip_dark : (c : ℕ) (s : Bytes) → isspace c ≡ false → (r : Bytes) × (rstrip (c ∷ s) ≡ c ∷ r)
rstrip_dark c s dark = split (rstrip s) refl
  where
    split : (r : Bytes) → rstrip s ≡ r → (t : Bytes) × (rstrip (c ∷ s) ≡ c ∷ t)
    split [] e = ([], rstrip-nil c s e ∙ rw dark)
    split (d ∷ r) e = (d ∷ r, rstrip-cons c d s r e)

-- The bytes behind leading white space.
skip_space-cases :
    (s : Bytes)
    → (skip_space s ≡ []) ⊎ ((c : ℕ) × (r : Bytes) × (skip_space s ≡ c ∷ r) × (isspace c ≡ false))
unfolding skip_space
skip_space-cases [] = inl refl
skip_space-cases (c ∷ s) = elim (Bool-cases (isspace c)) [
  | inl space ↦ rw space (skip_space-cases s)
  | inr dark ↦ rw dark (inr (c, s, refl, dark))
]

not_comment-IsOption :
    (c : ℕ) (s l : Bytes) → isspace c ≡ false → not_comment (c ∷ s) ≡ some l → IsOption l
unfolding not_comment not_blank
not_comment-IsOption c s l dark e = elim (Bool-cases (c == b'#')) [
  | inl comment ↦ absurd (none_left (rw comment at e))
  | inr plain ↦
      let (r, stripped) = rstrip_dark c s dark in
      subst IsOption (same r (rw (plain, stripped) at e))
        (option dark plain (ap rstrip (sym stripped) ∙ rstrip_idem (c ∷ s) ∙ stripped))
]
  where
    none_left : ◌≡◌ {A = Option Bytes} none (some l) → ⊥
    none_left q = cc

    same : (r : Bytes) → some (c ∷ r) ≡ some l → c ∷ r ≡ l
    same r q = cc

not_comment_blank : (l : Bytes) → not_comment [] ≡ some l → ⊥
unfolding not_comment
not_comment_blank l e = cc

-- Whatever a line gives is an option.
pub option_of_line-IsOption : (line l : Bytes) → option_of_line line ≡ some l → IsOption l
unfolding option_of_line
option_of_line-IsOption line l h = elim (skip_space-cases line) [
  | inl blank ↦ absurd (not_comment_blank l (rw blank at h))
  | inr (c, s, e, dark) ↦ not_comment-IsOption c s l dark (rw e at h)
]

-- An option on a line gives itself.
pub option_of_line_self : (l : Bytes) → IsOption l → option_of_line l ≡ some l
unfolding option_of_line
option_of_line_self l (option dark plain stripped) = rw (dark, not_comment, plain, stripped)

pub rstrip-append : (a b : Bytes) → IsOption b → rstrip (a ++ b) ≡ a ++ b
rstrip-append [] b (option dark plain stripped) = stripped
rstrip-append (x ∷ []) b (option {c} {s} dark plain stripped) = rstrip-cons x c (c ∷ s) s stripped
rstrip-append (x ∷ y ∷ a) b o = rstrip-cons x y (y ∷ (a ++ b)) (a ++ b) (rstrip-append (y ∷ a) b o)

pub IsOption-join : (a b : Bytes) → IsOption a → IsOption b → IsOption (a ++ (b' ' ∷ b))
IsOption-join a b (option {c} {s} dark plain stripped) o = option dark plain (
    ap rstrip (sym (append_assoc (c ∷ s) (b' ' ∷ []) b))
    ∙ rstrip-append ((c ∷ s) ++ (b' ' ∷ [])) b o
    ∙ append_assoc (c ∷ s) (b' ' ∷ []) b)

has_byte-rstrip : (b : ℕ) (s : Bytes) → has_byte b s ≡ false → has_byte b (rstrip s) ≡ false
has_byte-rstrip b [] h = rw rstrip_empty h
has_byte-rstrip b (c ∷ s) h =
    split (rstrip s) refl (has_byte-rstrip b s (unfold has_byte in ground arith))
  where
    split :
        (r : Bytes)
        → rstrip s ≡ r
        → has_byte b (rstrip s) ≡ false
        → has_byte b (rstrip (c ∷ s)) ≡ false
    split [] e ih = rw (rstrip-nil c s e) (unfold has_byte in ground arith)
    split (d ∷ r) e ih = rw (rstrip-cons c d s r e) (unfold has_byte in ground (arith, rw e at ih))

not_comment-has_byte :
    (b : ℕ) (s l : Bytes) → not_comment s ≡ some l → has_byte b s ≡ false → has_byte b l ≡ false
unfolding not_comment
not_comment-has_byte b [] l e h = cc
not_comment-has_byte b (c ∷ s) l e h = elim (Bool-cases (c == b'#')) [
  | inl comment ↦ absurd (none_left (rw comment at e))
  | inr plain ↦ of_blank (rstrip (c ∷ s)) (rw plain at e) (has_byte-rstrip b (c ∷ s) h)
]
  where
    none_left : ◌≡◌ {A = Option Bytes} none (some l) → ⊥
    none_left q = cc

    of_blank : (r : Bytes) → not_blank r ≡ some l → has_byte b r ≡ false → has_byte b l ≡ false
    of_blank [] q g = unfold not_blank in cc
    of_blank (d ∷ r) q g = unfold not_blank in subst (λ t. has_byte b t ≡ false) (cc) g

-- An option holds no byte that its line does not hold.
pub option_of_line-has_byte :
    (b : ℕ) (line l : Bytes)
    → option_of_line line ≡ some l
    → has_byte b line ≡ false
    → has_byte b l ≡ false
unfolding option_of_line
option_of_line-has_byte b line l e h =
    not_comment-has_byte b (skip_space line) l e (has_byte-skip_space b line h)
