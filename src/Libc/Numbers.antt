-- ===== src/Libc/Numbers.antt =====
-- A number that `%d` writes is read back by `%d` and `strtol`.
use mathlib.Core.List.{append-nil}
use clr_boot_manager.Prelude.{
  sym, ap, ◌∙◌, ℕ, zero, suc, ◌+◌, ◌-◌, ◌*◌, ◌/◌, ◌%◌, ◌<◌, ◌≡◌, ◌≢◌, refl, ◌∙◌, ap, Bool, true,
  false, some, [], ◌∷◌, ◌++◌, Bytes, ◌==◌, if◌then◌else◌, arith, Bool-cases, inl, inr,
}
use clr_boot_manager.Int.{ℤ, pos, negsuc}
use clr_boot_manager.Libc.{
  isdigit, isspace, show_digits, show_ℕ, show_ℤ, read_digits, starts_with_digit, unsigned, negate,
  scan_int,
}

-- Nothing, or a byte that is no digit.
abbrev pub EndsDigits : Bytes → Type 0
EndsDigits [] = Unit
EndsDigits (c ∷ s) = isdigit c ≡ false

abbrev digit : ℕ → ℕ
digit d = b'0' + d

sub_digit : (d : ℕ) → digit d - b'0' ≡ d
sub_digit d = omega arith

read_digits-digit :
    (acc d : ℕ) (s : Bytes) → d < 10 → read_digits acc (digit d ∷ s) ≡ read_digits (acc * 10 + d) s
unfolding read_digits isdigit
read_digits-digit acc d s h = ground (arith, sub_digit d)

show_digits-append :
    (f n : ℕ) (out rest : Bytes) → show_digits f n out ++ rest ≡ show_digits f n (out ++ rest)
unfolding show_digits
show_digits-append zero n out rest = refl
show_digits-append (suc f) n out rest = elim (Bool-cases (n / 10 == 0)) [
  | inl done ↦ rw done
  | inr more ↦ rw more (show_digits-append f (n / 10) _ rest)
]

read_digits-show_digits :
    (f n : ℕ) (out : Bytes) → n < f → read_digits 0 (show_digits f n out) ≡ read_digits n out
unfolding show_digits
read_digits-show_digits zero n out h = elim h [ ]
read_digits-show_digits (suc f) n out h = elim (Bool-cases (n / 10 == 0)) [
  | inl done ↦ rw done (
      read_digits-digit 0 (n % 10) out (omega arith)
      ∙ ap (λ (k : ℕ). read_digits k out) (let z : n / 10 ≡ 0 = ground arith in omega arith))
  | inr more ↦ rw more (
      read_digits-show_digits f (n / 10) _ (let z : n / 10 ≢ 0 = ground arith in omega arith)
      ∙ read_digits-digit (n / 10) (n % 10) out (omega arith)
      ∙ ap (λ (k : ℕ). read_digits k out) (omega arith))
]

starts_with_digit-digit : (d : ℕ) (s : Bytes) → d < 10 → starts_with_digit (digit d ∷ s) ≡ true
unfolding starts_with_digit
starts_with_digit-digit d s h = ground arith

starts_with_digit-show_digits :
    (f n : ℕ) (out : Bytes)
    → starts_with_digit out ≡ true
    → starts_with_digit (show_digits f n out) ≡ true
unfolding show_digits
starts_with_digit-show_digits zero n out h = h
starts_with_digit-show_digits (suc f) n out h = elim (Bool-cases (n / 10 == 0)) [
  | inl done ↦ rw done (starts_with_digit-digit (n % 10) out (omega arith))
  | inr more ↦ rw more (
      starts_with_digit-show_digits f (n / 10) _
        (starts_with_digit-digit (n % 10) out (omega arith)))
]

starts_with_digit-show_ℕ : (n : ℕ) (rest : Bytes) → starts_with_digit (show_ℕ n ++ rest) ≡ true
unfolding show_ℕ
starts_with_digit-show_ℕ n rest =
    rw (show_digits-append (suc n) n [] rest) (start (suc n) n rest (omega arith))
  where
    start : (f n : ℕ) (out : Bytes) → n < f → starts_with_digit (show_digits f n out) ≡ true
    start zero n out h = elim h [ ]
    start (suc f) n out h = elim (Bool-cases (n / 10 == 0)) [
      | inl done ↦ rw done (starts_with_digit-digit (n % 10) out (omega arith))
      | inr more ↦ rw more (
          starts_with_digit-show_digits f (n / 10) _
            (starts_with_digit-digit (n % 10) out (omega arith)))
    ]

read_digits_end : (n : ℕ) (rest : Bytes) → EndsDigits rest → read_digits n rest ≡ (n, rest)
unfolding read_digits
read_digits_end n [] h = refl
read_digits_end n (c ∷ s) h = rw h

pub read_digits-show_ℕ :
    (n : ℕ) (rest : Bytes) → EndsDigits rest → read_digits 0 (show_ℕ n ++ rest) ≡ (n, rest)
unfolding show_ℕ
read_digits-show_ℕ n rest h =
    rw (show_digits-append (suc n) n [] rest)
      (read_digits-show_digits (suc n) n rest (omega arith) ∙ read_digits_end n rest h)

unsigned-show_ℕ :
    (negative : Bool) (n : ℕ) (rest : Bytes)
    → EndsDigits rest
    → unsigned negative (show_ℕ n ++ rest) ≡ some (if negative then negate n else pos n)
unfolding unsigned
unsigned-show_ℕ negative n rest h =
    rw (starts_with_digit-show_ℕ n rest, read_digits-show_ℕ n rest h)

-- Digits are read with no white space and no sign before them.
scan_int-unsigned : (s : Bytes) → starts_with_digit s ≡ true → scan_int s ≡ unsigned false s
unfolding scan_int starts_with_digit isspace
scan_int-unsigned [] h = cc
scan_int-unsigned (c ∷ s) h = ground arith

scan_int_negative : (s : Bytes) → scan_int (b'-' ∷ s) ≡ unsigned true s
unfolding scan_int
scan_int_negative s = refl

-- Reading back what was written, whatever follows that is no digit.
pub scan_int-show_ℤ :
    (z : ℤ) (rest : Bytes) → EndsDigits rest → scan_int (show_ℤ z ++ rest) ≡ some z
unfolding show_ℤ
scan_int-show_ℤ (pos n) rest h =
    scan_int-unsigned _ (starts_with_digit-show_ℕ n rest) ∙ unsigned-show_ℕ false n rest h
scan_int-show_ℤ (negsuc n) rest h =
    scan_int_negative _ ∙ unsigned-show_ℕ true (suc n) rest h ∙ unfold negate in refl

-- Where nothing follows.
pub scan_int_all : (z : ℤ) → scan_int (show_ℤ z) ≡ some z
scan_int_all z = ap scan_int (sym (append-nil (show_ℤ z))) ∙ scan_int-show_ℤ z [] tt
