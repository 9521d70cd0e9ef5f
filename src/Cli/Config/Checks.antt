-- ===== src/Cli/Config/Checks.antt =====
-- cli/ops/timeout.c: the timeouts that are accepted.
use clr_boot_manager.Prelude.{
  ◌≡◌, ◌∙◌, refl, ℕ, suc, zero, ◌==◌, ◌+◌, ◌/◌, ◌%◌, true, false, none, some, [], ◌∷◌, Bytes, arith,
  if◌then◌else◌, Bool-cases, inl, inr,
}
use clr_boot_manager.Int.{ℤ, pos, negsuc, ltb_ℤ, to_int32, to_long, to_int32_self, IsInt32}
use clr_boot_manager.Libc.{isdigit, isspace, skip_space, show_digits, show_ℕ, show_ℤ, scan_int}
use clr_boot_manager.Libc.Numbers.{scan_int_all}
use clr_boot_manager.Cli.Config.{
  all_digits, is_numeric, in_range, number_or_unset, timeout_of_operand,
}

digit : (n : ℕ) → isdigit (b'0' + n % 10) ≡ true
unfolding isdigit
digit n = ground arith

-- A text of digits that is not empty.
abbrev IsDigits : Bytes → Type 0
IsDigits [] = ⊥
IsDigits (c ∷ s) = (isdigit c ≡ true) × (all_digits s ≡ true)

show_digits-IsDigits :
    (f n : ℕ) (out : Bytes) → all_digits out ≡ true → IsDigits (show_digits (suc f) n out)
unfolding show_digits all_digits
show_digits-IsDigits zero n out h = elim (Bool-cases (n / 10 == 0)) [
  | inl done ↦ rw done (digit n, h)
  | inr more ↦ rw more (digit n, h)
]
show_digits-IsDigits (suc f) n out h = elim (Bool-cases (n / 10 == 0)) [
  | inl done ↦ rw done (digit n, h)
  | inr more ↦ rw more (show_digits-IsDigits f (n / 10) _ (rw (digit n) h))
]

-- A text that is numeric, and starts with no white space, is judged by its number.
checked :
    (c : ℕ) (s : Bytes) (z : ℤ)
    → isspace c ≡ false
    → is_numeric (c ∷ s) ≡ true
    → scan_int (c ∷ s) ≡ some z
    → timeout_of_operand (c ∷ s) ≡ in_range (to_int32 (to_long z))
unfolding timeout_of_operand skip_space number_or_unset
checked c s z visible numeric e = rw (visible, numeric, e) (ground arith)

checked-IsDigits :
    (s : Bytes) (z : ℤ)
    → IsDigits s
    → scan_int s ≡ some z
    → timeout_of_operand s ≡ in_range (to_int32 (to_long z))
checked-IsDigits [] z d e = absurd d
checked-IsDigits (c ∷ s) z (first, more) e =
    checked c s z (unfold isdigit isspace in ground arith)
      (unfold is_numeric in rw (first, more) refl) e

checked-negative :
    (s : Bytes) (z : ℤ)
    → IsDigits s
    → scan_int (b'-' ∷ s) ≡ some z
    → timeout_of_operand (b'-' ∷ s) ≡ in_range (to_int32 (to_long z))
checked-negative [] z d e = absurd d
checked-negative (c ∷ s) z (first, more) e =
    checked b'-' (c ∷ s) z (unfold isspace in refl)
      (unfold is_numeric isdigit all_digits in rw (first, more) refl) e

written-in_range : (z : ℤ) → timeout_of_operand (show_ℤ z) ≡ in_range (to_int32 (to_long z))
unfolding show_ℤ all_digits
written-in_range (pos n) =
    checked-IsDigits (show_ℕ n) (pos n) (unfold show_ℕ in show_digits-IsDigits n n [] refl)
      (unfold show_ℤ in scan_int_all (pos n))
written-in_range (negsuc n) =
    checked-negative (show_ℕ (suc n)) (negsuc n)
      (unfold show_ℕ in show_digits-IsDigits (suc n) (suc n) [] refl) (scan_int_all (negsuc n))

-- A timeout that an `int` holds, as it is written, is accepted exactly if it is -1 or more, and is then
-- the timeout that is set.
pub timeout_of_operand-show_ℤ :
    (z : ℤ)
    → IsInt32 z
    → timeout_of_operand (show_ℤ z) ≡ (if ltb_ℤ z (negsuc 0) then none else some z)
unfolding in_range
timeout_of_operand-show_ℤ z fits = written-in_range z ∙ rw (to_int32_self z fits) refl
