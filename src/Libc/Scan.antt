-- ===== src/Libc/Scan.antt =====
-- Scanning up to a byte, and what the digits of a number cannot hold.
use clr_boot_manager.Prelude.{
  ℕ, zero, suc, ◌+◌, ◌/◌, ◌%◌, ◌≤◌, ◌≡◌, ◌<◌, refl, true, false, none, [], ◌∷◌, ◌++◌, Bytes, ◌==◌,
  arith, Bool-cases, inl, inr, length, drop, starts_with,
}
use clr_boot_manager.Int.{ℤ, pos, negsuc}
use clr_boot_manager.Libc.{isdigit, memmem, has_byte, split_at, scan_set, show_digits, show_ℤ}

pub split_at-append :
    (stop : ℕ) (xs rest : Bytes)
    → has_byte stop xs ≡ false
    → split_at stop (xs ++ (stop ∷ rest)) ≡ (xs, stop ∷ rest)
unfolding split_at has_byte
split_at-append stop [] rest h = ground arith
split_at-append stop (x ∷ xs) rest h = ground (arith, split_at-append stop xs rest)

pub scan_set-append :
    (n stop : ℕ) (xs rest : Bytes)
    → has_byte stop xs ≡ false
    → length xs ≤ n
    → scan_set n stop (xs ++ (stop ∷ rest)) ≡ (xs, stop ∷ rest)
unfolding scan_set has_byte
scan_set-append zero stop [] rest h l = refl
scan_set-append zero stop (x ∷ xs) rest h l = absurd (omega arith)
scan_set-append (suc n) stop [] rest h l = ground arith
scan_set-append (suc n) stop (x ∷ xs) rest h l = ground (arith, scan_set-append n stop xs rest)

pub starts_with-append : (p s : Bytes) → starts_with p (p ++ s) ≡ true
unfolding starts_with
starts_with-append [] s = refl
starts_with-append (x ∷ p) s = ground (arith, starts_with-append p s)

pub drop-append : (p s : Bytes) → drop (length p) (p ++ s) ≡ s
drop-append [] s = refl
drop-append (x ∷ p) s = drop-append p s

has_byte-show_digits :
    (b f n : ℕ) (out : Bytes)
    → isdigit b ≡ false
    → has_byte b out ≡ false
    → has_byte b (show_digits f n out) ≡ false
unfolding show_digits
has_byte-show_digits b zero n out l h = h
has_byte-show_digits b (suc f) n out l h = elim (Bool-cases (n / 10 == 0)) [
  | inl done ↦ rw done shown
  | inr more ↦ rw more (has_byte-show_digits b f (n / 10) _ l shown)
]
  where
    shown : has_byte b ((b'0' + n % 10) ∷ out) ≡ false
    shown = unfold has_byte isdigit in ground arith

-- A number that is not negative holds digits only.
pub has_byte-show_pos : (b n : ℕ) → isdigit b ≡ false → has_byte b (show_ℤ (pos n)) ≡ false
unfolding show_ℤ has_byte
has_byte-show_pos b n l = has_byte-show_digits b (suc n) n [] l refl

-- A number holds digits and the sign only.
pub has_byte-show_ℤ : (b : ℕ) (z : ℤ) → b < 48 → (b'-' == b) ≡ false → has_byte b (show_ℤ z) ≡ false
unfolding show_ℤ has_byte
has_byte-show_ℤ b (pos n) l d = has_byte-show_pos b n (unfold isdigit in ground arith)
has_byte-show_ℤ b (negsuc n) l d =
    rw (d, has_byte-show_pos b (suc n) (unfold isdigit in ground arith))

-- A text without the first byte of what is looked for
pub memmem-none : (c : ℕ) (needle s : Bytes) → has_byte c s ≡ false → memmem s (c ∷ needle) ≡ none
unfolding memmem has_byte starts_with
memmem-none c needle [] h = refl
memmem-none c needle (d ∷ s) h = ground (arith, memmem-none c needle s)
