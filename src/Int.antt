-- ===== src/Int.antt =====
-- Signed integers over the native numbers, with the order and the narrowing that C's `int` and
-- `int16_t` need. `negsuc n` is -(n + 1).
use clr_boot_manager.Prelude.{
  ℕ, suc, ◌+◌, ◌-◌, ◌%◌, ◌≤◌, ◌<◌, ◌≡◌, ◌↔◌, ◌⊎◌, not, Bool, true, arith, ltb, ◌==◌, if◌then◌else◌,
}

pub data ℤ : Type 0 where
  pos : ℕ → ℤ
  negsuc : ℕ → ℤ

abbrev pub pos_part : ℤ → ℕ
pos_part (pos n) = n
pos_part (negsuc n) = 0

abbrev pub neg_part : ℤ → ℕ
neg_part (pos n) = 0
neg_part (negsuc n) = suc n

infix 50 ◌≤ℤ◌
abbrev pub ◌≤ℤ◌ : ℤ → ℤ → Type 0
a ≤ℤ b = pos_part a + neg_part b ≤ pos_part b + neg_part a

-- `a < b`
abbrev pub ltb_ℤ : ℤ → ℤ → Bool
ltb_ℤ a b = ltb (pos_part a + neg_part b) (pos_part b + neg_part a)

-- `a == b`
abbrev pub eqb_ℤ : ℤ → ℤ → Bool
eqb_ℤ a b = pos_part a + neg_part b == pos_part b + neg_part a

pub eqb_ℤ_iff : (a b : ℤ) → (eqb_ℤ a b ≡ true) ↔ (a ≡ b)
eqb_ℤ_iff (pos a) (pos b) = ground arith
eqb_ℤ_iff (pos a) (negsuc b) = ground arith
eqb_ℤ_iff (negsuc a) (pos b) = ground arith
eqb_ℤ_iff (negsuc a) (negsuc b) = ground arith

-- The `int16_t` whose bit pattern is the low 16 bits of `m`.
abbrev int16_of_bits : ℕ → ℤ
int16_of_bits m = if ltb m 32768 then pos m else negsuc (65535 - m)

-- The `int` whose bit pattern is the low 32 bits of `m`.
abbrev int32_of_bits : ℕ → ℤ
int32_of_bits m = if ltb m 2147483648 then pos m else negsuc (4294967295 - m)

-- The cast `(int16_t)`, on a two's complement machine.
unfoldable pub to_int16 : ℤ → ℤ
to_int16 (pos n) = int16_of_bits (n % 65536)
to_int16 (negsuc n) = int16_of_bits (65535 - n % 65536)

-- The cast `(int)` of a `long`.
unfoldable pub to_int32 : ℤ → ℤ
to_int32 (pos n) = int32_of_bits (n % 4294967296)
to_int32 (negsuc n) = int32_of_bits (4294967295 - n % 4294967296)

-- The nearest number that a `long` of 64 bits holds, which `strtol` returns.
unfoldable pub to_long : ℤ → ℤ
to_long (pos n) = if ltb n 9223372036854775808 then pos n else pos 9223372036854775807
to_long (negsuc n) = if ltb n 9223372036854775808 then negsuc n else negsuc 9223372036854775807

-- From -2147483648 to 2147483647.
abbrev pub IsInt32 : ℤ → Type 0
IsInt32 z = (pos_part z < 2147483648) × (neg_part z ≤ 2147483648)

-- A number that fits stays as it is.
pub to_int32_self : (z : ℤ) → IsInt32 z → to_int32 (to_long z) ≡ z
unfolding to_int32 to_long
to_int32_self (pos n) h = ground arith
to_int32_self (negsuc n) h = ground arith

pub ≤ℤ_trans : (a b c : ℤ) → a ≤ℤ b → b ≤ℤ c → a ≤ℤ c
≤ℤ_trans a b c h k = omega arith

pub ≤ℤ_total : (a b : ℤ) → (a ≤ℤ b) ⊎ (b ≤ℤ a)
≤ℤ_total a b = omega arith

pub not-ltb_ℤ : (a b : ℤ) → (not (ltb_ℤ a b) ≡ true) ↔ (b ≤ℤ a)
not-ltb_ℤ a b = ground arith
