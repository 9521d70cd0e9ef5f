-- ===== src/BootVar/Names.antt =====
-- lib/bootvar.c: the names of the boot entries, and the bytes of the boot order.
use clr_boot_manager.Prelude.{
  ℕ, zero, suc, ◌+◌, ◌-◌, ◌*◌, ◌/◌, ◌%◌, ltb, leb, ◌&&◌, Option, none, some, List, [], ◌∷◌, ◌++◌,
  Bytes, codes, starts_with, drop, is_some, if◌then◌else◌,
}

-- The value of a hexadecimal digit.
unfoldable pub hex_value : ℕ → Option ℕ
hex_value c =
    if leb b'0' c && leb c b'9'
    then some (c - b'0')
    else if leb b'A' c && leb c b'F'
    then some (c - 55)
    else if leb b'a' c && leb c b'f'
    then some (c - 87)
    else none

-- The value of so many digits, where no other digit follows.
unfoldable pub hex_of : ℕ → ℕ → Bytes → Option ℕ
unfolding hex_value
hex_of zero acc [] = some acc
hex_of zero acc (c ∷ s) = if is_some (hex_value c) then none else some acc
hex_of (suc n) acc [] = none
hex_of (suc n) acc (c ∷ s) = elim (hex_value c) [ none ↦ none | some d ↦ hex_of n (acc * 16 + d) s ]

-- The number of a name that starts with "Boot" and four digits, but not with five.
unfoldable pub num_of_name : Bytes → Option ℕ
unfolding hex_of starts_with
num_of_name name = if starts_with (codes "Boot") name then hex_of 4 0 (drop 4 name) else none

-- "%X" of a digit
unfoldable pub hex_digit : ℕ → ℕ
hex_digit d = if ltb d 10 then b'0' + d else 55 + d

-- "Boot%04X", where it fits in a name of 8 bytes
unfoldable pub boot_name : ℕ → Option Bytes
unfolding hex_digit
boot_name slot =
    if ltb slot 65536
    then some (
        codes "Boot"
        ++ (hex_digit (slot / 4096)
            ∷ hex_digit (slot / 256 % 16)
            ∷ hex_digit (slot / 16 % 16)
            ∷ hex_digit (slot % 16)
            ∷ []))
    else none

-- The `uint16_t` in a variable, on a little-endian machine; an odd byte at the end is left out.
unfoldable pub words_of : Bytes → List ℕ
words_of [] = []
words_of (a ∷ []) = []
words_of (a ∷ b ∷ s) = (a + 256 * b) ∷ words_of s

unfoldable pub bytes_of : List ℕ → Bytes
bytes_of [] = []
bytes_of (n ∷ ns) = (n % 256) ∷ (n / 256) ∷ bytes_of ns
