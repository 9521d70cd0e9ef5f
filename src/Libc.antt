-- ===== src/Libc.antt =====
-- What the program uses of the C library's text functions, on C strings as lists of bytes.
pub mod Numbers
pub mod Scan
pub mod Lines
use clr_boot_manager.Prelude.{
  ℕ, zero, suc, ◌+◌, ◌-◌, ◌*◌, ◌/◌, ◌%◌, Bool, true, false, ◌&&◌, ◌||◌, Option, none, some, List,
  [], ◌∷◌, ◌++◌, Bytes, ◌==◌, leb, if◌then◌else◌, codes, starts_with, drop, length,
}
use clr_boot_manager.Int.{ℤ, pos, negsuc}

-- `isspace` in the C locale
unfoldable pub isspace : ℕ → Bool
isspace c = c == b' ' || (leb 9 c && leb c 13)

unfoldable pub isdigit : ℕ → Bool
isdigit c = leb b'0' c && leb c b'9'

unfoldable pub toupper : ℕ → ℕ
toupper c = if leb b'a' c && leb c b'z' then c - 32 else c

-- Skips white space.
unfoldable pub skip_space : Bytes → Bytes
unfolding isspace
skip_space [] = []
skip_space (c ∷ s) = if isspace c then skip_space s else c ∷ s

-- The part before the first byte `stop`, and the rest from that byte on; `strchr` and `memchr`.
unfoldable pub split_at : ℕ → Bytes → Bytes × Bytes
split_at stop [] = ([], [])
split_at stop (c ∷ s) =
    let rest = split_at stop s in if c == stop then ([], c ∷ s) else (c ∷ rest.0, rest.1)

-- `memmem`: the part before the first occurrence of the second text, and the part behind it.
unfoldable pub memmem : Bytes → Bytes → Option (Bytes × Bytes)
memmem [] needle = if starts_with needle [] then some ([], []) else none
memmem (c ∷ s) needle =
    let rest = memmem s needle in
    if starts_with needle (c ∷ s)
    then some ([], drop (length needle) (c ∷ s))
    else elim rest [ none ↦ none | some (before, behind) ↦ some (c ∷ before, behind) ]

-- A byte in front of the first of the lines.
push_byte : ℕ → List Bytes → List Bytes
push_byte c [] = (c ∷ []) ∷ []
push_byte c (l ∷ ls) = (c ∷ l) ∷ ls

-- The lines that `getline` yields, each without its newline.
unfoldable pub lines : Bytes → List Bytes
unfolding push_byte
lines [] = []
lines (c ∷ s) = let rest = lines s in if c == b'\n' then [] ∷ rest else push_byte c rest

-- `%d` of `printf` on a number that is not negative, by its digits from the last.
unfoldable pub show_digits : ℕ → ℕ → Bytes → Bytes
show_digits zero n out = out
show_digits (suc fuel) n out =
    let shown = (b'0' + n % 10) ∷ out in
    let more = show_digits fuel (n / 10) shown in if n / 10 == 0 then shown else more

unfoldable pub show_ℕ : ℕ → Bytes
unfolding show_digits
show_ℕ n = show_digits (suc n) n []

unfoldable pub show_ℤ : ℤ → Bytes
unfolding show_ℕ
show_ℤ (pos n) = show_ℕ n
show_ℤ (negsuc n) = b'-' ∷ show_ℕ (suc n)

-- The value of the leading digits, and what follows them.
unfoldable pub read_digits : ℕ → Bytes → ℕ × Bytes
unfolding isdigit
read_digits acc [] = (acc, [])
read_digits acc (c ∷ s) =
    let more = read_digits (acc * 10 + (c - b'0')) s in if isdigit c then more else (acc, c ∷ s)

unfoldable pub starts_with_digit : Bytes → Bool
unfolding isdigit
starts_with_digit [] = false
starts_with_digit (c ∷ _) = isdigit c

unfoldable pub negate : ℕ → ℤ
negate zero = pos 0
negate (suc n) = negsuc n

unfoldable pub unsigned : Bool → Bytes → Option ℤ
unfolding starts_with_digit read_digits negate
unsigned negative s =
    if starts_with_digit s
    then some (if negative then negate (read_digits 0 s).0 else pos (read_digits 0 s).0)
    else none

unfoldable pub signed : Bytes → Option ℤ
unfolding unsigned
signed [] = none
signed (c ∷ s) =
    if c == b'-'
    then unsigned true s
    else if c == b'+'
    then unsigned false s
    else unsigned false (c ∷ s)

-- The decimal number at the start of a text, behind white space and a sign, as `%d` of `scanf` and
-- `strtol` read it; none if there are no digits. The number is not cut to the range of an `int`.
unfoldable pub scan_int : Bytes → Option ℤ
unfolding skip_space signed
scan_int s = signed (skip_space s)

-- `%N[^stop]` of `scanf`: from one to so many bytes other than `stop`.
unfoldable pub scan_set : ℕ → ℕ → Bytes → Bytes × Bytes
scan_set zero stop s = ([], s)
scan_set (suc n) stop [] = ([], [])
scan_set (suc n) stop (c ∷ s) =
    let rest = scan_set n stop s in if c == stop then ([], c ∷ s) else (c ∷ rest.0, rest.1)

-- A literal byte of a `scanf` format.
unfoldable pub expect : ℕ → Bytes → Option Bytes
expect c [] = none
expect c (d ∷ s) = if d == c then some s else none

unfoldable pub has_byte : ℕ → Bytes → Bool
has_byte b [] = false
has_byte b (c ∷ s) = c == b || has_byte b s

-- `basename` of a path that does not end in a slash
unfoldable pub basename : Bytes → Bytes
unfolding has_byte
basename [] = []
basename (c ∷ s) =
    let last = basename s in if has_byte b'/' s then last else if c == b'/' then s else c ∷ s

dirname_onto : Bytes → Bytes
unfolding has_byte
dirname_onto [] = []
dirname_onto (c ∷ s) = let more = c ∷ dirname_onto s in if has_byte b'/' s then more else []

-- `dirname` of an absolute path that does not end in a slash
unfoldable pub dirname : Bytes → Bytes
unfolding dirname_onto
dirname [] = []
dirname (c ∷ s) = if has_byte b'/' s then c ∷ dirname_onto s else c ∷ []
