-- ===== src/Kernel/CString.antt =====
-- C strings in buffers: what holds of the text before the first NUL.
use clr_boot_manager.Prelude.{ℕ, ◌≡◌, refl, false, [], ◌∷◌, Bytes, arith}
use clr_boot_manager.Libc.{split_at, has_byte}
use clr_boot_manager.Kernel.Inspect.{c_string}

pub split_at-none : (stop : ℕ) (s : Bytes) → has_byte stop s ≡ false → split_at stop s ≡ (s, [])
unfolding split_at has_byte
split_at-none stop [] h = refl
split_at-none stop (c ∷ s) h = ground (arith, split_at-none stop s)

pub c_string_self : (s : Bytes) → has_byte 0 s ≡ false → c_string s ≡ s
unfolding c_string
c_string_self s h = rw (split_at-none 0 s h, c_string)

-- The text before the first NUL holds none.
pub has_byte-c_string : (s : Bytes) → has_byte 0 (c_string s) ≡ false
unfolding c_string has_byte split_at
has_byte-c_string [] = refl
has_byte-c_string (c ∷ s) = ground (arith, has_byte-c_string s)
