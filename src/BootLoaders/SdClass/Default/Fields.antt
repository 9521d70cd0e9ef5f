-- ===== src/BootLoaders/SdClass/Default/Fields.antt =====
-- bootloaders/systemd-class.c: the fields of a name, from the last dash.
use clr_boot_manager.Prelude.{
  ℕ, ◌<◌, ◌≡◌, refl, false, none, some, [], ◌∷◌, ◌++◌, Bytes, arith, length, starts_with,
}
use clr_boot_manager.Libc.{has_byte, memmem}
use clr_boot_manager.Libc.Scan.{starts_with-append, drop-append}
use clr_boot_manager.BootLoaders.SdClass.Default.{split_last, last_field}

split_last-none : (stop : ℕ) (s : Bytes) → has_byte stop s ≡ false → split_last stop s ≡ none
unfolding split_last has_byte
split_last-none stop [] h = refl
split_last-none stop (c ∷ s) h = ground (arith, split_last-none stop s)

split_last-append :
    (stop : ℕ) (before field : Bytes)
    → has_byte stop field ≡ false
    → split_last stop (before ++ (stop ∷ field)) ≡ some (before, field)
unfolding split_last
split_last-append stop [] field h = rw (split_last-none stop field h) (ground arith)
split_last-append stop (c ∷ before) field h = rw (split_last-append stop before field h)

-- A field that is not empty and holds no dash is the last one behind a dash.
pub last_field-append :
    (before field : Bytes)
    → 0 < length before
    → 0 < length field
    → has_byte b'-' field ≡ false
    → last_field (before ++ (b'-' ∷ field)) ≡ some (before, field)
unfolding last_field
last_field-append [] field b f h = absurd (omega arith)
last_field-append (c ∷ before) [] b f h = absurd (omega arith)
last_field-append (c ∷ before) (d ∷ field) b f h =
    rw (last_field, split_last-append b'-' before (d ∷ field) h)

-- A text that starts with the one that is looked for.
pub memmem-append : (needle s : Bytes) → memmem (needle ++ s) needle ≡ some ([], s)
unfolding memmem
memmem-append [] [] = unfold starts_with in refl
memmem-append [] (c ∷ s) = unfold starts_with in refl
memmem-append (c ∷ needle) s =
    rw (starts_with-append (c ∷ needle) s) (rw (drop-append (c ∷ needle) s))
