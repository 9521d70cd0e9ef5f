-- ===== src/Kernel/Paths.antt =====
-- bootman/kernel.c: paths under /usr, and the places that the directories were merged from.
use clr_boot_manager.Prelude.{
  Bool, Option, none, some, [], ◌∷◌, Bytes, ◌==◌, if◌then◌else◌, codes, starts_with, drop,
}

unfoldable pub skip_slashes : Bytes → Bytes
skip_slashes [] = []
skip_slashes (c ∷ s) = if c == b'/' then skip_slashes s else c ∷ s

-- A path of slashes alone stays as it is.
unfoldable pub strip_leading_slashes : Bytes → Bytes
unfolding skip_slashes
strip_leading_slashes path = elim (skip_slashes path) [ [] ↦ path | c ∷ s ↦ c ∷ s ]

unfoldable pub is_usr : Bytes → Bool
unfolding strip_leading_slashes
is_usr path = starts_with (codes "usr/") (strip_leading_slashes path)

unfoldable pub without_usr : Bytes → Bytes
unfolding is_usr strip_leading_slashes
without_usr path =
    if is_usr (strip_leading_slashes path) then drop 3 (strip_leading_slashes path) else path

-- What "%s" of `printf` writes for a path that may be NULL.
unfoldable pub path_or_null : Option Bytes → Bytes
path_or_null none = codes "(null)"
path_or_null (some p) = p
