-- ===== src/Tests/TextMap.antt =====
-- A map of texts as a list, for the platforms of the tests.
use clr_boot_manager.Prelude.{
  ◌≡◌, refl, sym, Bool-cases, inl, inr, false, Option, none, some, List, [], ◌∷◌, Bytes,
  if◌then◌else◌, streq, streq_iff, streq_refl,
}
use mathlib.Core.Path.{subst}

unfoldable pub put : Bytes → Bytes → List (Bytes × Bytes) → List (Bytes × Bytes)
put key value [] = (key, value) ∷ []
put key value ((k, v) ∷ m) =
    let rest = put key value m in if streq k key then (key, value) ∷ m else (k, v) ∷ rest

unfoldable pub get : Bytes → List (Bytes × Bytes) → Option Bytes
get key [] = none
get key ((k, v) ∷ m) = let rest = get key m in if streq k key then some v else rest

pub get-put :
    (key value : Bytes) (m : List (Bytes × Bytes)) → get key (put key value m) ≡ some value
unfolding get put
get-put key value [] = rw (streq_refl key)
get-put key value ((k, v) ∷ m) = elim (Bool-cases (streq k key)) [
  | inl same ↦ rw (same, streq_refl key)
  | inr other ↦ rw (other, other) (get-put key value m)
]

pub get-put_other :
    (key value field : Bytes) (m : List (Bytes × Bytes))
    → streq key field ≡ false
    → get field (put key value m) ≡ get field m
unfolding get put
get-put_other key value field [] apart = rw apart
get-put_other key value field ((k, v) ∷ m) apart = elim (Bool-cases (streq k key)) [
  | inl same ↦
      let apart_k : streq k field ≡ false =
        subst (λ (n : Bytes). streq n field ≡ false) (sym ((streq_iff k key).0 same)) apart in
      rw (same, apart, apart_k) refl
  | inr other ↦ rw (other, get-put_other key value field m apart) refl
]
