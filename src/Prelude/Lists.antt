-- ===== src/Prelude/Lists.antt =====
-- Lists measured by native numbers, under the library's names, and predicates by recursion.
use Prim.Native.Nat.{ℕ, zero, suc, ◌+◌}
use mathlib.Core.Path.{◌≡◌, refl}
use mathlib.Core.Logic.{◌⊎◌, inl, inr}
use mathlib.Core.Bool.{Bool}
use mathlib.Core.List.{List, [], ◌∷◌, ◌++◌}
use mathlib.Core.Option.{Option, none, some}
use native.Mathlib.Omega.{arith}
use clr_boot_manager.Prelude.Tests.{if◌then◌else◌}

module _ {ℓ} {A : Type ℓ} where
  abbrev pub length : List A → ℕ
  length [] = 0
  length (x ∷ xs) = suc (length xs)

  abbrev pub take : ℕ → List A → List A
  take zero xs = []
  take (suc n) [] = []
  take (suc n) (x ∷ xs) = x ∷ take n xs

  abbrev pub drop : ℕ → List A → List A
  drop zero xs = xs
  drop (suc n) [] = []
  drop (suc n) (x ∷ xs) = drop n xs

  pub length-append : (xs ys : List A) → length (xs ++ ys) ≡ length xs + length ys
  length-append [] ys = omega arith
  length-append (x ∷ xs) ys = omega (arith, length-append xs ys)

  -- The first element that passes the test.
  abbrev pub find_first : (A → Bool) → List A → Option A
  find_first p [] = none
  find_first p (x ∷ xs) = if p x then some x else find_first p xs

  -- The elements that pass the test, in order.
  abbrev pub keep : (A → Bool) → List A → List A
  keep p [] = []
  keep p (x ∷ xs) = let rest = keep p xs in if p x then x ∷ rest else rest

  abbrev pub All {κ} : (A → Type κ) → List A → Type κ
  All P [] = Unit
  All P (x ∷ xs) = P x × All P xs

module _ {A : Type 0} where
  -- The element stands in the list.
  abbrev pub Among : A → List A → Type 0
  Among k [] = ⊥
  Among k (x ∷ xs) = (k ≡ x) ⊎ Among k xs

  pub Among-append : (k : A) (xs ys : List A) → Among k (xs ++ ys) → Among k xs ⊎ Among k ys
  Among-append k [] ys h = inr h
  Among-append k (x ∷ xs) ys (inl e) = inl (inl e)
  Among-append k (x ∷ xs) ys (inr h) = elim (Among-append k xs ys h) [
    | inl m ↦ inl (inr m)
    | inr m ↦ inr m
  ]

  pub All-of : (R : A → Type 0) (xs : List A) → ((k : A) → Among k xs → R k) → All R xs
  All-of R [] h = tt
  All-of R (x ∷ xs) h = (h x (inl refl), All-of R xs (λ j m. h j (inr m)))

  pub All-append : (R : A → Type 0) (xs ys : List A) → All R xs → All R ys → All R (xs ++ ys)
  All-append R [] ys h g = g
  All-append R (x ∷ xs) ys h g = (h.0, All-append R xs ys h.1 g)

  pub All-zip :
      (X Y Z : A → Type 0) (xs : List A)
      → ((k : A) → X k → Y k → Z k)
      → All X xs
      → All Y xs
      → All Z xs
  All-zip X Y Z [] f h g = tt
  All-zip X Y Z (x ∷ xs) f (h, hs) (g, gs) = (f x h g, All-zip X Y Z xs f hs gs)

  pub All-map : (X Y : A → Type 0) (xs : List A) → ((k : A) → X k → Y k) → All X xs → All Y xs
  All-map X Y [] f h = tt
  All-map X Y (x ∷ xs) f (h, hs) = (f x h, All-map X Y xs f hs)
