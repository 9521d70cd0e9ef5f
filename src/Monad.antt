-- ===== src/Monad.antt =====
-- Operations on the world in sequence, and the rules by which a property of the world is kept.
use clr_boot_manager.Prelude.{All, ◌≡◌, refl, sym, Bool, true, false, List, [], ◌∷◌, if◌then◌else◌}
use clr_boot_manager.Platform.{World, BootManager, M}

module _ {S : Type 0} where
  unfoldable pub pure : {A : Type 0} → A → M S A
  pure a w = (a, w)

  infixl 5 ◌>>=◌ ◌>>◌
  unfoldable pub ◌>>=◌ : {A B : Type 0} → M S A → (A → M S B) → M S B
  ◌>>=◌ m f w = f (m w).0 (m w).1

  unfoldable pub ◌>>◌ : {A B : Type 0} → M S A → M S B → M S B
  ◌>>◌ m k w = k (m w).1

  -- `if (!m) { return false; } k`
  unfoldable pub and_then : M S Bool → M S Bool → M S Bool
  and_then m k w = if (m w).0 then k (m w).1 else (false, (m w).1)

  -- Reads the world.
  unfoldable pub asks : {A : Type 0} → (World S → A) → M S A
  asks f w = (f w, w)

  -- A call of the host.
  unfoldable pub call : {A : Type 0} → (S → A × S) → M S A
  call f w = ((f w.host).0, record w { host = (f w.host).1 })

  unfoldable pub modify : (BootManager → BootManager) → M S (Unit {0})
  modify f w = (tt, record w { manager = f w.manager })

  -- The body runs for each element; the first failure ends the loop with `false`.
  unfoldable pub for_all : {A : Type 0} → (A → M S Bool) → List A → M S Bool
  for_all body [] = pure true
  for_all body (x ∷ xs) = and_then (body x) (for_all body xs)

  -- Both parts of a conjunction that succeeds have succeeded, one behind the other.
  pub and_then_true :
      (m k : M S Bool) (R : World S → Type 0) (w : World S)
      → (and_then m k w).0 ≡ true
      → ((m w).0 ≡ true → (k (m w).1).0 ≡ true → R (k (m w).1).1)
      → R (and_then m k w).1
  unfolding and_then
  and_then_true m k R w ok h = pick (m w).0 refl ok
    where
      pick :
          (b : Bool)
          → b ≡ (m w).0
          → (if b then k (m w).1 else (false, (m w).1)).0 ≡ true
          → R (if b then k (m w).1 else (false, (m w).1)).1
      pick true e good = h (sym e) good
      pick false e good = cc

  -- The property `P` of the world holds after `m` if it held before.
  pub data Keeps {A : Type 0} (P : World S → Type 0) (m : M S A) : Type 0 where
    keeps : ((w : World S) → P w → P (m w).1) → Keeps P m

  module _ {P : World S → Type 0} where
    pub run-Keeps : {A : Type 0} {m : M S A} → Keeps P m → (w : World S) → P w → P (m w).1
    run-Keeps (keeps h) = h

    pub pure-Keeps : {A : Type 0} (a : A) → Keeps P (pure a)
    unfolding pure
    pure-Keeps a = keeps (λ w p. p)

    pub modify-Keeps :
        (f : BootManager → BootManager)
        → ((w : World S) → P w → P (record w { manager = f w.manager }))
        → Keeps P (modify f)
    unfolding modify
    modify-Keeps f h = keeps h

    pub asks-Keeps : {A : Type 0} (f : World S → A) → Keeps P (asks f)
    unfolding asks
    asks-Keeps f = keeps (λ w p. p)

    pub >>=-Keeps :
        {A B : Type 0} {m : M S A} {f : A → M S B}
        → Keeps P m
        → ((a : A) → Keeps P (f a))
        → Keeps P (m >>= f)
    unfolding ◌>>=◌
    >>=-Keeps {m = m} (keeps h) k = keeps (λ w p. run-Keeps (k (m w).0) (m w).1 (h w p))

    pub >>-Keeps : {A B : Type 0} {m : M S A} {k : M S B} → Keeps P m → Keeps P k → Keeps P (m >> k)
    unfolding ◌>>◌
    >>-Keeps (keeps h) (keeps g) = keeps (λ w p. g _ (h w p))

    pub if-Keeps :
        {A : Type 0} {m n : M S A} (b : Bool) → Keeps P m → Keeps P n → Keeps P (if b then m else n)
    if-Keeps true h g = h
    if-Keeps false h g = g

    pub and_then-Keeps : {m k : M S Bool} → Keeps P m → Keeps P k → Keeps P (and_then m k)
    unfolding and_then
    and_then-Keeps {m} {k} (keeps h) (keeps g) =
        keeps λ w p. pick (m w).0 (k (m w).1) (h w p) (g _ (h w p))
      where
        pick :
            {u : World S} (b : Bool) (r : Bool × World S)
            → P u
            → P r.1
            → P (if b then r else (false, u)).1
        pick true r p q = q
        pick false r p q = p

  module _ {P : World S → Type 0} {A : Type 0} where
    pub for_all-Keeps :
        {body : A → M S Bool} (xs : List A)
        → ((x : A) → Keeps P (body x))
        → Keeps P (for_all body xs)
    unfolding for_all
    for_all-Keeps [] h = pure-Keeps true
    for_all-Keeps (x ∷ xs) h = and_then-Keeps (h x) (for_all-Keeps xs h)

    pub for_all-Keeps-All :
        (body : A → M S Bool) (xs : List A)
        → All (λ x. Keeps P (body x)) xs
        → Keeps P (for_all body xs)
    unfolding for_all
    for_all-Keeps-All body [] h = pure-Keeps true
    for_all-Keeps-All body (x ∷ xs) (h, t) = and_then-Keeps h (for_all-Keeps-All body xs t)

    pub call-Keeps :
        (f : S → A × S)
        → ((w : World S) → P w → P (record w { host = (f w.host).1 }))
        → Keeps P (call f)
    unfolding call
    call-Keeps f h = keeps h
