-- ===== src/Kernel/Select/LastBooted.antt =====
-- bootman/kernel.c: `boot_manager_get_last_booted` finds the highest release that booted.
use clr_boot_manager.Prelude.{
  ◌≡◌, ◌↔◌, ◌⊎◌, inl, inr, refl, Bool, true, false, not, ◌&&◌, Option, none, some, List, [], ◌∷◌,
  arith, Among, Bool-cases,
}
use clr_boot_manager.Int.{ℤ, negsuc, ltb_ℤ, ◌≤ℤ◌, ≤ℤ_trans, ≤ℤ_total}
use clr_boot_manager.Kernel.{Kernel}
use clr_boot_manager.Kernel.Select.{last_booted_from, get_last_booted}

-- `j` booted, and its release counts, which is to say that it is at least `low`.
abbrev pub Counts : ℤ → Kernel → Type 0
Counts low j = (j.meta.boots ≡ true) × (low ≤ℤ j.meta.release)

-- What the loop may return from `candidate` and `high`: a kernel of the list that counts and is the
-- highest that does, or the candidate where none counts.
abbrev pub Outcome : Option Kernel → ℤ → List Kernel → Option Kernel → Type 0
Outcome candidate high ks r =
    ((k : Kernel) × (r ≡ some k)
      × Among k ks
      × Counts high k
      × ((j : Kernel) → Among j ks → Counts high j → j.meta.release ≤ℤ k.meta.release))
    ⊎ ((r ≡ candidate) × ((j : Kernel) → Among j ks → Counts high j → ⊥))

better_iff :
    (high : ℤ) (k : Kernel)
    → ((not (ltb_ℤ k.meta.release high) && k.meta.boots) ≡ true) ↔ Counts high k
better_iff high k = ground arith

-- The kernel `k` before the rest takes the place of the candidate.
module _ (candidate : Option Kernel) (high : ℤ) (k : Kernel) (ks : List Kernel)
    (r : Option Kernel) where
  Outcome-better :
      Counts high k → Outcome (some k) k.meta.release ks r → Outcome candidate high (k ∷ ks) r
  Outcome-better h (inl (b, e, m, c, top)) =
      inl (b, e, inr m, (c.0, ≤ℤ_trans high k.meta.release b.meta.release h.1 c.1), highest)
    where
      highest : (j : Kernel) → Among j (k ∷ ks) → Counts high j → j.meta.release ≤ℤ b.meta.release
      highest j (inl same) counts = rw same c.1
      highest j (inr later) counts = elim (≤ℤ_total k.meta.release j.meta.release) [
        | inl above ↦ top j later (counts.0, above)
        | inr below ↦ ≤ℤ_trans j.meta.release k.meta.release b.meta.release below c.1
      ]
  Outcome-better h (inr (e, rest)) = inl (k, e, inl refl, h, highest)
    where
      highest : (j : Kernel) → Among j (k ∷ ks) → Counts high j → j.meta.release ≤ℤ k.meta.release
      highest j (inl same) counts = rw same (omega arith)
      highest j (inr later) counts = elim (≤ℤ_total k.meta.release j.meta.release) [
        | inl above ↦ absurd (rest j later (counts.0, above))
        | inr below ↦ below
      ]

  Outcome-worse : ¬ Counts high k → Outcome candidate high ks r → Outcome candidate high (k ∷ ks) r
  Outcome-worse h (inl (b, e, m, c, top)) = inl (b, e, inr m, c, highest)
    where
      highest : (j : Kernel) → Among j (k ∷ ks) → Counts high j → j.meta.release ≤ℤ b.meta.release
      highest j (inl same) counts = absurd (h (rw same at counts))
      highest j (inr later) counts = top j later counts
  Outcome-worse h (inr (e, rest)) = inr (e, nothing)
    where
      nothing : (j : Kernel) → Among j (k ∷ ks) → Counts high j → ⊥
      nothing j (inl same) counts = h (rw same at counts)
      nothing j (inr later) counts = rest j later counts

last_booted_from-Outcome :
    (ks : List Kernel) (candidate : Option Kernel) (high : ℤ)
    → Outcome candidate high ks (last_booted_from candidate high ks)
unfolding last_booted_from
last_booted_from-Outcome [] candidate high = inr (refl, λ j m c. m)
last_booted_from-Outcome (k ∷ ks) candidate high =
    elim (Bool-cases (not (ltb_ℤ k.meta.release high) && k.meta.boots)) [
      | inl better ↦ rw better (
          Outcome-better candidate high k ks _ ((better_iff high k).0 better)
            (last_booted_from-Outcome ks (some k) k.meta.release))
      | inr worse ↦ rw worse (
          Outcome-worse candidate high k ks _ (λ c. bad worse ((better_iff high k).1 c))
            (last_booted_from-Outcome ks candidate high))
    ]
  where
    bad : {b : Bool} → b ≡ false → b ≡ true → ⊥
    bad e f = cc

-- The kernel that is found has booted, its release is at least -1 and no booted kernel of the list
-- has a higher one. None is found only where no kernel with a release of at least -1 has booted.
pub get_last_booted-Outcome : (ks : List Kernel) → Outcome none (negsuc 0) ks (get_last_booted ks)
unfolding get_last_booted
get_last_booted-Outcome ks = last_booted_from-Outcome ks none (negsuc 0)
