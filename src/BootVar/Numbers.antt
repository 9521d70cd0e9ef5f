-- ===== src/BootVar/Numbers.antt =====
-- lib/bootvar.c: the number of a new boot entry, and the boot order that has an entry first.
use clr_boot_manager.Prelude.{
  refl, sym, ◌∙◌, ◌≡◌, ◌<◌, ◌≤◌, ◌==◌, ℕ, suc, Bool, true, false, not, Option, none, some, List, [],
  ◌∷◌, ltb, keep, if◌then◌else◌, Bool-cases, inl, inr, arith,
}

-- The loop over the numbers, in ascending order: it ends at the first number that is greater than
-- its count.
unfoldable pub first_gap : ℕ → List ℕ → ℕ
first_gap res [] = res
first_gap res (n ∷ ns) = let rest = first_gap (suc res) ns in if ltb res n then res else rest

-- The last of the numbers
unfoldable pub last_of : ℕ → List ℕ → ℕ
last_of n [] = n
last_of n (m ∷ ms) = last_of m ms

unfoldable pub free_in_sorted : List ℕ → Option ℕ
unfolding first_gap last_of
free_in_sorted [] = none
free_in_sorted (n ∷ ns) =
    let res = first_gap 0 (n ∷ ns) in some (if res == last_of n ns then suc res else res)

-- `bootvar_find_free_no`, by the C library's `qsort`; without any record it fails.
unfoldable pub find_free_no : (List ℕ → List ℕ) → List ℕ → Option ℕ
unfolding free_in_sorted
find_free_no qsort nums = free_in_sorted (qsort nums)

unfoldable pub is_in : ℕ → List ℕ → Bool
is_in number [] = false
is_in number (n ∷ ns) = let rest = is_in number ns in if n == number then true else rest

-- The boot order that `bootvar_push_to_boot_order` sets.
unfoldable pub new_boot_order : ℕ → List ℕ → List ℕ
unfolding is_in
new_boot_order number order =
    if is_in number order then number ∷ keep (λ n. not (n == number)) order else number ∷ order

-- The numbers ascend, and start at `lo` or above.
abbrev pub Ascending : ℕ → List ℕ → Type 0
Ascending lo [] = Unit
Ascending lo (n ∷ ns) = (lo ≤ n) × Ascending (suc n) ns

-- A number that is not in the list, where all those from `lo` up to it are.
abbrev pub IsFree : ℕ → List ℕ → ℕ → Type 0
IsFree lo ns r = (is_in r ns ≡ false) × ((m : ℕ) → lo ≤ m → m < r → is_in m ns ≡ true)

below-is_in : (lo r : ℕ) (ns : List ℕ) → r < lo → Ascending lo ns → is_in r ns ≡ false
unfolding is_in
below-is_in lo r [] h a = refl
below-is_in lo r (n ∷ ns) h (b, a) = ground (arith, below-is_in (suc n) r ns (omega arith) a)

Ascending-lower : (lo hi : ℕ) (ns : List ℕ) → lo ≤ hi → Ascending hi ns → Ascending lo ns
Ascending-lower lo hi [] h a = tt
Ascending-lower lo hi (n ∷ ns) h (b, a) = (omega arith, a)

first_gap-≤ : (res : ℕ) (ns : List ℕ) → res ≤ first_gap res ns
unfolding first_gap
first_gap-≤ res [] = omega arith
first_gap-≤ res (n ∷ ns) = ground (arith, first_gap-≤ (suc res) ns)

-- One round of the loop, with the rest of it known.
round-IsFree :
    (res n : ℕ) (ns : List ℕ) (gap : Bool)
    → res ≤ n
    → Ascending (suc n) ns
    → IsFree (suc res) ns (first_gap (suc res) ns)
    → gap ≡ ltb res n
    → IsFree res (n ∷ ns) (if gap then res else first_gap (suc res) ns)
unfolding is_in
round-IsFree res n ns true b a rest e =
    (ground (arith, below-is_in (suc n) res ns (ground arith) a), λ m h k. ground arith)
round-IsFree res n ns false b a rest e =
    (ground (arith, rest.0, first_gap-≤ (suc res) ns), λ m h k. ground (arith, rest.1 m))

first_gap-IsFree : (res : ℕ) (ns : List ℕ) → Ascending res ns → IsFree res ns (first_gap res ns)
unfolding first_gap is_in
first_gap-IsFree res [] a = (refl, λ m h k. ground arith)
first_gap-IsFree res (n ∷ ns) (b, a) =
    let lower = Ascending-lower (suc res) (suc n) ns (omega arith) a in
    round-IsFree res n ns (ltb res n) b a (first_gap-IsFree (suc res) ns lower) refl

last_of-is_in : (n : ℕ) (ns : List ℕ) → is_in (last_of n ns) (n ∷ ns) ≡ true
unfolding is_in last_of
last_of-is_in n [] = ground arith
last_of-is_in n (m ∷ ms) = ground (arith, last_of-is_in m ms)

-- What the search returns for the numbers of the records: none if there are none, or the least
-- number that none of them has.
abbrev pub FreeOf : List ℕ → Option ℕ → Type 0
FreeOf nums none = nums ≡ []
FreeOf nums (some r) = IsFree 0 nums r

absent-empty : (nums : List ℕ) → ((m : ℕ) → false ≡ is_in m nums) → nums ≡ []
unfolding is_in
absent-empty [] h = refl
absent-empty (n ∷ ns) h = ground (arith, h n)

-- Where `res` is in the list and the gap is not, they differ.
gap-last :
    (ns : List ℕ) (gap last : ℕ)
    → is_in gap ns ≡ false
    → is_in last ns ≡ true
    → (gap == last) ≡ false
gap-last ns gap last absent there = elim (Bool-cases (gap == last)) [
  | inl same ↦ (let e : gap ≡ last = ground arith in cc)
  | inr apart ↦ apart
]

free_in_sorted-FreeOf :
    (nums sorted : List ℕ)
    → ((m : ℕ) → is_in m sorted ≡ is_in m nums)
    → Ascending 0 sorted
    → FreeOf nums (free_in_sorted sorted)
unfolding free_in_sorted
free_in_sorted-FreeOf nums [] same asc = absent-empty nums (λ m. unfold is_in in same m)
free_in_sorted-FreeOf nums (n ∷ ns) same asc =
    let free = first_gap-IsFree 0 (n ∷ ns) asc in
    rw (gap-last (n ∷ ns) _ _ free.0 (last_of-is_in n ns))
      (sym (same _) ∙ free.0, λ m h k. sym (same m) ∙ free.1 m h k)

-- The number for a new boot entry is the least that no record has, and there is none only where
-- there is no record. `qsort` puts the numbers in order and keeps which are there, and no two
-- records have the same number.
pub find_free_no-FreeOf :
    (qsort : List ℕ → List ℕ) (nums : List ℕ)
    → ((m : ℕ) → is_in m (qsort nums) ≡ is_in m nums)
    → Ascending 0 (qsort nums)
    → FreeOf nums (find_free_no qsort nums)
unfolding find_free_no
find_free_no-FreeOf qsort nums same asc = free_in_sorted-FreeOf nums (qsort nums) same asc

absent-keep :
    (number : ℕ) (order : List ℕ)
    → is_in number order ≡ false
    → keep (λ n. not (n == number)) order ≡ order
unfolding is_in
absent-keep number [] h = refl
absent-keep number (n ∷ ns) h = ground (arith, absent-keep number ns)

-- The boot order has the entry first, and behind it the others in their order, in both branches.
pub new_boot_order-keep :
    (number : ℕ) (order : List ℕ)
    → new_boot_order number order ≡ number ∷ keep (λ n. not (n == number)) order
unfolding new_boot_order
new_boot_order-keep number order = elim (Bool-cases (is_in number order)) [
  | inl there ↦ rw there
  | inr new ↦ rw (new, absent-keep number order new)
]
