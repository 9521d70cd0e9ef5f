-- ===== src/Kernel/Select/Groups.antt =====
-- bootman/kernel.c: `boot_manager_map_kernels` groups the kernels by type.
use clr_boot_manager.Prelude.{
  ◌≡◌, refl, List, [], ◌∷◌, ◌++◌, Bytes, if◌then◌else◌, arith, keep, streq, streq_iff, Bool-cases,
  inl, inr,
}
use mathlib.Core.List.{append-nil, append_assoc}
use clr_boot_manager.Kernel.{Kernel}
use clr_boot_manager.Kernel.Select.{map_kernel, map_onto, map_kernels}

-- The array under a key; empty where the map has none.
abbrev pub group : Bytes → List (Bytes × List Kernel) → List Kernel
group t [] = []
group t ((type, ks) ∷ m) = if streq type t then ks else group t m

group-map_kernel :
    (t : Bytes) (m : List (Bytes × List Kernel)) (k : Kernel)
    → group t (map_kernel m k) ≡ (if streq k.meta.ktype t then group t m ++ (k ∷ []) else group t m)
unfolding map_kernel
group-map_kernel t [] k = refl
group-map_kernel t ((type, ks) ∷ m) k = ground (
  arith,
  group-map_kernel t m k,
  streq_iff type k.meta.ktype,
  streq_iff type t,
  streq_iff k.meta.ktype t,
)

group-map_onto :
    (t : Bytes) (m : List (Bytes × List Kernel)) (ks : List Kernel)
    → group t (map_onto m ks) ≡ group t m ++ keep (λ k. streq k.meta.ktype t) ks
unfolding map_onto
group-map_onto t m [] = rw append-nil
group-map_onto t m (k ∷ ks) = elim (Bool-cases (streq k.meta.ktype t)) [
  | inl same ↦
      rw (group-map_onto t (map_kernel m k) ks, group-map_kernel, same)
        (append_assoc (group t m) (k ∷ []) _)
  | inr differ ↦ rw (group-map_onto t (map_kernel m k) ks, group-map_kernel, differ)
]

-- Under each type the map holds exactly the kernels of that type, in the order of the array.
pub group-map_kernels :
    (t : Bytes) (kernels : List Kernel)
    → group t (map_kernels kernels) ≡ keep (λ k. streq k.meta.ktype t) kernels
unfolding map_kernels
group-map_kernels t kernels = group-map_onto t [] kernels
