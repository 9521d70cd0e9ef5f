-- ===== src/Update/Removals.antt =====
-- bootman/update.c: which kernels are scheduled for removal.
use clr_boot_manager.Prelude.{
  ◌≡◌, ◌≢◌, ◌↔◌, Bool, true, not, ◌&&◌, Option, none, some, List, [], ◌∷◌, arith, keep, Among,
}
use clr_boot_manager.Kernel.{Kernel}
use clr_boot_manager.Update.{is_kernel, removable}

-- The two kernels are different records in memory.
abbrev pub Differs : Option Kernel → Kernel → Type 0
Differs none k = Unit
Differs (some r) k = k.addr ≢ r.addr

Among-keep :
    (p : Kernel → Bool) (k : Kernel) (ks : List Kernel)
    → Among k (keep p ks) ↔ (Among k ks × (p k ≡ true))
Among-keep p k [] = (λ h. absurd h, λ h. absurd h.0)
Among-keep p k (x ∷ xs) = ground (arith, Among-keep p k xs)

spared_iff :
    (r k : Kernel) (tip last_good : Option Kernel)
    → ((not (is_kernel (some r) k) && not (is_kernel tip k) && not (is_kernel last_good k)) ≡ true)
      ↔ ((k.addr ≢ r.addr) × Differs tip k × Differs last_good k)
unfolding is_kernel
spared_iff r k none none = ground arith
spared_iff r k none (some l) = ground arith
spared_iff r k (some t) none = ground arith
spared_iff r k (some t) (some l) = ground arith

-- With the running kernel known, exactly these are scheduled: the kernels of the type that are
-- neither the running one, nor the tip, nor the last that booted.
pub removable_iff :
    (r k : Kernel) (tip last_good : Option Kernel) (ks : List Kernel)
    → Among k (removable (some r) tip last_good ks)
      ↔ (Among k ks × (k.addr ≢ r.addr) × Differs tip k × Differs last_good k)
unfolding removable
removable_iff r k tip last_good ks = (
  λ h.
      let kept = (Among-keep _ k ks).0 h in
      let apart = (spared_iff r k tip last_good).0 kept.1 in (kept.0, apart.0, apart.1, apart.2),
  λ h. (Among-keep _ k ks).1 (h.0, (spared_iff r k tip last_good).1 (h.1, h.2, h.3)),
)
