-- ===== src/Laws.antt =====
-- What the code relies on of the sorting and of the hash map that it does not implement.
use clr_boot_manager.Prelude.{Bytes, List, Among, All}
use clr_boot_manager.Int.{ℤ}
use clr_boot_manager.Kernel.{Kernel}
use clr_boot_manager.Platform.{Platform}

-- `qsort` only moves the elements of its array, and the iterator of a hash map yields its entries.
pub record IsLawful (P : Platform) : Type 1 where
  pub qsort_among :
      (compare : Kernel → Kernel → ℤ) (k : Kernel) (ks : List Kernel)
      → Among k (P.qsort compare ks)
      → Among k ks
  pub map_order_all :
      (R : Bytes × List Kernel → Type 0) (m : List (Bytes × List Kernel))
      → All R m
      → All R (P.map_order m)
