-- ===== src/BootLoaders/Syslinux/Queue/Start.antt =====
-- bootloaders/syslinux-common.c: the queue from its start, with the kernels that
-- `boot_manager_get_kernels` of bootman/kernel.c finds.
use mathlib.Core.Path.{subst}
use mathlib.Core.Option.{some-injective}
use clr_boot_manager.Prelude.{
  ◌≡◌, refl, sym, ap, ℕ, ◌+◌, Bool, true, false, ◌||◌, Option, none, some, List, [], ◌∷◌, ◌++◌,
  Bytes, ◌==◌, if◌then◌else◌, streq, codes, is_some, arith,
}
use clr_boot_manager.Kernel.{Kernel}
use clr_boot_manager.Kernel.Inspect.{
  ◌//◌, kernel_of_name, inspect_kernel, collect_kernels, get_kernels,
}
use clr_boot_manager.Kernel.Inspect.Found.{inspect_kernel-some}
use clr_boot_manager.Platform.{Platform, World}
use clr_boot_manager.BootLoaders.Syslinux.Queue.{
  queued, enqueue, IsDistinct, or_false, enqueue-IsDistinct,
}
use clr_boot_manager.BootLoaders.Syslinux.Setup.{start_queue}

-- Whether a name is among the entries of a directory.
unfoldable pub listed : Bytes → List Bytes → Bool
listed d [] = false
listed d (e ∷ es) = streq e d || listed d es

-- No name is twice among the entries, as in every directory.
abbrev pub IsDirectory : List Bytes → Type 0
IsDirectory [] = Unit
IsDirectory (d ∷ ds) = (listed d ds ≡ false) × IsDirectory ds

==_refl : (n : ℕ) → (n == n) ≡ true
==_refl n = ground arith

streq_below : (dir a b : Bytes) → streq (dir ++ a) (dir ++ b) ≡ streq a b
unfolding streq
streq_below [] a b = refl
streq_below (c ∷ dir) a b = rw (==_refl c) (streq_below dir a b)

streq-// : (dir a b : Bytes) → streq (dir // a) (dir // b) ≡ streq a b
unfolding streq
streq-// dir a b = rw (streq_below dir (b'/' ∷ a) (b'/' ∷ b)) refl

module _ (P : Platform) (w : World P.host.State) where
  inspect_kernel-path :
      (addr : ℕ) (path : Bytes) (k : Kernel)
      → inspect_kernel P w addr path ≡ some k
      → path ≡ k.source.path
  unfolding kernel_of_name
  inspect_kernel-path addr path k h =
      ap (λ j. j.source.path) (inspect_kernel-some P w addr path k h).2

  kept_new :
      (k : Kernel) (d d_name : Bytes) (o : Option Kernel) (test : Bool) (rest : List Kernel)
      → (w.manager.kernel_dir // d) ≡ k.source.path
      → ((j : Kernel) → o ≡ some j → (w.manager.kernel_dir // d_name) ≡ j.source.path)
      → streq d_name d ≡ false
      → queued k rest ≡ false
      → queued k (if test then elim o [ none ↦ rest | some j ↦ j ∷ rest ] else rest) ≡ false
  unfolding queued
  kept_new k d d_name o false rest e found differ h = h
  kept_new k d d_name none true rest e found differ h = h
  kept_new k d d_name (some j) true rest e found differ h =
      rw (sym e, sym (found j refl), streq-// w.manager.kernel_dir d_name d, differ, h) refl

  -- A kernel whose name is not among the entries is not among the kernels that they give.
  collect_kernels-new :
      (k : Kernel) (d : Bytes) (addr : ℕ) (entries : List Bytes)
      → (w.manager.kernel_dir // d) ≡ k.source.path
      → listed d entries ≡ false
      → queued k (collect_kernels P w addr entries) ≡ false
  unfolding collect_kernels queued listed
  collect_kernels-new k d addr [] e h = refl
  collect_kernels-new k d addr (d_name ∷ entries) e h =
      let apart = or_false (streq d_name d) (listed d entries) h in
      kept_new k d d_name (inspect_kernel P w addr (w.manager.kernel_dir // d_name)) _
        (collect_kernels P w (addr + 1) entries) e
        (inspect_kernel-path addr (w.manager.kernel_dir // d_name)) apart.0
        (collect_kernels-new k d (addr + 1) entries e apart.1)

  kept-IsDistinct :
      (o : Option Kernel) (test : Bool) (rest : List Kernel)
      → ((j : Kernel) → o ≡ some j → queued j rest ≡ false)
      → IsDistinct rest
      → IsDistinct (if test then elim o [ none ↦ rest | some j ↦ j ∷ rest ] else rest)
  kept-IsDistinct o false rest new h = h
  kept-IsDistinct none true rest new h = h
  kept-IsDistinct (some j) true rest new h = (new j refl, h)

  collect_kernels-IsDistinct :
      (addr : ℕ) (entries : List Bytes)
      → IsDirectory entries
      → IsDistinct (collect_kernels P w addr entries)
  unfolding collect_kernels
  collect_kernels-IsDistinct addr [] h = tt
  collect_kernels-IsDistinct addr (d_name ∷ entries) h =
      kept-IsDistinct (inspect_kernel P w addr (w.manager.kernel_dir // d_name)) _
        (collect_kernels P w (addr + 1) entries)
        (λ j found.
          collect_kernels-new j d_name (addr + 1) entries
            (inspect_kernel-path addr (w.manager.kernel_dir // d_name) j found) h.0)
        (collect_kernels-IsDistinct (addr + 1) entries h.1)

  -- A queue that is reached from the start by installing kernels.
  pub data Reached : List Kernel → Type 0 where
    started : (queue : List Kernel) → start_queue P w ≡ some queue → Reached queue
    installed :
        (kernel : Kernel) (queue : List Kernel) → Reached queue → Reached (enqueue kernel queue)

  start_queue-IsDistinct :
      ((entries : List Bytes)
        → P.host.list_dir w.host w.manager.kernel_dir ≡ some entries
        → IsDirectory entries)
      → (queue : List Kernel) → start_queue P w ≡ some queue
      → IsDistinct queue
  unfolding start_queue get_kernels
  start_queue-IsDistinct law queue =
      of_mode (is_some (P.host.getenv w.host (codes "CBM_BOOTVAR_TEST_MODE")))
        (P.host.list_dir w.host w.manager.kernel_dir) law
    where
      of_mode :
          (test_mode : Bool) (o : Option (List Bytes))
          → ((entries : List Bytes) → o ≡ some entries → IsDirectory entries)
          → (if test_mode
              then some []
              else elim o [ none ↦ none | some entries ↦ some (collect_kernels P w 0 entries) ])
            ≡ some queue
          → IsDistinct queue
      of_mode true o names e = subst IsDistinct (some-injective [] queue e) tt
      of_mode false none names e = cc
      of_mode false (some entries) names e =
          subst IsDistinct (some-injective (collect_kernels P w 0 entries) queue e)
            (collect_kernels-IsDistinct 0 entries (names entries refl))

  -- If no name is twice in the kernel directory, a queue that starts with the kernels found there, or
  -- empty in the test mode, and to which any kernels are then installed, has no two kernels of the same
  -- source path; and a kernel that is installed next is in it.
  pub Reached-IsDistinct :
      ((entries : List Bytes)
        → P.host.list_dir w.host w.manager.kernel_dir ≡ some entries
        → IsDirectory entries)
      → (queue : List Kernel) → Reached queue
      → (kernel : Kernel) → IsDistinct queue × (queued kernel (enqueue kernel queue) ≡ true)
  Reached-IsDistinct law queue r kernel =
      let d = distinct queue r in (d, (enqueue-IsDistinct kernel queue d).1)
    where
      distinct : (queue : List Kernel) → Reached queue → IsDistinct queue
      distinct _ (started queue e) = start_queue-IsDistinct law queue e
      distinct _ (installed k queue r) = (enqueue-IsDistinct k queue (distinct queue r)).0
