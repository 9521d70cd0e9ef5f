-- ===== src/Kernel/Inspect/Found.antt =====
-- bootman/kernel.c: what is known of a kernel that was found.
use clr_boot_manager.Prelude.{
  ◌≡◌, refl, sym, ℕ, Bool, true, false, Option, none, some, Bytes, if◌then◌else◌,
}
use clr_boot_manager.Libc.{basename}
use clr_boot_manager.Kernel.{Kernel}
use clr_boot_manager.Kernel.Name.{KernelName, parse_kernel_name}
use clr_boot_manager.Kernel.Inspect.{kernel_of_name, check_cmdline, inspect_kernel}
use clr_boot_manager.Platform.{Platform, World}

module _ (P : Platform) (w : World P.host.State) where
  check_cmdline-some : (k j : Kernel) → check_cmdline P w k ≡ some j → k ≡ j
  unfolding check_cmdline
  check_cmdline-some k j h = of_file k.source.cmdline_file h
    where
      of_test : (b : Bool) → (if b then some k else none) ≡ some j → k ≡ j
      of_test true e = cc
      of_test false e = cc

      of_file :
          (o : Option Bytes)
          → (elim o [
            | none ↦ none
            | some file ↦ if P.host.file_exists w.host file then some k else none
          ])
            ≡ some j
          → k ≡ j
      of_file none e = cc
      of_file (some file) e = of_test (P.host.file_exists w.host file) e

  -- A kernel that was found has a name that can be read, and is the record for it.
  pub inspect_kernel-some :
      (addr : ℕ) (path : Bytes) (k : Kernel)
      → inspect_kernel P w addr path ≡ some k
      → (n : KernelName) × (parse_kernel_name P.config.kernel_namespace (basename path) ≡ some n)
        × (kernel_of_name P w addr path n ≡ k)
  unfolding inspect_kernel
  inspect_kernel-some addr path k h =
      of_name (parse_kernel_name P.config.kernel_namespace (basename path)) refl h
    where
      of_name :
          (o : Option KernelName)
          → o ≡ parse_kernel_name P.config.kernel_namespace (basename path)
          → (elim o [ none ↦ none | some n ↦ check_cmdline P w (kernel_of_name P w addr path n) ])
            ≡ some k
          → (n : KernelName) × (parse_kernel_name P.config.kernel_namespace (basename path)
              ≡ some n)
            × (kernel_of_name P w addr path n ≡ k)
      of_name none e found = cc
      of_name (some n) e found = (n, sym e, check_cmdline-some _ k found)
