-- ===== src/Cli/Kernels/Ids.antt =====
-- cli/ops/kernels.c: the ids that name a kernel.
use clr_boot_manager.Prelude.{◌≡◌, ℕ, some, Bytes, streq_refl}
use mathlib.Core.Path.{subst}
use clr_boot_manager.Int.{to_int16, eqb_ℤ}
use clr_boot_manager.Libc.{basename}
use clr_boot_manager.Kernel.{Kernel}
use clr_boot_manager.Kernel.Name.{KernelName, parse_kernel_name}
use clr_boot_manager.Kernel.Select.{same_kernel}
use clr_boot_manager.Kernel.Inspect.{kernel_of_name, inspect_kernel}
use clr_boot_manager.Kernel.Inspect.Found.{inspect_kernel-some}
use clr_boot_manager.Platform.{Platform, World}
use clr_boot_manager.Cli.Kernels.{kernel_named, kernel_of_id}

module _ (P : Platform) (w : World P.host.State) where
  -- The name of a kernel as an id gives a name, which selects the kernel exactly if the release of
  -- the name is the one of the record.
  abbrev pub Selects : Kernel → Type 0
  Selects k =
      (n : KernelName) × (kernel_of_id P k.meta.bpath ≡ some (kernel_named n))
      × (same_kernel (kernel_named n) k ≡ eqb_ℤ n.release (to_int16 n.release))

  kernel_of_name-Selects :
      (addr : ℕ) (path : Bytes) (n : KernelName)
      → parse_kernel_name P.config.kernel_namespace (basename path) ≡ some n
      → Selects (kernel_of_name P w addr path n)
  unfolding kernel_of_name kernel_of_id kernel_named same_kernel
  kernel_of_name-Selects addr path n parsed =
      (n, rw (kernel_of_id, parsed), rw (streq_refl n.ktype, streq_refl n.version))

  -- The name under which list-kernels shows a kernel is an id that set-kernel and remove-kernel
  -- accept. It is the id of that kernel exactly if the release of the name fits in 16 bits: the
  -- record has a release that is cut, the id the whole one.
  pub inspect_kernel-Selects :
      (addr : ℕ) (path : Bytes) (k : Kernel) → inspect_kernel P w addr path ≡ some k → Selects k
  inspect_kernel-Selects addr path k e =
      let (n, parsed, made) = inspect_kernel-some P w addr path k e in
      subst Selects made (kernel_of_name-Selects addr path n parsed)
