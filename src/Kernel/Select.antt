-- ===== src/Kernel/Select.antt =====
-- bootman/kernel.c and bootman/bootman.c: how kernels are found in an array and grouped by type.
pub mod LastBooted
pub mod Groups
use clr_boot_manager.Prelude.{
  Bool, true, false, not, ◌&&◌, Option, none, some, List, [], ◌∷◌, ◌++◌, Bytes, if◌then◌else◌,
  streq, find_first,
}
use clr_boot_manager.Int.{ℤ, pos, negsuc, ltb_ℤ, eqb_ℤ}
use clr_boot_manager.Kernel.{Kernel, SystemKernel}

-- `kernel_compare_reverse`
unfoldable pub kernel_compare_reverse : Kernel → Kernel → ℤ
kernel_compare_reverse ka kb = if ltb_ℤ kb.meta.release ka.meta.release then negsuc 0 else pos 1

-- The loop of `boot_manager_get_default_for_type`, on the target of the link.
unfoldable pub get_linked : Bytes → List Kernel → Option Kernel
get_linked linkbuf = find_first (λ k. streq k.meta.bpath linkbuf)

abbrev pub is_running : SystemKernel → Kernel → Bool
is_running k cur =
    streq cur.meta.ktype k.ktype
    && streq cur.meta.version k.version
    && eqb_ℤ cur.meta.release k.release

abbrev pub is_running_fallback : SystemKernel → Kernel → Bool
is_running_fallback k cur = streq cur.meta.ktype k.ktype && eqb_ℤ cur.meta.release k.release

-- `boot_manager_get_running_kernel`, on what `boot_manager_get_system_kernel` returns.
unfoldable pub get_running_kernel : Option SystemKernel → List Kernel → Option Kernel
get_running_kernel none kernels = none
get_running_kernel (some k) kernels = find_first (is_running k) kernels

-- `boot_manager_get_running_kernel_fallback`
unfoldable pub get_running_kernel_fallback : Option SystemKernel → List Kernel → Option Kernel
get_running_kernel_fallback none kernels = none
get_running_kernel_fallback (some k) kernels = find_first (is_running_fallback k) kernels

-- The loop of `boot_manager_get_last_booted`, with `candidate` and `high_rel`.
unfoldable pub last_booted_from : Option Kernel → ℤ → List Kernel → Option Kernel
last_booted_from candidate high_rel [] = candidate
last_booted_from candidate high_rel (k ∷ ks) =
    let better = not (ltb_ℤ k.meta.release high_rel) && k.meta.boots in
    last_booted_from (if better then some k else candidate)
      (if better then k.meta.release else high_rel) ks

unfoldable pub get_last_booted : List Kernel → Option Kernel
unfolding last_booted_from
get_last_booted = last_booted_from none (negsuc 0)

-- Adds a kernel to the array of its type, which is made if the map has none.
unfoldable pub map_kernel : List (Bytes × List Kernel) → Kernel → List (Bytes × List Kernel)
map_kernel [] k = (k.meta.ktype, k ∷ []) ∷ []
map_kernel ((type, ks) ∷ m) k =
    if streq type k.meta.ktype then (type, ks ++ (k ∷ [])) ∷ m else (type, ks) ∷ map_kernel m k

unfoldable pub map_onto : List (Bytes × List Kernel) → List Kernel → List (Bytes × List Kernel)
unfolding map_kernel
map_onto m [] = m
map_onto m (k ∷ ks) = map_onto (map_kernel m k) ks

-- `boot_manager_map_kernels`
unfoldable pub map_kernels : List Kernel → List (Bytes × List Kernel)
unfolding map_onto
map_kernels = map_onto []

-- The test by which a kernel that a command names is matched to one in the kernel directory.
unfoldable pub same_kernel : Kernel → Kernel → Bool
same_kernel kernel k =
    streq kernel.meta.ktype k.meta.ktype
    && streq kernel.meta.version k.meta.version
    && eqb_ℤ kernel.meta.release k.meta.release
