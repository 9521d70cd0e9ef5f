-- ===== src/BootMan/Kernels.antt =====
-- bootman/bootman.c: installing and removing kernels, and the default kernel.
use clr_boot_manager.Prelude.{
  Bool, false, Option, none, some, List, [], ◌∷◌, ◌++◌, Bytes, if◌then◌else◌, codes, streq,
  find_first, map,
}
use clr_boot_manager.Kernel.{Kernel}
use clr_boot_manager.Kernel.Blobs.{install_kernel_internal, remove_kernel_internal}
use clr_boot_manager.Kernel.Inspect.{get_kernels}
use clr_boot_manager.Kernel.Select.{kernel_compare_reverse, same_kernel}
use clr_boot_manager.Platform.{Platform, BootLoader, M}
use clr_boot_manager.Monad.{pure, ◌>>=◌, and_then, asks}
use clr_boot_manager.SysConfig.{is_sysconfig_sane}
use clr_boot_manager.BootMan.BootDir.{with_loader}
use clr_boot_manager.BootMan.Mount.{with_boot_mounted}

module _ (P : Platform) where
  -- `body` if the system configuration is sane; the other early returns are `with_loader`'s.
  unfoldable pub when_sane : {A : Type 0} → A → M P.host.State A → M P.host.State A
  when_sane missing body = do
    sane ← asks (λ w. is_sysconfig_sane w.manager.sysconfig)
    if sane then body else pure missing

  -- `boot_manager_install_kernel`; the kernel may be NULL.
  unfoldable pub install_kernel : Option Kernel → M P.host.State Bool
  install_kernel none = pure false
  install_kernel (some k) =
      with_loader P false
        (λ l. when_sane false (and_then (install_kernel_internal P k) (l.install_kernel k)))

  -- `boot_manager_remove_kernel`
  unfoldable pub remove_kernel : Kernel → M P.host.State Bool
  remove_kernel k =
      with_loader P false
        (λ l. when_sane false (and_then (remove_kernel_internal P k) (l.remove_kernel k)))

  remove_found : Option Kernel → M P.host.State Bool
  remove_found none = pure false
  remove_found (some k) = remove_kernel k

  remove_among : Kernel → Option (List Kernel) → M P.host.State Bool
  unfolding remove_found
  remove_among kernel none = pure false
  remove_among kernel (some []) = pure false
  remove_among kernel (some (k ∷ ks)) =
      with_boot_mounted P false (remove_found (find_first (same_kernel kernel) (k ∷ ks)))

  -- `boot_manager_remove_kernel_wrapper`
  unfoldable pub remove_kernel_wrapper : Kernel → M P.host.State Bool
  unfolding remove_among
  remove_kernel_wrapper kernel =
      with_loader P false (λ l. when_sane false (asks (get_kernels P) >>= remove_among kernel))

  -- The loader is given the kernel of the caller, not the one that matched.
  set_found : BootLoader P.host.State → Kernel → Option Kernel → M P.host.State Bool
  set_found l kernel none = pure false
  set_found l kernel (some k) = l.set_default_kernel kernel

  set_among : BootLoader P.host.State → Kernel → Option (List Kernel) → M P.host.State Bool
  unfolding set_found
  set_among l kernel none = pure false
  set_among l kernel (some []) = pure false
  set_among l kernel (some (k ∷ ks)) =
      with_boot_mounted P false (set_found l kernel (find_first (same_kernel kernel) (k ∷ ks)))

  -- `boot_manager_set_default_kernel`
  unfoldable pub set_default_kernel : Kernel → M P.host.State Bool
  unfolding set_among
  set_default_kernel kernel =
      with_loader P false (λ l. when_sane false (asks (get_kernels P) >>= set_among l kernel))

  -- `boot_manager_get_default_kernel`
  unfoldable pub get_default_kernel : M P.host.State (Option Bytes)
  get_default_kernel = with_loader P none (λ l. when_sane none l.get_default_kernel)

  -- A line of the listing. No default is given to no kernel.
  unfoldable pub list_line : Option Bytes → Kernel → Bytes
  list_line none k = codes "  " ++ k.meta.bpath
  list_line (some default_kernel) k =
      (if streq default_kernel k.meta.bpath then codes "* " else codes "  ") ++ k.meta.bpath

  list_among : Option (List Kernel) → M P.host.State (Option (List Bytes))
  unfolding list_line
  list_among none = pure none
  list_among (some []) = pure none
  list_among (some (k ∷ ks)) = do
    default_kernel ← with_boot_mounted P none get_default_kernel
    pure (some (map (list_line default_kernel) (P.qsort kernel_compare_reverse (k ∷ ks))))

  -- `boot_manager_list_kernels`
  unfoldable pub list_kernels : M P.host.State (Option (List Bytes))
  unfolding list_among
  list_kernels = asks (get_kernels P) >>= list_among
