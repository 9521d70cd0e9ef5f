-- ===== src/Tests/Updates.antt =====
-- bootman/update.c and bootman/kernel.c on a running system.
use mathlib.Core.Path.{subst}
use mathlib.Core.Option.{some-injective}
use clr_boot_manager.Prelude.{
  ℕ, ◌≡◌, ◌≢◌, ◌↔◌, refl, ap, true, false, none, some, [], ◌∷◌, ◌++◌, Bytes, codes, streq,
  starts_with, Among,
}
use clr_boot_manager.Int.{ℤ, pos, negsuc, to_int16}
use clr_boot_manager.Kernel.{Kernel}
use clr_boot_manager.Kernel.Inspect.{get_kernels, kernel_of_name, default_link}
use clr_boot_manager.Kernel.Select.{get_last_booted, map_kernels, get_running_kernel}
use clr_boot_manager.Kernel.Select.LastBooted.{Outcome, get_last_booted-Outcome}
use clr_boot_manager.Kernel.Select.Groups.{group, group-map_kernels}
use clr_boot_manager.Monad.{keeps, ◌>>=◌, ◌>>◌, asks, pure, and_then, call, modify, for_all}
use clr_boot_manager.BootMan.Kernels.{install_kernel, remove_kernel, when_sane}
use clr_boot_manager.BootMan.Freestanding.{copy_initrd_freestanding, remove_initrd_freestanding}
use clr_boot_manager.Kernel.Paths.{path_or_null, is_usr}
use clr_boot_manager.Kernel.Blobs.{
  install_kernel_internal, install_blobs, install_initrd, copy_if_changed, copy_extra_initrds,
  drop_legacy, remove_legacy_uefi_kernel, remove_if_there, remove_kernel_internal, remove_blobs,
  purge_dir, remove_file, remove_extra_initrds, initrd_source,
}
use clr_boot_manager.Files.{files_match, cbm_sync}
use clr_boot_manager.SysConfig.{is_sysconfig_sane}
use clr_boot_manager.BootMan.BootDir.{
  with_loader, set_boot_dir, init_loader, get_boot_dir, has_all, is_uefi, efi_boot_dir,
}
use clr_boot_manager.BootMan.Loader.{needs_install, needs_update, modify_bootloader, run_operation}
use clr_boot_manager.Update.{
  native_with, update_types, update_type, finish_native, cleanup_native, is_kernel,
  get_default_for_type, new_default, set_if_any, first_kernel, install_if_any, update_native,
  update_kernels, find_running, sorted, tip_of, removable, update_bootloader,
}
use clr_boot_manager.Update.Safety.{Spares, update_native-Keeps}
use clr_boot_manager.Update.Results.{update_kernels-failed}
use clr_boot_manager.Update.Plan.Native.{Updated, update_native-Updated}
use clr_boot_manager.Update.Removals.{Differs, removable_iff}
use clr_boot_manager.BootLoaders.Syslinux.Queue.{queued, enqueue, IsDistinct}
use clr_boot_manager.BootLoaders.Syslinux.Queue.Start.{
  listed, IsDirectory, Reached-IsDistinct, started, installed,
}
use clr_boot_manager.BootLoaders.Syslinux.Setup.{start_queue}
use clr_boot_manager.Tests.Machine.{names, platform, platform-IsLawful, manager, world, loader_of}

-- The record of a kernel of type native and version 5.4.
abbrev native : ℕ → ℤ → Bytes → Kernel
native addr release name =
    kernel_of_name platform (world true) addr (codes "/usr/lib/kernel/" ++ name)
      (record { ktype = codes "native"; version = codes "5.4"; release = release })

abbrev running : Kernel
running = native 0 (pos 10) (codes "org.clr.native.5.4-10")

abbrev older : Kernel
older = native 1 (pos 9) (codes "org.clr.native.5.4-9")

two_kernels : get_kernels platform (world true) ≡ some (running ∷ older ∷ [])
unfolding get_kernels streq starts_with
two_kernels = refl

succeeds : (update_native platform (world true)).0 ≡ true
unfolding update_native native_with update_kernels update_types update_type finish_native
    cleanup_native ◌>>=◌ ◌>>◌ asks pure and_then call modify for_all get_kernels streq starts_with
    map_kernels copy_initrd_freestanding with_loader update_bootloader needs_install needs_update
    loader_of modify_bootloader is_sysconfig_sane set_boot_dir init_loader get_boot_dir has_all
    is_uefi efi_boot_dir run_operation install_kernel remove_kernel when_sane
    install_kernel_internal install_blobs install_initrd copy_if_changed files_match
    copy_extra_initrds drop_legacy remove_legacy_uefi_kernel remove_if_there remove_kernel_internal
    remove_blobs purge_dir remove_file remove_extra_initrds cbm_sync find_running get_running_kernel
    removable is_kernel tip_of get_default_for_type get_last_booted new_default set_if_any
    remove_initrd_freestanding first_kernel install_if_any initrd_source path_or_null default_link
    to_int16 is_usr
succeeds = refl

two_kernels-Spares :
    Spares platform
      (λ w. w.host ≡ tt)
      (find_running (manager true) (sorted platform (running ∷ older ∷ [])))
      (sorted platform (running ∷ older ∷ []))
two_kernels-Spares = record {
  loading = keeps (λ w q. refl);
  copying = keeps (λ w q. refl);
  cleaning = keeps (λ w q. refl);
  installing = λ k. keeps (λ w q. refl);
  choosing = λ k. keeps (λ w q. refl);
  removing = λ k spare. keeps (λ w q. refl);
}

update_native-Keeps_example : (update_native platform (world true)).1.host ≡ tt
update_native-Keeps_example =
    update_native-Keeps platform platform-IsLawful (λ w. w.host ≡ tt) (world true) running
      (older ∷ []) two_kernels two_kernels-Spares refl

update_native-Updated_example :
    Updated platform
      (sorted platform (running ∷ older ∷ []))
      (world true)
      (update_native platform (world true)).1
update_native-Updated_example =
    update_native-Updated platform running (older ∷ []) (world true)
      (update_native platform (world true)).1 two_kernels
      (ap (λ ok. (ok, (update_native platform (world true)).1)) succeeds)

one_group : map_kernels (running ∷ older ∷ []) ≡ (codes "native", running ∷ older ∷ []) ∷ []
unfolding map_kernels streq kernel_of_name
one_group = refl

not_installed :
    (install_kernel platform
      (tip_of platform (codes "native") (running ∷ older ∷ []) (world false))
      (world false)).0
    ≡ false
unfolding install_kernel tip_of default_link with_loader ◌>>=◌ asks when_sane is_sysconfig_sane pure
not_installed = refl

-- Without a root device no kernel is installed.
update_kernels-failed_example :
    update_kernels platform true none (running ∷ older ∷ []) (world false) ≡ (
      false,
      (remove_initrd_freestanding platform
          (install_kernel platform
            (tip_of platform (codes "native") (running ∷ older ∷ []) (world false))
            (world false)).1).1,
    )
unfolding install_if_any pure
update_kernels-failed_example =
    update_kernels-failed platform true none (running ∷ older ∷ []) (running ∷ older ∷ [])
      (codes "native") [] (world false) one_group (world false) refl not_installed

removable_iff_example :
    Among older (removable (some running) (some running) none (running ∷ older ∷ [])) ↔ (
      Among older (running ∷ older ∷ [])
      × (older.addr ≢ running.addr)
      × Differs (some running) older
      × Differs none older)
removable_iff_example = removable_iff running older (some running) none (running ∷ older ∷ [])

get_last_booted-Outcome_example :
    Outcome none (negsuc 0) (older ∷ running ∷ []) (get_last_booted (older ∷ running ∷ []))
get_last_booted-Outcome_example = get_last_booted-Outcome (older ∷ running ∷ [])

group-map_kernels_example :
    group (codes "native") (map_kernels (running ∷ older ∷ [])) ≡ running ∷ older ∷ []
unfolding streq kernel_of_name
group-map_kernels_example = group-map_kernels (codes "native") (running ∷ older ∷ [])

two_queued : start_queue platform (world true) ≡ some (running ∷ older ∷ [])
unfolding start_queue
two_queued = two_kernels

names-IsDirectory : IsDirectory names
unfolding listed streq
names-IsDirectory = (refl, (refl, (refl, tt)))

-- The older kernel is installed again, and then a third one.
Reached-IsDistinct_example :
    IsDistinct (enqueue older (running ∷ older ∷ []))
    × (queued (native 2 (pos 11) (codes "org.clr.native.5.4-11")) (
          enqueue
            (native 2 (pos 11) (codes "org.clr.native.5.4-11"))
            (enqueue older (running ∷ older ∷ [])))
        ≡ true)
unfolding streq
Reached-IsDistinct_example =
    Reached-IsDistinct platform (world true)
      (λ entries e. subst IsDirectory (some-injective names entries e) names-IsDirectory)
      (enqueue older (running ∷ older ∷ []))
      (installed older (running ∷ older ∷ []) (started (running ∷ older ∷ []) two_queued))
      (native 2 (pos 11) (codes "org.clr.native.5.4-11"))
