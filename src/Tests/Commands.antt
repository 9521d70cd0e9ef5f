-- ===== src/Tests/Commands.antt =====
-- The commands of the tool.
use clr_boot_manager.Tests.TextMap.{put, get}
use clr_boot_manager.Prelude.{
  ◌≡◌, refl, ℕ, true, Option, none, some, [], ◌∷◌, Bytes, codes, streq_refl, is_some, starts_with,
  arith,
}
use clr_boot_manager.Int.{to_long, to_int32, pos, negsuc}
use clr_boot_manager.Libc.{scan_int, basename, show_ℤ, has_byte}
use clr_boot_manager.Kernel.{Kernel}
use clr_boot_manager.Kernel.Name.{KernelName, parse_kernel_name, parse_system_kernel, show_uname}
use clr_boot_manager.Kernel.Name.RoundTrip.{IsUname}
use clr_boot_manager.Kernel.Paths.{skip_slashes}
use clr_boot_manager.Kernel.Inspect.{kernel_of_name, inspect_kernel}
use clr_boot_manager.Platform.{Host, Platform, World}
use clr_boot_manager.Monad.{pure, ◌>>=◌, ◌>>◌, and_then, asks, call}
use clr_boot_manager.Files.{cbm_sync}
use clr_boot_manager.Files.Text.{file_set_text, write_synced, unlink_if_there}
use clr_boot_manager.Cli.{Process}
use clr_boot_manager.Cli.Update.{silent}
use clr_boot_manager.Cli.Kernels.Ids.{Selects, inspect_kernel-Selects}
use clr_boot_manager.Cli.Config.{timeout_of_operand}
use clr_boot_manager.Cli.Config.Checks.{timeout_of_operand-show_ℤ}
use clr_boot_manager.Cli.Booted.{command_report_booted, report}
use clr_boot_manager.Cli.Booted.Marked.{KeepsMarks, report_booted-Boots}
use clr_boot_manager.Cli.Main.{main}
use clr_boot_manager.Cli.Main.Root.{main-unprivileged}
use clr_boot_manager.Tests.Machine.{build, boot_loader, platform, world, manager}
use clr_boot_manager.Tests.Disk.{disk, set}

-- A process of a user, on a system with a kernel of its own; no option is given.
abbrev process : {S : Type 0} → ℕ → Process S
process user = record {
  geteuid = λ s. user;
  uname = λ s. some (codes "5.4-10.native");
  getopt_long = λ argv. ([], argv);
}

main-unprivileged_example :
    ((main platform (process 1000) (codes "update" ∷ []) tt).1 ≡ tt)
    × ((main platform (process 1000) (codes "update" ∷ []) tt).0.1 ≡ [])
main-unprivileged_example = main-unprivileged platform (process 1000) (codes "update" ∷ []) tt refl

-- The name of the kernel that runs.
abbrev running_name : KernelName
running_name = record { ktype = codes "native"; version = codes "5.4"; release = pos 10 }

abbrev kernel_path : Bytes
kernel_path = codes "/usr/lib/kernel/org.clr.native.5.4-10"

abbrev found : Kernel
found = kernel_of_name platform (world true) 0 kernel_path running_name

found_there : inspect_kernel platform (world true) 0 kernel_path ≡ some found
unfolding inspect_kernel parse_kernel_name basename starts_with
found_there = refl

inspect_kernel-Selects_example : Selects platform (world true) found
inspect_kernel-Selects_example =
    inspect_kernel-Selects platform (world true) 0 kernel_path found found_there

timeout_of_operand-show_ℤ_example : timeout_of_operand (codes "-5") ≡ none
unfolding show_ℤ
timeout_of_operand-show_ℤ_example = timeout_of_operand-show_ℤ (negsuc 4) (omega arith, omega arith)

-- A number beyond `int` is judged by its low 32 bits.
wrapped_timeout : timeout_of_operand (codes "4294967295") ≡ some (negsuc 0)
unfolding timeout_of_operand to_int32 to_long scan_int
wrapped_timeout = refl

-- A system whose paths start with any number of slashes.
abbrev slash_disk : Host
slash_disk = record disk {
  file_exists = λ s path. is_some (s (skip_slashes path));
  write = λ path text s. (true, set (skip_slashes path) (some text) s);
}

slash_disk-KeepsMarks : KeepsMarks slash_disk
unfolding set skip_slashes
slash_disk-KeepsMarks = record {
  written_there = λ path text s ok. rw (streq_refl (skip_slashes path));
  same_root = λ path s. refl;
}

abbrev slash_platform : Platform
slash_platform = record {
  host = slash_disk;
  config = build;
  loader = λ i. boot_loader 38;
  known_loaders = [];
  qsort = λ compare ks. ks;
  map_order = λ m. m;
  initrd_order = λ m. m;
  map_put = put;
  map_get = get;
}

abbrev no_files : Bytes → Option Bytes
no_files path = none

running_name-IsUname : IsUname running_name
unfolding show_ℤ has_byte
running_name-IsUname = record {
  version_fits = omega arith;
  version_no_dash = refl;
  release_fits = omega arith;
  type_fits = omega arith;
}

reported : (command_report_booted slash_platform (process 0) [] no_files).0.ok ≡ true
unfolding command_report_booted report silent parse_system_kernel file_set_text write_synced
    unlink_if_there cbm_sync and_then asks call pure ◌>>=◌ ◌>>◌ skip_slashes set
reported = refl

abbrev later : World slash_disk.State
later = record {
  manager = manager true;
  host = (command_report_booted slash_platform (process 0) [] no_files).1;
}

report_booted-Boots_example :
    (kernel_of_name slash_platform later 0 kernel_path running_name).meta.boots ≡ true
unfolding show_uname show_ℤ to_long
report_booted-Boots_example =
    report_booted-Boots slash_platform (process 0) slash_disk-KeepsMarks running_name [] no_files
      running_name-IsUname refl reported later refl refl 0 kernel_path
