-- ===== src/Cli/Booted.antt =====
-- cli/ops/report_booted.c: the mark of a kernel that booted.
pub mod Marked
use clr_boot_manager.Prelude.{
  Bool, true, false, Option, none, some, List, [], ◌++◌, Bytes, if◌then◌else◌, codes,
}
use clr_boot_manager.Kernel.{SystemKernel}
use clr_boot_manager.Kernel.Inspect.{◌//◌}
use clr_boot_manager.Kernel.Name.{parse_system_kernel, show_uname}
use clr_boot_manager.Platform.{Host, Platform, World, M}
use clr_boot_manager.Monad.{pure, ◌>>=◌, ◌>>◌, and_then, asks, call}
use clr_boot_manager.Files.Text.{file_set_text}
use clr_boot_manager.Cli.{Process, Reply, failed, blank_manager}
use clr_boot_manager.Cli.Update.{silent}

-- `cbm_set_sync_filesystems(false)`: what follows does not sync.
abbrev pub unsynced : Host → Host
unsynced H = record H { sync = λ s. s }

abbrev pub lib_dir : Bytes
lib_dir = codes "/var/lib/kernel"

-- "/var/lib/kernel/k_booted_%s-%d.%s"
unfoldable pub boot_rep_path : SystemKernel → Bytes
boot_rep_path sys =
    codes "/var/lib/kernel/k_booted_"
    ++ show_uname (record { version = sys.version; ktype = sys.ktype; release = sys.release })

module _ (P : Platform) (process : Process P.host.State) where
  ensure_lib_dir : M P.host.State Bool
  ensure_lib_dir = do
    there ← asks (λ w. P.host.file_exists w.host lib_dir)
    if there then pure true else call (P.host.mkdir_p lib_dir)

  unfoldable pub report : SystemKernel → M P.host.State Bool
  unfolding boot_rep_path ensure_lib_dir
  report sys =
      and_then ensure_lib_dir
        (file_set_text (unsynced P.host) (boot_rep_path sys) (codes "clr-boot-manager file\n"))

  report_if_known : Option SystemKernel → M P.host.State Bool
  unfolding report
  report_if_known none = pure false
  report_if_known (some sys) = report sys

  system_of : Option Bytes → Option SystemKernel
  system_of none = none
  system_of (some release) = parse_system_kernel release

  -- `cbm_command_report_booted`; it has no manager.
  unfoldable pub command_report_booted : List Bytes → P.host.State → Reply × P.host.State
  unfolding report_if_known system_of silent
  command_report_booted argv s =
      let r =
        silent P (report_if_known (system_of (process.uname s)))
          (record { manager = blank_manager P process; host = s }) in
      (r.0, r.1.host)
