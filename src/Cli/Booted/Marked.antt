-- ===== src/Cli/Booted/Marked.antt =====
-- cli/ops/report_booted.c and bootman/kernel.c: a kernel that reported itself is one that boots.
use clr_boot_manager.Prelude.{List, ◌≡◌, ◌∙◌, sym, ℕ, true, some, ◌∷◌, Bytes, codes}
use mathlib.Core.Path.{subst}
use clr_boot_manager.Int.{to_int16, to_long}
use clr_boot_manager.Kernel.{SystemKernel}
use clr_boot_manager.Kernel.Name.{KernelName, show_uname}
use clr_boot_manager.Kernel.Name.RoundTrip.{IsUname, parse-show_uname}
use clr_boot_manager.Kernel.Inspect.{kernel_of_name}
use clr_boot_manager.Platform.{Host, Platform, World}
use clr_boot_manager.Monad.{pure, ◌>>=◌, ◌>>◌, and_then_true, call}
use clr_boot_manager.Files.{cbm_sync}
use clr_boot_manager.Files.Text.{file_set_text, write_synced}
use clr_boot_manager.Cli.{Process, blank_manager}
use clr_boot_manager.Cli.Update.{silent}
use clr_boot_manager.Cli.Booted.{
  unsynced, boot_rep_path, report, report_if_known, system_of, command_report_booted,
}

-- A file that was written is there, and a doubled slash at the start of a path means no other file.
pub record KeepsMarks (H : Host) : Type 0 where
  pub written_there :
      (path text : Bytes) (s : H.State)
      → (H.write path text s).0 ≡ true
      → H.file_exists (H.write path text s).1 path ≡ true
  pub same_root :
      (path : Bytes) (s : H.State)
      → H.file_exists s (b'/' ∷ b'/' ∷ path) ≡ H.file_exists s (b'/' ∷ path)

-- What `uname` tells of a kernel, as it is read.
abbrev system_kernel : KernelName → SystemKernel
system_kernel k = record {
  version = k.version;
  ktype = k.ktype;
  release = to_int16 (to_long k.release);
}

module _ (P : Platform) (process : Process P.host.State) (keeps : KeepsMarks P.host) where
  abbrev IsMarked : Bytes → World P.host.State → Type 0
  IsMarked path w = P.host.file_exists w.host path ≡ true

  write_synced-IsMarked :
      (path text : Bytes) (w : World P.host.State)
      → (write_synced (unsynced P.host) path text w).0 ≡ true
      → IsMarked path (write_synced (unsynced P.host) path text w).1
  unfolding write_synced cbm_sync ◌>>=◌ ◌>>◌ call pure
  write_synced-IsMarked path text w ok = keeps.written_there path text w.host ok

  file_set_text-IsMarked :
      (path text : Bytes) (w : World P.host.State)
      → (file_set_text (unsynced P.host) path text w).0 ≡ true
      → IsMarked path (file_set_text (unsynced P.host) path text w).1
  unfolding file_set_text ◌>>◌
  file_set_text-IsMarked path text w ok =
      and_then_true _ _ (IsMarked path) w ok
        (λ gone written. write_synced-IsMarked path text _ written)

  report-IsMarked :
      (sys : SystemKernel) (w : World P.host.State)
      → (report P process sys w).0 ≡ true
      → IsMarked (boot_rep_path sys) (report P process sys w).1
  unfolding report
  report-IsMarked sys w ok =
      and_then_true _ _ (IsMarked (boot_rep_path sys)) w ok
        (λ made set. file_set_text-IsMarked (boot_rep_path sys) _ _ set)

  command-IsMarked :
      (sys : SystemKernel) (argv : List Bytes) (s : P.host.State)
      → system_of P process (process.uname s) ≡ some sys
      → (command_report_booted P process argv s).0.ok ≡ true
      → P.host.file_exists (command_report_booted P process argv s).1 (boot_rep_path sys) ≡ true
  unfolding command_report_booted silent ◌>>=◌ pure
  command-IsMarked sys argv s known ok =
      let start : World P.host.State = record { manager = blank_manager P process; host = s } in
      subst
        (λ o.
          (report_if_known P process o start).0 ≡ true
          → IsMarked (boot_rep_path sys) (report_if_known P process o start).1)
        (sym known) (unfold report_if_known in report-IsMarked sys start) ok

  -- A kernel that runs, and reports that it booted with success, is taken for one that boots by every
  -- later look at the kernel directory of the system at "/". The host tells the name of the kernel
  -- by `uname`, whose version and type have from 1 to 30 bytes, the version no dash, and the release
  -- fewer than 30, where a release beyond `long` is the nearest that one holds; a file that was written is there, and "//" at the start of a path is "/".
  pub report_booted-Boots :
      (k : KernelName) (argv : List Bytes) (s : P.host.State)
      → IsUname k
      → process.uname s ≡ some (show_uname k)
      → (command_report_booted P process argv s).0.ok ≡ true
      → (w : World P.host.State) → w.host ≡ (command_report_booted P process argv s).1
      → w.manager.sysconfig.prefix ≡ codes "/"
      → (addr : ℕ) (path : Bytes)
      → (kernel_of_name P w addr path (record k { release = to_long k.release })).meta.boots ≡ true
  unfolding kernel_of_name
  report_booted-Boots k argv s fits running ok w later root addr path =
      let known : system_of P process (process.uname s) ≡ some (system_kernel k) =
        rw running (unfold system_of in parse-show_uname k fits) in
      let marked = command-IsMarked (system_kernel k) argv s known ok in
      rw (root, later) (unfold boot_rep_path in keeps.same_root _ _ ∙ marked)
