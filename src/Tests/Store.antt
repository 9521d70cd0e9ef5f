-- ===== src/Tests/Store.antt =====
-- A system whose state is its files, with the timeout of bootman/config.c, and lib/os-release.c.
use clr_boot_manager.Prelude.{
  ◌≡◌, refl, true, Option, none, some, [], ◌∷◌, Bytes, codes, streq, if◌then◌else◌, arith,
}
use clr_boot_manager.Int.{pos}
use clr_boot_manager.Libc.{has_byte, toupper, lines, skip_space, split_at}
use clr_boot_manager.Cmdline.{rstrip}
use clr_boot_manager.Platform.{World}
use clr_boot_manager.Files.{
  copy_file_atomic, copy_file, send_stat, send_all, replace_target, clear_target, cbm_sync,
}
use clr_boot_manager.Files.Atomic.{copy_file_atomic-copies}
use clr_boot_manager.Monad.{and_then, asks, call, ◌>>=◌, ◌>>◌}
use clr_boot_manager.BootMan.Config.{
  set_timeout_value, get_timeout_value, set_console_mode, get_console_mode, write_sysconf_file,
  write_contents,
}
use clr_boot_manager.BootMan.Config.Timeout.{
  IsValue, get_timeout_value-set_timeout_value, get_console_mode-set_console_mode,
}
use clr_boot_manager.OsRelease.{
  assignment_of_text, assignment, field_of_line, unquote, pretty_name, os_release_field,
  parse_lines, get_value, os_release_new,
}
use clr_boot_manager.OsRelease.Quoted.{IsHashMap, IsOther, get_value-parse_lines}
use clr_boot_manager.Tests.TextMap.{put, get-put, get-put_other}
use clr_boot_manager.Tests.Disk.{
  disk, set, send, disk-SendsBytes, disk-Replaces, disk-StoresFiles, platform_of_disk,
}
use clr_boot_manager.Tests.Machine.{manager}

-- A file with three bytes is copied over another.
abbrev two_files : World (Bytes → Option Bytes)
two_files = record {
  manager = manager true;
  host = λ path.
      if streq path (codes "a")
      then some (codes "xyz")
      else if streq path (codes "b")
      then some []
      else none;
}

copied : (copy_file_atomic disk (codes "a") (codes "b") two_files).0 ≡ true
unfolding copy_file_atomic ◌>>=◌ copy_file streq send_stat set send_all replace_target ◌>>◌
    clear_target cbm_sync send
copied = refl

copy_file_atomic-copies_example :
    disk.read (copy_file_atomic disk (codes "a") (codes "b") two_files).1.host (codes "b")
    ≡ some (codes "xyz")
copy_file_atomic-copies_example =
    copy_file_atomic-copies disk (codes "a") (codes "b")
      (disk-SendsBytes (codes "b.TmpWrite") (codes "a") (unfold streq in refl))
      (disk-Replaces (codes "b.TmpWrite") (codes "b") (unfold streq in refl)) (codes "xyz")
      two_files (unfold streq in refl) copied

abbrev fresh : World (Bytes → Option Bytes)
fresh = record { manager = manager true; host = λ path. none }

get_timeout_value-set_timeout_value_example :
    get_timeout_value platform_of_disk (set_timeout_value platform_of_disk (pos 20) fresh).1
    ≡ pos 20
get_timeout_value-set_timeout_value_example =
    get_timeout_value-set_timeout_value platform_of_disk disk-StoresFiles 20 fresh (omega arith)
      (unfold set_timeout_value write_sysconf_file write_contents and_then asks call ◌>>=◌ in refl)

auto-IsValue : IsValue (codes "auto")
auto-IsValue = record { no_newline = unfold has_byte in refl; no_nul = unfold has_byte in refl }

get_console_mode-set_console_mode_example :
    get_console_mode platform_of_disk
      (set_console_mode platform_of_disk (some (codes "auto")) fresh).1
    ≡ some (codes "auto")
get_console_mode-set_console_mode_example =
    get_console_mode-set_console_mode platform_of_disk disk-StoresFiles (codes "auto") fresh
      auto-IsValue
      (unfold set_console_mode write_sysconf_file write_contents and_then asks call ◌>>=◌ in refl)

abbrev os_release : Bytes
os_release =
    codes "# Clear\nname='Clear Linux'\nID=clear-linux-os\nBUG_REPORT_URL=\nNAME=\"Solus\"\n"

last_name :
    os_release_new platform_of_disk (some os_release)
    ≡ (codes "NAME", codes "Solus") ∷ (codes "ID", codes "clear-linux-os") ∷ []
unfolding os_release_new lines assignment_of_text skip_space assignment split_at rstrip put streq
    toupper unquote
last_name = refl

disk-IsHashMap : IsHashMap platform_of_disk
disk-IsHashMap = record { same = get-put; other = get-put_other }

field-IsOther : IsOther (codes "PRETTY_NAME") (field_of_line (codes "ID=solus"))
unfolding field_of_line skip_space assignment_of_text assignment split_at rstrip toupper unquote
    streq
field-IsOther = refl

get_value-parse_lines_example :
    get_value platform_of_disk
      (parse_lines platform_of_disk []
        (codes "PRETTY_NAME=x" ∷ codes "PRETTY_NAME=\"Solus 4\"" ∷ codes "ID=solus" ∷ []))
      pretty_name
    ≡ codes "Solus 4"
unfolding os_release_field
get_value-parse_lines_example =
    get_value-parse_lines platform_of_disk disk-IsHashMap pretty_name (codes "Solus 4")
      (codes "PRETTY_NAME=x" ∷ []) (codes "ID=solus" ∷ []) [] (field-IsOther, tt)
