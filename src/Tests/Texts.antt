-- ===== src/Tests/Texts.antt =====
-- The names of bootman/kernel.c and the command lines of lib/cmdline.c.
use clr_boot_manager.Prelude.{◌++◌, ◌≡◌, refl, some, ◌∷◌, Bytes, codes, arith}
use clr_boot_manager.Int.{to_long, pos, negsuc, to_int16}
use clr_boot_manager.Libc.{has_byte, show_ℤ}
use clr_boot_manager.Kernel.Name.{
  KernelName, parse_kernel_name, show_kernel_name, show_uname, parse_system_kernel,
}
use clr_boot_manager.Kernel.Name.RoundTrip.{
  IsName, IsUname, parse-show_kernel_name, parse-show_uname,
}
use clr_boot_manager.Kernel.Name.Bounds.{Fits, parse_system_kernel-Fits}
use clr_boot_manager.Cmdline.{parse_file_internal, remove_option}
use clr_boot_manager.Cmdline.Normal.{IsNormal, parse_file-IsNormal}
use clr_boot_manager.Cmdline.Removal.{remove_option-first}

abbrev clear_name : KernelName
clear_name = record { ktype = codes "native"; version = codes "5.4.1"; release = pos 40000 }

clear_name-IsName : IsName clear_name
clear_name-IsName = record {
  type_some = omega arith;
  type_fits = omega arith;
  type_no_dot = unfold has_byte in refl;
  version_some = omega arith;
  version_fits = omega arith;
  version_no_dash = unfold has_byte in refl;
}

clear_name-IsUname : IsUname clear_name
unfolding show_ℤ
clear_name-IsUname = record {
  version_fits = (omega arith, omega arith);
  version_no_dash = unfold has_byte in refl;
  release_fits = omega arith;
  type_fits = (omega arith, omega arith);
}

parse-show_kernel_name_example :
    parse_kernel_name (codes "org.clr") (codes "org.clr.native.5.4.1-40000") ≡ some clear_name
unfolding show_kernel_name show_ℤ
parse-show_kernel_name_example =
    parse-show_kernel_name (codes "org.clr") clear_name clear_name-IsName

-- A release that does not fit in 16 bits.
parse-show_uname_example :
    parse_system_kernel (codes "5.4.1-40000.native")
    ≡ some (record { version = codes "5.4.1"; ktype = codes "native"; release = negsuc 25535 })
unfolding show_uname show_ℤ to_int16 to_long
parse-show_uname_example = parse-show_uname clear_name clear_name-IsUname

parse_system_kernel-Fits_example :
    Fits (record { version = codes "5.4.1"; ktype = codes "native"; release = negsuc 25535 })
parse_system_kernel-Fits_example =
    parse_system_kernel-Fits (codes "5.4.1-40000.native") _ parse-show_uname_example

abbrev options : Bytes
options = codes "  quiet  \n# a comment\n\nrw loglevel=3\n"

written : parse_file_internal (some options) ≡ codes "quiet rw loglevel=3"
unfolding parse_file_internal
written = refl

parse_file-IsNormal_example : IsNormal (parse_file_internal (some options))
parse_file-IsNormal_example = parse_file-IsNormal options

-- The end of a longer option is removed from it.
remove_option-first_example :
    (remove_option (codes "noquiet") (codes "quiet") ≡ codes "no")
    × (remove_option (codes "noquiet splash") (codes "quiet") ≡ codes "nosplash")
    × (remove_option (codes "noquiet" ++ (0 ∷ codes "splash")) (codes "quiet")
        ≡ codes "no" ++ (0 ∷ codes "splash"))
    × (remove_option (codes "noquiet,splash") (codes "quiet") ≡ codes "noquiet,splash")
remove_option-first_example =
    remove_option-first b'q' b',' (codes "no") (codes "uiet") (codes "splash")
      (unfold has_byte in refl) refl refl
