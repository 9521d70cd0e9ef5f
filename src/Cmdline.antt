-- ===== src/Cmdline.antt =====
-- lib/cmdline.c and `rstrip` of lib/util.c: the kernel command line that is put together from files,
-- and the removal of options from it. Text streams in memory are the text written to them.
pub mod Options
pub mod Normal
pub mod Removal
use clr_boot_manager.Prelude.{
  ℕ, zero, suc, ◌+◌, ◌-◌, Bool, true, false, not, ◌&&◌, ◌||◌, Option, none, some, List, [], ◌∷◌,
  ◌++◌, Bytes, ◌==◌, leb, if◌then◌else◌, codes, streq, length, drop, is_some,
}
use clr_boot_manager.Libc.{isspace, skip_space, memmem, lines, basename}
use clr_boot_manager.Platform.{Host, Platform, no_match, matches, failed, GlobResult}

-- `rstrip` of lib/util.c
unfoldable pub rstrip : Bytes → Bytes
unfolding isspace
rstrip [] = []
rstrip (c ∷ s) = elim (rstrip s) [ [] ↦ if isspace c then [] else c ∷ [] | d ∷ r ↦ c ∷ d ∷ r ]

-- What is left of a line: none for a comment and for a line with nothing but white space.
not_blank : Bytes → Option Bytes
not_blank [] = none
not_blank s = some s

not_comment : Bytes → Option Bytes
not_comment [] = none
not_comment (c ∷ s) = if c == b'#' then none else not_blank (rstrip (c ∷ s))

unfoldable pub option_of_line : Bytes → Option Bytes
unfolding not_comment not_blank rstrip skip_space
option_of_line line = not_comment (skip_space line)

-- The loop of `cbm_parse_cmdline_file_internal`; the flag is `hadcontent`.
unfoldable pub write_options : Bool → List Bytes → Bytes
write_options hadcontent [] = []
write_options hadcontent (line ∷ rest) = elim (option_of_line line) [
  | none ↦ write_options hadcontent rest
  | some l ↦ (if hadcontent then b' ' ∷ l else l) ++ write_options true rest
]

-- `cbm_parse_cmdline_file_internal`: what is written for the content of the file. A file that cannot
-- be opened writes nothing, and the number of bytes is that of the text.
unfoldable pub parse_file_internal : Option Bytes → Bytes
unfolding write_options option_of_line lines
parse_file_internal none = []
parse_file_internal (some content) = write_options false (lines content)

-- Behind a match the text ends, or a space or a NUL follows; the space goes too.
unfoldable pub cut : Bytes → Bytes → Bytes → Bytes
cut out before [] = before
cut out before (c ∷ behind) =
    if c == b' ' then before ++ behind else if c == 0 then before ++ (c ∷ behind) else out

-- One line of a removal file, on the command line `out`.
unfoldable pub remove_option : Bytes → Bytes → Bytes
remove_option out l = elim (memmem out l) [
  | none ↦ out
  | some (before, behind) ↦ cut out before behind
]

unfoldable pub remove_lines : Bytes → List Bytes → Bytes
remove_lines out [] = out
remove_lines out (line ∷ rest) = elim (option_of_line line) [
  | none ↦ remove_lines out rest
  | some l ↦ remove_lines (remove_option out l) rest
]

-- The buffer that `rstrip` leaves when the file then cannot be opened and the size stays.
stripped_in_place : Bytes → Bytes → Bytes
stripped_in_place out r = if length r == length out then out else r ++ (0 ∷ drop (length r + 1) out)

-- `cbm_parse_cmdline_file_removal_internal` on the `sz` bytes of the buffer.
unfoldable pub parse_file_removal : Bytes → Option Bytes → Bytes
unfolding rstrip remove_lines remove_option cut memmem option_of_line lines stripped_in_place
parse_file_removal out none = stripped_in_place out (rstrip out)
parse_file_removal out (some content) = remove_lines (rstrip out) (lines content)

-- `gl_pathv` after `glob`: empty unless the call succeeded.
unfoldable pub glob_paths : GlobResult → List Bytes
glob_paths no_match = []
glob_paths failed = []
glob_paths (matches paths) = paths

-- The state of the loop over the files of a directory.
pub record Merge : Type 0 where
  pub text : Bytes
  pub bump_start : Bool
  pub true_index : ℕ

-- A file that is neither masked nor disabled, with its options `l`.
unfoldable pub merge_file : Merge → Bytes → Merge
merge_file m l =
    let spaced = leb 1 m.true_index || m.bump_start in
    record m {
      text = m.text ++ (if spaced then b' ' ∷ l else l);
      bump_start = if spaced then false else m.bump_start;
      true_index = if length l == 0 then m.true_index else m.true_index + 1;
    }

module _ (P : Platform) (s : P.host.State) (root : Bytes) where
  -- `cbm_cmdline_disabled_by_mask`
  unfoldable pub disabled_by_mask : Bytes → Bool
  unfolding basename
  disabled_by_mask path = P.host.file_exists s (
      root
      ++ (codes "/" ++ (P.config.kernel_conf_directory ++ (codes "/cmdline.d/" ++ basename path))))

  -- `cbm_path_check(path, "/dev/null")`
  resolves_to_null : Bytes → Bool
  resolves_to_null path = elim (P.host.realpath s path) [
    | none ↦ false
    | some p ↦ streq p (codes "/dev/null")
  ]

  skipped : Bool → Bytes → Bool
  unfolding disabled_by_mask resolves_to_null
  skipped check_masked path = if check_masked then disabled_by_mask path else resolves_to_null path

  -- The loop of `cbm_parse_cmdline_files_directory`.
  unfoldable pub merge_files : Bool → Merge → List Bytes → Merge
  unfolding skipped merge_file parse_file_internal
  merge_files check_masked m [] = m
  merge_files check_masked m (path ∷ paths) =
      merge_files check_masked
        (if skipped check_masked path
          then m
          else merge_file m (parse_file_internal (P.host.read s path)))
        paths

  unfoldable pub parse_files_directory : Bool → Bool → Bytes → Bytes → Merge
  unfolding merge_files glob_paths
  parse_files_directory bump_start check_masked globfile text =
      merge_files check_masked (record { text = text; bump_start = bump_start; true_index = 0 })
        (glob_paths (P.host.glob s globfile))

  -- `cbm_parse_cmdline_removal_files_directory`, on the text in the buffer.
  removal_loop : Bytes → List Bytes → Bytes
  unfolding parse_file_removal
  removal_loop buffer [] = buffer
  removal_loop buffer (path ∷ paths) =
      removal_loop (parse_file_removal buffer (P.host.read s path)) paths

  unfoldable pub parse_removal_files_directory : Bytes → Bytes
  unfolding removal_loop glob_paths
  parse_removal_files_directory buffer = removal_loop buffer (
      glob_paths (
        P.host.glob s (
          root
          ++ (codes "/" ++ (P.config.kernel_conf_directory ++ codes "/cmdline-removal.d/*.conf")))))

  -- The local system's file, behind the vendor's files.
  merge_cmdline : Merge → Bytes → Merge
  unfolding parse_file_internal
  merge_cmdline vendor path =
      if P.host.file_exists s path
      then (let l = parse_file_internal (P.host.read s path) in
          record vendor {
            text = vendor.text ++ (if vendor.bump_start then b' ' ∷ l else l);
            bump_start = vendor.bump_start || leb 1 (length l);
          })
      else vendor

  unfoldable pub parse_cmdline_files : Bytes
  unfolding merge_cmdline parse_files_directory
  parse_cmdline_files =
      let dir = root ++ (codes "/" ++ P.config.kernel_conf_directory) in
      let vendor_glob =
        root
        ++ (codes "/" ++ (P.config.vendor_kernel_conf_directory ++ codes "/cmdline.d/*.conf")) in
      let vendor = parse_files_directory false true vendor_glob [] in
      let local =
        merge_cmdline (record vendor { bump_start = leb 1 vendor.true_index })
          (dir ++ codes "/cmdline") in
      (parse_files_directory local.bump_start false (dir ++ codes "/cmdline.d/*.conf")
        local.text).text
