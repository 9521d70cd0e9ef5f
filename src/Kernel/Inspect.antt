-- ===== src/Kernel/Inspect.antt =====
-- bootman/kernel.c: the kernels that the kernel directory holds.
pub mod Found
use clr_boot_manager.Prelude.{
  ℕ, ◌+◌, Bool, false, not, ◌&&◌, Option, none, some, List, [], ◌∷◌, ◌++◌, Bytes, ◌==◌,
  if◌then◌else◌, codes,
}
use clr_boot_manager.Int.{to_int16}
use clr_boot_manager.Libc.{basename, split_at, show_ℤ}
use clr_boot_manager.Files.{get_file_parent}
use clr_boot_manager.Kernel.{Kernel}
use clr_boot_manager.Kernel.Name.{KernelName, parse_kernel_name, show_kernel_name, show_uname}
use clr_boot_manager.Kernel.Paths.{is_usr, without_usr, path_or_null}
use clr_boot_manager.Cmdline.{parse_file_internal, parse_removal_files_directory}
use clr_boot_manager.Platform.{Platform, World, Stat, regular}

-- "%s/%s"
infixl 66 ◌//◌
abbrev pub ◌//◌ : Bytes → Bytes → Bytes
dir // name = dir ++ (b'/' ∷ name)

-- A C string in a buffer ends at the first NUL.
unfoldable pub c_string : Bytes → Bytes
unfolding split_at
c_string buffer = (split_at 0 buffer).0

module _ (P : Platform) (w : World P.host.State) where
  -- `strdup(path)` if the file exists
  existing : Bytes → Option Bytes
  existing path = if P.host.file_exists w.host path then some path else none

  -- The modules of the kernel, with the two fallbacks.
  unfoldable pub find_module_dir : KernelName → Option Bytes
  unfolding existing
  find_module_dir n =
      let modules = w.manager.sysconfig.prefix // P.config.kernel_modules_directory in
      let dir = modules // show_uname n in
      let merged =
        if is_usr dir
          && not (P.host.file_exists w.host dir)
          && P.host.file_exists w.host (without_usr dir)
        then without_usr dir
        else dir in
      if P.host.file_exists w.host merged
      then some merged
      else existing (modules // (n.version ++ (b'-' ∷ show_ℤ n.release)))

  -- `boot_manager_get_kboot_file`; the release is the one of the record, cut to 16 bits.
  unfoldable pub get_kboot_file : KernelName → Bytes
  get_kboot_file n =
      w.manager.sysconfig.prefix
      ++ (codes "/var/lib/kernel/k_booted_"
          ++ show_uname (record n { release = to_int16 n.release }))

  -- The command line of a kernel: that of its file, the global one, and the removals.
  unfoldable pub kernel_cmdline : Bytes → Bytes
  unfolding c_string
  kernel_cmdline file =
      let own = parse_file_internal (P.host.read w.host file) in
      c_string (
        parse_removal_files_directory P w.host w.manager.sysconfig.prefix
          (elim w.manager.cmdline [ none ↦ own | some cm ↦ own ++ (b' ' ∷ cm) ]))

  -- The record that `boot_manager_inspect_kernel` fills for a name that it could read.
  unfoldable pub kernel_of_name : ℕ → Bytes → KernelName → Kernel
  unfolding existing find_module_dir get_kboot_file kernel_cmdline
  kernel_of_name addr path n =
      let bpath = basename path in
      let parent = path_or_null (get_file_parent P.host w.host path) in
      let initrd = codes "initrd-" ++ show_kernel_name P.config.kernel_namespace n in
      let initrd_file = existing (parent // initrd) in
      let user_initrd_file = existing (P.config.kernel_conf_directory // initrd) in
      let cmdline = parent // (codes "cmdline-" ++ show_uname n) in
      let kboot_file = get_kboot_file n in
      record {
        addr = addr;
        meta = record {
          bpath = bpath;
          version = n.version;
          release = to_int16 n.release;
          ktype = n.ktype;
          cmdline = kernel_cmdline cmdline;
          boots = P.host.file_exists w.host kboot_file;
        };
        source = record {
          path = path;
          cmdline_file = some cmdline;
          kconfig_file = existing (parent // (codes "config-" ++ show_uname n));
          initrd_file = initrd_file;
          user_initrd_file = user_initrd_file;
          kboot_file = some kboot_file;
          module_dir = find_module_dir n;
          sysmap_file = existing (parent // (codes "System.map-" ++ show_uname n));
          vmlinux_file = existing (parent // (codes "vmlinux-" ++ show_uname n));
          headers_dir =
              existing
                (w.manager.sysconfig.prefix // (codes "usr/src/linux-headers-" ++ show_uname n));
        };
        target = record {
          path = codes "kernel-" ++ bpath;
          legacy_path = bpath;
          initrd_path = elim initrd_file [
            | some _ ↦ some initrd
            | none ↦ elim user_initrd_file [ some _ ↦ some initrd | none ↦ none ]
          ];
        };
      }

  -- A kernel needs a command line file of its own.
  check_cmdline : Kernel → Option Kernel
  check_cmdline k = elim k.source.cmdline_file [
    | none ↦ none
    | some file ↦ if P.host.file_exists w.host file then some k else none
  ]

  -- `boot_manager_inspect_kernel`; `addr` is where the record is allocated.
  unfoldable pub inspect_kernel : ℕ → Bytes → Option Kernel
  unfolding kernel_of_name check_cmdline parse_kernel_name basename
  inspect_kernel addr path = elim (parse_kernel_name P.config.kernel_namespace (basename path)) [
    | none ↦ none
    | some n ↦ check_cmdline (kernel_of_name addr path n)
  ]

  regular_and_filled : Option Stat → Bool
  regular_and_filled none = false
  regular_and_filled (some st) = elim st.kind [ regular ↦ not (st.size == 0) | _ ↦ false ]

  -- The loop of `boot_manager_get_kernels` over the directory entries.
  unfoldable pub collect_kernels : ℕ → List Bytes → List Kernel
  unfolding regular_and_filled inspect_kernel
  collect_kernels addr [] = []
  collect_kernels addr (d_name ∷ entries) =
      let path = w.manager.kernel_dir // d_name in
      let rest = collect_kernels (addr + 1) entries in
      if regular_and_filled (P.host.lstat w.host path)
      then elim (inspect_kernel addr path) [ none ↦ rest | some k ↦ k ∷ rest ]
      else rest

  -- `boot_manager_get_kernels`; none if the directory cannot be opened.
  unfoldable pub get_kernels : Option (List Kernel)
  unfolding collect_kernels
  get_kernels = elim (P.host.list_dir w.host w.manager.kernel_dir) [
    | none ↦ none
    | some entries ↦ some (collect_kernels 0 entries)
  ]

  -- `boot_manager_get_default_for_type`: the target of the link for the type.
  unfoldable pub default_link : Bytes → Option Bytes
  default_link type = P.host.readlink w.host (w.manager.kernel_dir // (codes "default-" ++ type))
