-- ===== src/BootLoaders/Grub2/Script.antt =====
-- bootloaders/grub2.c: the script below /etc/grub.d, and the links to the default kernel.
use clr_boot_manager.Prelude.{
  Bool, true, false, Option, none, some, List, [], ◌∷◌, ◌++◌, Bytes, if◌then◌else◌, codes,
}
use clr_boot_manager.Kernel.{Kernel}
use clr_boot_manager.Kernel.Inspect.{◌//◌}
use clr_boot_manager.Platform.{Platform, CbmDeviceProbe, World, M}
use clr_boot_manager.Monad.{pure, ◌>>=◌, ◌>>◌, and_then, asks, call}
use clr_boot_manager.Writer.{writer_open, writer_close, append_all, writer_text}
use clr_boot_manager.Files.{cbm_sync}
use clr_boot_manager.Files.Text.{file_holds, file_set_text, unlink_if_there}
use clr_boot_manager.BootMan.BootDir.{get_boot_dir}
use clr_boot_manager.BootLoaders.Grub2.{
  get_entry_path_for_kernel, get_boot_relative, grub2_config_of,
}
use clr_boot_manager.BootLoaders.Grub2.Menu.{choose_default, config_pieces, others}

module _ (P : Platform) where
  -- `grub2_remove_kernel`
  unfoldable pub remove_kernel : Kernel → M P.host.State Bool
  remove_kernel k = asks (get_entry_path_for_kernel P k) >>= unlink_if_there P.host

  -- The old files of kernels are removed, whether that succeeds or not.
  unfoldable pub clean_up : List Kernel → M P.host.State (Unit {0})
  unfolding remove_kernel
  clean_up [] = pure tt
  clean_up (k ∷ ks) = remove_kernel k >> clean_up ks

  -- The default kernel and the others, in the order in which they are written.
  unfoldable pub written_kernels : Option Kernel → List Kernel → List Kernel
  written_kernels none queue = others none queue
  written_kernels (some d) queue = d ∷ others (some d) queue

  -- `!nc_file_exists(dir) && !nc_mkdir_p(dir)`
  unfoldable pub ensure_dir : Bytes → M P.host.State Bool
  ensure_dir dir = do
    there ← asks (λ w. P.host.file_exists w.host dir)
    if there then pure true else call (P.host.mkdir_p dir)

  -- The text of the script, from the world before the old files are removed.
  unfoldable pub script_text :
      Option Kernel → CbmDeviceProbe → List Kernel → World P.host.State → Bytes
  script_text d dev queue w =
      let start = (writer_open (record { buffer = none; memstream = false; error = 0 })).1 in
      writer_text (
        writer_close
          (append_all start (config_pieces P w.manager (grub2_config_of P dev w) d queue)))

  -- The script is written, and made executable.
  unfoldable pub write_script : Bytes → Bytes → Bytes → M P.host.State Bool
  unfolding ensure_dir
  write_script grub_dir conf_path text = and_then (ensure_dir grub_dir) (
      and_then (file_set_text P.host conf_path text)
        (and_then (call (P.host.chmod_executable conf_path)) (cbm_sync P.host >> pure true)))

  unfoldable pub write_config_for :
      Option Kernel → List Kernel → Option CbmDeviceProbe → M P.host.State Bool
  unfolding write_script clean_up script_text
  write_config_for d queue none = pure false
  write_config_for d queue (some dev) = do
    prefix ← asks (λ w. w.manager.sysconfig.prefix)
    text ← asks (script_text d dev queue)
    clean_up (written_kernels d queue)
    let conf_path = prefix ++ (codes "/etc/grub.d/10_" ++ P.config.kernel_namespace)
    same ← asks (file_holds P.host conf_path text)
    if same then pure true else write_script (prefix ++ codes "/etc/grub.d") conf_path text

  -- `grub2_write_config`
  unfoldable pub write_config : Option Kernel → List Kernel → M P.host.State Bool
  unfolding write_config_for choose_default
  write_config default_kernel queue =
      asks (λ w. w.manager.sysconfig.root_device)
      >>= write_config_for (choose_default default_kernel queue) queue

  -- "%s/usr/sbin/grub-mkconfig -o %s/grub/grub.cfg"
  unfoldable pub mkconfig_command : Bytes → Bytes → Bytes
  mkconfig_command prefix boot_dir =
      prefix ++ (codes "/usr/sbin/grub-mkconfig -o " ++ (boot_dir ++ codes "/grub/grub.cfg"))

  -- The link to the initrd, where the kernel has one
  unfoldable pub link_initrd : Bytes → Option Bytes → M P.host.State Bool
  link_initrd initrd_path none = pure true
  link_initrd initrd_path (some initrd) =
      call (P.host.symlink (get_boot_relative P // initrd) initrd_path)

  -- The links to the default kernel
  unfoldable pub link_default : Bytes → Option Kernel → M P.host.State Bool
  unfolding link_initrd
  link_default prefix none = pure true
  link_default prefix (some k) =
      and_then
        (call (
          P.host.symlink (get_boot_relative P // k.target.legacy_path)
            (prefix ++ codes "/vmlinuz")))
        (link_initrd (prefix ++ codes "/initrd.img") k.target.initrd_path)

  -- `grub2_set_default_kernel`, on the queue
  unfoldable pub set_default_kernel : List Kernel → Option Kernel → M P.host.State Bool
  unfolding ensure_dir write_config mkconfig_command link_default
  set_default_kernel queue default_kernel = do
    prefix ← asks (λ w. w.manager.sysconfig.prefix)
    boot_dir ← asks (get_boot_dir P)
    and_then (unlink_if_there P.host (prefix ++ codes "/vmlinuz")) (
        and_then (unlink_if_there P.host (prefix ++ codes "/initrd.img")) (
          and_then (ensure_dir (boot_dir ++ codes "/grub")) (
            and_then (write_config default_kernel queue) (
              and_then (call (P.host.system (mkconfig_command prefix boot_dir)))
                (link_default prefix default_kernel)))))
