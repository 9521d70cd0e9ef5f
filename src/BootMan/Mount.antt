-- ===== src/BootMan/Mount.antt =====
-- bootman/bootman.c: mounting the boot directory.
use clr_boot_manager.Prelude.{
  Bool, true, false, not, ◌&&◌, ◌||◌, Option, none, some, List, [], ◌∷◌, Bytes, ◌==◌, if◌then◌else◌,
  codes, streq, is_some, bit_and,
}
use clr_boot_manager.Files.Devices.{
  get_boot_device, get_legacy_boot_device, get_mountpoint_for_device, is_mounted,
}
use clr_boot_manager.Platform.{Platform, World, M}
use clr_boot_manager.Monad.{pure, ◌>>=◌, ◌>>◌, asks, call}
use clr_boot_manager.SysConfig.{get_fstype_name}
use clr_boot_manager.BootMan.BootDir.{
  cap_uefi, cap_legacy, cap_partless, has_all, get_boot_dir, set_boot_dir,
}

-- -1, 0 and 1 of `mount_boot`; with 1 comes the directory to unmount.
pub data Mounted : Type 0 where
  error already : Mounted
  mounted : Bytes → Mounted

-- `cbm_is_dir_empty` of lib/files.c, on the entries of the directory
only_dots : List Bytes → Bool
only_dots [] = true
only_dots (name ∷ rest) =
    if streq name (codes ".") || streq name (codes "..") then only_dots rest else false

module _ (P : Platform) where
  unfoldable pub is_dir_empty : P.host.State → Bytes → Bool
  unfolding only_dots
  is_dir_empty s path = elim (P.host.list_dir s path) [ none ↦ true | some names ↦ only_dots names ]

  -- `check_partitionless_boot`
  unfoldable pub check_partitionless_boot : Bytes → World P.host.State → Bool
  unfolding is_dir_empty
  check_partitionless_boot boot_dir w = elim w.manager.bootloader [
    | none ↦ false
    | some i ↦
        not (bit_and ((P.loader i).get_capabilities w) cap_partless == 0)
        && bit_and w.manager.sysconfig.wanted_boot_mask cap_uefi == 0
        && not (is_dir_empty w.host boot_dir)
  ]

  -- `umount_boot`
  unfoldable pub umount_boot : Bytes → M P.host.State (Unit {0})
  umount_boot dir = call (P.host.umount dir) >> pure tt

  -- The manager takes the directory over; `done` says how it came to be mounted.
  unfoldable pub use_boot_dir : Mounted → Bytes → M P.host.State Mounted
  use_boot_dir done dir = do ready ← set_boot_dir P dir; pure (if ready then done else error)

  unfoldable pub mount_fs : Bytes → Bytes → Option Bytes → M P.host.State Mounted
  mount_fs boot_dir device none = pure error
  mount_fs boot_dir device (some fs) = do
    ok ← call (P.host.mount device boot_dir fs)
    if ok then use_boot_dir (mounted boot_dir) boot_dir else pure error

  unfoldable pub make_boot_dir : Bytes → M P.host.State (Unit {0})
  make_boot_dir boot_dir = do
    there ← asks (λ w. P.host.file_exists w.host boot_dir)
    if there then pure tt else call (P.host.mkdir_p boot_dir) >> pure tt

  -- The boot device is mounted at `abs_bootdir`, or nowhere yet.
  unfoldable pub mount_device_at : Bytes → Bytes → Option Bytes → M P.host.State Mounted
  mount_device_at boot_dir device none = do
    make_boot_dir boot_dir
    asks (λ w. get_fstype_name P w.host device) >>= mount_fs boot_dir device
  mount_device_at boot_dir device (some abs_bootdir) = do
    prefix ← asks (λ w. w.manager.sysconfig.prefix)
    if streq abs_bootdir prefix then pure already else use_boot_dir already abs_bootdir

  unfoldable pub mount_device : Bytes → Option Bytes → M P.host.State Mounted
  mount_device boot_dir none = pure error
  mount_device boot_dir (some device) =
      asks (λ w. get_mountpoint_for_device P.host w.host device) >>= mount_device_at boot_dir device

  -- `mount_boot`
  unfoldable pub mount_boot : M P.host.State Mounted
  mount_boot = do
    boot_dir ← asks (get_boot_dir P)
    settled ← asks (λ w. is_mounted P.host w.host boot_dir || check_partitionless_boot boot_dir w)
    if settled
        then pure already
        else asks (λ w. w.manager.sysconfig.boot_device) >>= mount_device boot_dir

  -- Whether a legacy system has a boot partition at all.
  unfoldable pub legacy_partition : World P.host.State → Bool
  legacy_partition w =
      is_some (get_boot_device P.host w.host)
      || is_some (get_legacy_boot_device P.host w.host w.manager.sysconfig.prefix)

  -- `boot_manager_detect_and_mount_boot`
  unfoldable pub detect_and_mount_boot : M P.host.State Mounted
  detect_and_mount_boot = do
    wanted ← asks (λ w. w.manager.sysconfig.wanted_boot_mask)
    found ← asks legacy_partition
    if not (has_all wanted cap_legacy) || found then mount_boot else pure already

  -- Runs `body` with the boot directory mounted, and unmounts what was mounted for it.
  unfoldable pub run_mounted : {A : Type 0} → A → M P.host.State A → Mounted → M P.host.State A
  run_mounted missing body error = pure missing
  run_mounted missing body already = body
  run_mounted missing body (mounted dir) = do r ← body; umount_boot dir; pure r

  unfoldable pub with_boot_mounted : {A : Type 0} → A → M P.host.State A → M P.host.State A
  with_boot_mounted missing body = detect_and_mount_boot >>= run_mounted missing body
