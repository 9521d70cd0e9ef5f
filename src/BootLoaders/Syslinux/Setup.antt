-- ===== src/BootLoaders/Syslinux/Setup.antt =====
-- bootloaders/syslinux-common.c: the commands that install the loader. The two loaders differ in the
-- command that they write for themselves.
use clr_boot_manager.Prelude.{
  ℕ, ◌+◌, Bool, true, false, Option, none, some, List, [], ◌++◌, Bytes, ◌==◌, if◌then◌else◌, codes,
  is_some, bit_and,
}
use clr_boot_manager.Int.{pos}
use clr_boot_manager.Libc.{show_ℤ}
use clr_boot_manager.Kernel.{Kernel}
use clr_boot_manager.Kernel.Inspect.{get_kernels}
use clr_boot_manager.Kernel.Paths.{path_or_null}
use clr_boot_manager.Platform.{Platform, World, M}
use clr_boot_manager.Monad.{pure, ◌>>=◌, ◌>>◌, and_then, asks, call}
use clr_boot_manager.Files.{cbm_sync}
use clr_boot_manager.Files.Devices.{
  get_legacy_boot_device, get_boot_device, get_partition_index, get_parent_disk,
}
use clr_boot_manager.BootMan.BootDir.{get_boot_dir, cap_gpt}
use clr_boot_manager.BootLoaders.Syslinux.{SyslinuxContext}

-- The command of a loader, from the boot directory, the prefix and the boot device.
abbrev pub CommandWriter : Type 0
CommandWriter = Bytes → Bytes → Bytes → Bytes

-- `syslinux_command_writer`
unfoldable pub syslinux_command : CommandWriter
syslinux_command base_path prefix boot_device =
    prefix ++ (codes "/usr/bin/syslinux-nomtools -i " ++ (boot_device ++ codes " &> /dev/null"))

-- `extlinux_command_writer`
unfoldable pub extlinux_command : CommandWriter
extlinux_command base_path prefix boot_device =
    prefix
    ++ (codes "/usr/bin/extlinux -i "
        ++ (base_path ++ (codes " --device " ++ (boot_device ++ codes " &> /dev/null"))))

-- The first of two devices that is there
unfoldable pub or_else : Option Bytes → Option Bytes → Option Bytes
or_else none b = b
or_else (some a) b = some a

module _ (P : Platform) where
  -- The queue at the start: the kernels that are installed, or none in the test mode. None where the
  -- kernel directory cannot be read, on which the program stops.
  unfoldable pub start_queue : World P.host.State → Option (List Kernel)
  start_queue w =
      if is_some (P.host.getenv w.host (codes "CBM_BOOTVAR_TEST_MODE"))
      then some []
      else get_kernels P w

  -- "%s/usr/bin/sgdisk %s --attributes=%d:set:2"
  unfoldable pub sgdisk_command : Bytes → Bytes → ℕ → Bytes
  sgdisk_command prefix parent_disk partition_index =
      prefix
      ++ (codes "/usr/bin/sgdisk "
          ++ (parent_disk
              ++ (codes " --attributes="
                  ++ (show_ℤ (pos (partition_index + 1)) ++ codes ":set:2"))))

  -- The context of a loader on a boot device, if the disk and the partition are known.
  unfoldable pub context_on :
      CommandWriter → List Kernel → World P.host.State → Bytes → Option SyslinuxContext
  unfolding sgdisk_command
  context_on writer queue w boot_device =
      let prefix = w.manager.sysconfig.prefix in
      let base_path = get_boot_dir P w in
      elim (get_partition_index P.host w.host prefix boot_device) [
        | none ↦ none
        | some partition_index ↦ elim (get_parent_disk P.host w.host prefix) [
          | none ↦ none
          | some parent_disk ↦ some (record {
            kernel_queue = queue;
            syslinux_cmd = some (writer base_path prefix boot_device);
            sgdisk_cmd = some (sgdisk_command prefix parent_disk partition_index);
            base_path = base_path;
          })
        ]
      ]

  -- The legacy boot device of the disk of the prefix, or the ESP.
  unfoldable pub find_boot_device : World P.host.State → Option Bytes
  unfolding or_else
  find_boot_device w =
      or_else (get_legacy_boot_device P.host w.host w.manager.sysconfig.prefix)
        (get_boot_device P.host w.host)

  -- What `syslinux_common_init` leaves: the context, and whether it succeeded. Without a boot device the
  -- context stays, with no commands; on the later errors it is destroyed.
  unfoldable pub init_context :
      CommandWriter → List Kernel → World P.host.State → Bool × Option SyslinuxContext
  unfolding context_on find_boot_device
  init_context writer queue w = elim (find_boot_device w) [
    | none ↦ (
      false,
      some (record {
        kernel_queue = queue;
        syslinux_cmd = none;
        sgdisk_cmd = none;
        base_path = get_boot_dir P w;
      }),
    )
    | some boot_device ↦ let ctx = context_on writer queue w boot_device in (is_some ctx, ctx)
  ]

  -- `cbm_system_system` of a command of the context
  unfoldable pub run_command : Option Bytes → M P.host.State Bool
  unfolding path_or_null
  run_command command = call (P.host.system (path_or_null command))

  -- MBR_BIN_LEN
  abbrev mbr_bin_len : ℕ
  mbr_bin_len = 440

  wrote_all : Option ℕ → Bool
  wrote_all none = false
  wrote_all (some count) = count == mbr_bin_len

  -- The boot sector is written to the disk; none is a disk that is not known.
  unfoldable pub write_mbr : Bytes → Option Bytes → M P.host.State Bool
  unfolding wrote_all
  write_mbr boot_sector none = pure false
  write_mbr boot_sector (some boot_device) = do
    count ← call (P.host.write_device boot_device boot_sector)
    pure (wrote_all count)

  module _ (gptmbr_bin mbr_bin : Bytes) where
    unfoldable pub boot_sector_for : ℕ → Bytes
    boot_sector_for mask = if bit_and mask cap_gpt == 0 then mbr_bin else gptmbr_bin

    -- `syslinux_common_install`, with the two boot sectors of bootloaders/mbr.c
    unfoldable pub install : SyslinuxContext → M P.host.State Bool
    unfolding write_mbr boot_sector_for run_command
    install ctx = do
      boot_device ← asks (λ w. get_parent_disk P.host w.host w.manager.sysconfig.prefix)
      boot_sector ← asks (λ w. boot_sector_for w.manager.sysconfig.wanted_boot_mask)
      and_then (write_mbr boot_sector boot_device) (
          and_then (run_command ctx.syslinux_cmd)
            (and_then (run_command ctx.sgdisk_cmd) (cbm_sync P.host >> pure true)))
