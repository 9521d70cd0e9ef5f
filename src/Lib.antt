-- ===== src/Lib.antt =====
-- clr-boot-manager: installation of kernels and boot loaders on the boot partition.
--
-- The program finds the kernels in the kernel directory, installs those that have to boot to the
-- boot partition, lets a boot loader write its entries, and removes kernels that are not needed any
-- more. Paths below are from the root of the repository.
--
-- Parts and files:
--   Prelude, Int, Libc       lists, texts, signed numbers, and the C library where the code uses
--                            pure functions of it: isspace, strchr, memmem, sscanf of a number, a
--                            set and a literal, printf of a number, basename and dirname
--   Platform                 what the code stands on, as parameters: system calls, libnica's
--                            order of a hash map, qsort, libblkid, mntent, the probe of a device; `struct BootManager` (src/bootman/bootman_private.h) and
--                            `struct BootLoader` (src/bootloaders/bootloader.h)
--   Laws                     what is relied on of qsort and of the hash map
--   Monad                    operations on the manager and the host, and how a property is kept
--   Kernel                   `struct Kernel` (src/bootman/bootman.h); its children model
--                            src/bootman/kernel.c: Name (names and `uname -r`), Paths, Select
--                            (running and last booted kernel, grouping), Inspect (the kernel
--                            directory), Blobs (the files of a kernel)
--   Cmdline                  src/lib/cmdline.c and `rstrip` of src/lib/util.c
--   Files                    src/lib/files.c: comparing and copying files; Text (whole files as
--                            texts), Devices (disks, partitions, mounts)
--   Probe                    src/lib/probe.c
--   SysConfig                src/bootman/sysconfig.c
--   OsRelease                src/lib/os-release.c
--   Writer                   src/lib/writer.c
--   BootMan                  src/bootman/bootman.c: SetUp, Prefix, BootDir, Mount, Loader, Kernels,
--                            Freestanding; src/bootman/config.c: Config
--   BootLoaders              SdClass: src/bootloaders/systemd-class.c (Entry, Default, Blob) and
--                            systemd-boot.c (Vtable); Syslinux: syslinux-common.c (Config, Queue,
--                            Setup), syslinux.c and extlinux.c (Vtable); Grub2: grub2.c (Entry,
--                            Menu, Script, Vtable); Shim: shim-systemd.c (Install, Vtable)
--   BootVar                  src/lib/bootvar.c: Numbers (the number of an entry, the boot order),
--                            Names, EspData (the data of an entry), Records (the entries among the
--                            EFI variables)
--   Update                   src/bootman/update.c
--   Cli                      src/cli/cli.c and boot_manager_new; its children model src/cli/ops: Update
--                            (update.c, mount.c), Kernels (kernels.c), Config (timeout.c,
--                            console_mode.c), Booted (report_booted.c), and Main src/cli/main.c
--   Tests                    a stub of the platform, runs, and the theorems at concrete data
--
-- How they interact: Cli parses the arguments, makes a manager and calls Update or BootMan. Update
-- calls BootMan, which mounts the boot directory, selects a loader by the capabilities that
-- SysConfig finds, and calls it by its vtable. A loader writes its files by Files and Writer, takes
-- the names and paths of a kernel from Kernel, and the shim its boot entry from BootVar.
--
-- State: an operation that changes state is a function from the world, which is the manager and the
-- state of the host, to its result and the next world. A jump to an error label is `none` or
-- `false`; logging and the freeing of memory are left out, and allocation succeeds. A NULL string
-- is `none`. A pointer to a kernel that the code compares is the field `addr`. A function that
-- dereferences a NULL boot loader returns false here. An array with more than 65535 kernels is out
-- of range of the loops' counters, and of the model. Files that are read as lines hold no NUL.
-- The static variables and the private data of a loader are a variable in the state of the host;
-- a call of a loader outside of init and destroy fails in the model.
--
-- Numbers: releases are integers; `int16_t` casts are `to_int16`. `strtol` gives the nearest number
-- that a `long` of 64 bits holds, in `uname -r` and in the default entry; the timeout of set-timeout is
-- cut to an `int`. The `sscanf` of kernel names and `atoi` read numbers without an upper bound, so a
-- number beyond `int` in these is out of the model.
--
-- Exits: cbm_get_fstype ends the process with EXIT_FAILURE where libblkid does not tell the type of the
-- boot device. In the model it is then none, there is no system configuration, or the device is not
-- mounted, and the command fails, with the same exit status.
--
-- Fuel: the loop of `copy_file` has the size of the file and one round more, which is enough if
-- `sendfile` moves a byte at each call before the end of the source. With a source that is cut
-- short meanwhile the loop of the code does not end, and the model returns false; printing a
-- number n has n + 1 rounds. The loop over the freestanding initrds has a round for each and one
-- more.
--
-- The command line tool takes getopt_long, geteuid and uname as parameters. A process runs one
-- command; its result is the exit status, the lines on the standard output and the next state.
--
-- The host has a field for the probe of a device, so that most of the development stands on any
-- probe; Probe.probing fills it.
--
-- Not modelled: the tables of functions that tests replace (src/lib/blkid_stub.c, system_stub.c);
-- the bytes of the boot sectors (src/bootloaders/mbr.c), which are parameters; logging, the texts
-- of help and version, and what goes to the standard error; the plain getters, which are fields. A
-- manager whose root cannot be inspected is not used further.
pub mod Prelude
pub mod Int
pub mod Libc
pub mod Kernel
pub mod Platform
pub mod Probe
pub mod Monad
pub mod Laws
pub mod Cmdline
pub mod Files
pub mod BootLoaders
pub mod BootVar
pub mod Cli
pub mod BootMan
pub mod SysConfig
pub mod OsRelease
pub mod Writer
pub mod Update
mod Tests
