-- ===== src/BootLoaders/Shim.antt =====
-- bootloaders/shim-systemd.c: the paths and files of shim with systemd-boot behind it.
pub mod Install
pub mod Vtable
use clr_boot_manager.Prelude.{
  ℕ, Bool, true, false, not, ◌&&◌, ◌||◌, Option, none, some, List, [], ◌∷◌, ◌++◌, Bytes, codes,
  length, drop, if◌then◌else◌, ◌==◌,
}
use clr_boot_manager.Kernel.Inspect.{◌//◌}
use clr_boot_manager.Platform.{Platform, World}
use clr_boot_manager.Files.{files_match}
use clr_boot_manager.BootMan.BootDir.{get_boot_dir}

-- `shim_systemd_config_t` without `has_boot_rec`. A source is on the system, a target on the boot
-- partition; `esp` paths are from the root of that partition.
pub record ShimSystemdConfig : Type 0 where
  pub shim_src : Bytes
  pub mm_src : Bytes
  pub fb_src : Bytes
  pub systemd_src : Bytes
  pub shim_dst_host : Bytes
  pub mm_dst_host : Bytes
  pub fb_dst_host : Bytes
  pub systemd_dst_host : Bytes
  pub shim_dst_esp : Bytes
  pub efi_fallback_dir : Bytes
  pub efi_fallback_dst_host : Bytes
  pub bin_dst_esp : Bytes
  pub is_image_mode : Bool
  pub bin_dst_host : Bytes
  pub vendor_mok : Bytes
  pub mok_dst : Bytes
  pub bootcsv_src : Bytes
  pub bootcsv_dst_host : Bytes

-- The prefix without one slash at its end.
unfoldable pub without_last_slash : Bytes → Bytes
without_last_slash [] = []
without_last_slash (c ∷ []) = if c == b'/' then [] else c ∷ []
without_last_slash (c ∷ d ∷ cs) = c ∷ without_last_slash (d ∷ cs)

-- A source of the installation and its target.
pub record Blob : Type 0 where
  pub src : Bytes
  pub dst : Bytes

-- The files that `shim_systemd_install` copies, in its order.
unfoldable pub blobs : ShimSystemdConfig → List Blob
blobs c =
    record { src = c.shim_src; dst = c.efi_fallback_dst_host }
    ∷ record { src = c.fb_src; dst = c.fb_dst_host }
    ∷ record { src = c.shim_src; dst = c.shim_dst_host }
    ∷ record { src = c.mm_src; dst = c.mm_dst_host }
    ∷ record { src = c.systemd_src; dst = c.systemd_dst_host }
    ∷ record { src = c.vendor_mok; dst = c.mok_dst }
    ∷ record { src = c.bootcsv_src; dst = c.bootcsv_dst_host }
    ∷ []

module _ (P : Platform) where
  -- What `shim_systemd_init` sets, on a machine of 64 bits.
  unfoldable pub shim_config_of : World P.host.State → ShimSystemdConfig
  unfolding without_last_slash
  shim_config_of w =
      let prefix = without_last_slash w.manager.sysconfig.prefix in
      let boot_root = get_boot_dir P w in
      let path = P.host.build_case_correct_path w.host in
      let bin_dst_host = path boot_root (codes "EFI" ∷ P.config.kernel_namespace ∷ []) in
      let shim_dst_host = path bin_dst_host (codes "bootloaderx64.efi" ∷ []) in
      let efi_fallback_dir = path boot_root (codes "EFI" ∷ codes "BOOT" ∷ []) in
      record {
        shim_src = prefix // codes "usr/lib/shim/shimx64.efi";
        mm_src = prefix // codes "usr/lib/shim/mmx64.efi";
        fb_src = prefix // codes "usr/lib/shim/fbx64.efi";
        systemd_src = prefix // codes "usr/lib/systemd/boot/efi/systemd-bootx64.efi";
        shim_dst_host = shim_dst_host;
        mm_dst_host = path bin_dst_host (codes "mmx64.efi" ∷ []);
        fb_dst_host = path efi_fallback_dir (codes "fbx64.efi" ∷ []);
        systemd_dst_host = path bin_dst_host (codes "grubx64.efi" ∷ []);
        shim_dst_esp = drop (length boot_root) shim_dst_host;
        efi_fallback_dir = efi_fallback_dir;
        efi_fallback_dst_host = path efi_fallback_dir (codes "BOOTX64.EFI" ∷ []);
        bin_dst_esp = drop (length boot_root) bin_dst_host;
        is_image_mode = w.manager.image_mode;
        bin_dst_host = bin_dst_host;
        vendor_mok = prefix // codes "usr/lib/systemd/boot/solus-mok.cer";
        mok_dst = path boot_root (codes "solus-enroll-me.cer" ∷ []);
        bootcsv_src = prefix // codes "usr/lib/shim/BOOTX64.CSV";
        bootcsv_dst_host = path bin_dst_host (codes "BOOTX64.CSV" ∷ []);
      }

  -- `exists_identical`
  unfoldable pub exists_identical : Bytes → Option Bytes → World P.host.State → Bool
  exists_identical path none w = P.host.file_exists w.host path
  exists_identical path (some spath) w =
      P.host.file_exists w.host path && files_match P.host w.host path spath

  -- A target is missing.
  unfoldable pub any_missing : List Blob → World P.host.State → Bool
  unfolding exists_identical
  any_missing [] w = false
  any_missing (b ∷ bs) w = not (exists_identical b.dst none w) || any_missing bs w

  -- A target is missing, or differs from its source.
  unfoldable pub any_outdated : List Blob → World P.host.State → Bool
  unfolding exists_identical
  any_outdated [] w = false
  any_outdated (b ∷ bs) w = not (exists_identical b.dst (some b.src) w) || any_outdated bs w
