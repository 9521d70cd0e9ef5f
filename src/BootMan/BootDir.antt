-- ===== src/BootMan/BootDir.antt =====
-- bootman/bootman.c: the boot directory, and the calls of the selected boot loader.
use clr_boot_manager.Prelude.{
  ℕ, Bool, true, false, Option, none, some, [], ◌++◌, Bytes, ◌==◌, if◌then◌else◌, bit_and,
}
use clr_boot_manager.Platform.{BootLoader, LoaderId, Platform, World, M}
use clr_boot_manager.Monad.{pure, ◌>>=◌, ◌>>◌, asks, modify}

-- `BootLoaderCapability`
abbrev pub cap_uefi : ℕ
cap_uefi = 2

abbrev pub cap_gpt : ℕ
cap_gpt = 4

abbrev pub cap_legacy : ℕ
cap_legacy = 8

abbrev pub cap_extfs : ℕ
cap_extfs = 16

abbrev pub cap_fatfs : ℕ
cap_fatfs = 32

abbrev pub cap_partless : ℕ
cap_partless = 64

-- (mask & wanted) == wanted
unfoldable pub has_all : ℕ → ℕ → Bool
has_all mask wanted = bit_and mask wanted == wanted

-- `boot_manager_get_boot_dir`
unfoldable pub get_boot_dir : (P : Platform) → World P.host.State → Bytes
get_boot_dir P w = elim w.manager.abs_bootdir [
  | some dir ↦ dir
  | none ↦
      let dir = w.manager.sysconfig.prefix ++ P.config.boot_directory in
      elim (P.host.realpath w.host dir) [ some realp ↦ realp | none ↦ dir ]
]

module _ (P : Platform) where
  on_loader :
      {A : Type 0}
      → A
      → (BootLoader P.host.State → M P.host.State A)
      → Option LoaderId
      → M P.host.State A
  on_loader missing f none = pure missing
  on_loader missing f (some i) = f (P.loader i)

  -- A call through `self->bootloader`; the first argument is the result where there is none.
  unfoldable pub with_loader :
      {A : Type 0} → A → (BootLoader P.host.State → M P.host.State A) → M P.host.State A
  unfolding on_loader
  with_loader missing f = asks (λ w. w.manager.bootloader) >>= on_loader missing f

  -- `init`, and `destroy` if that fails.
  unfoldable pub init_loader : BootLoader P.host.State → M P.host.State Bool
  init_loader l = do ready ← l.init; if ready then pure true else l.destroy >> pure false

  -- `boot_manager_set_boot_dir`
  unfoldable pub set_boot_dir : Bytes → M P.host.State Bool
  unfolding with_loader init_loader
  set_boot_dir dir = do
    modify (λ m. record m { abs_bootdir = some dir })
    with_loader true (λ l. l.destroy >> init_loader l)

  -- Whether the loader boots by UEFI.
  unfoldable pub is_uefi : BootLoader P.host.State → World P.host.State → Bool
  unfolding has_all
  is_uefi l w = has_all (l.get_capabilities w) cap_uefi

  -- The loader's directory below the boot directory; none where UEFI has none.
  unfoldable pub efi_boot_dir : BootLoader P.host.State → World P.host.State → Option Bytes
  unfolding is_uefi
  efi_boot_dir l w = if is_uefi l w then l.get_kernel_destination w else some []
