-- ===== src/BootLoaders/Grub2/Menu.antt =====
-- bootloaders/grub2.c: the menu. The default kernel goes first, and the others go to a submenu if there is
-- a default.
use clr_boot_manager.Prelude.{
  ◌≡◌, ◌∙◌, refl, sym, ap, Bool, true, false, not, ◌&&◌, ◌||◌, Option, none, some, List, [], ◌∷◌,
  ◌++◌, Bytes, ◌==◌, ltb, if◌then◌else◌, codes, length, ◌<◌, arith, Bool-cases, inl, inr,
}
use mathlib.Core.List.{append_assoc}
use clr_boot_manager.Kernel.{Kernel}
use clr_boot_manager.Platform.{Platform, BootManager}
use clr_boot_manager.BootLoaders.Grub2.{Grub2Config}
use clr_boot_manager.BootLoaders.Grub2.Entry.{format, write_kernel}

-- The one kernel of a queue stands in for no default.
unfoldable pub choose_default : Option Kernel → List Kernel → Option Kernel
choose_default (some d) queue = some d
choose_default none (k ∷ []) = some k
choose_default none _ = none

-- `k == default_kernel`
unfoldable pub is_the_default : Option Kernel → Kernel → Bool
is_the_default none k = false
is_the_default (some d) k = k.addr == d.addr

-- The kernels that are not the default.
unfoldable pub others : Option Kernel → List Kernel → List Kernel
others d [] = []
others d (k ∷ ks) = if is_the_default d k then others d ks else k ∷ others d ks

module _ (P : Platform) (m : BootManager) where
  -- The start of the submenu
  unfoldable pub submenu_pieces : Grub2Config → List Bytes
  unfolding format
  submenu_pieces config =
      format (codes "echo \"submenu '" ∷ config.os_name ∷ codes " (alternative boot entries)'" ∷ [])
      ∷ format (
          codes " \\$menuentry_id_option '"
          ∷ P.config.kernel_namespace
          ∷ codes "-cbm-submenu' {\"\n"
          ∷ [])
      ∷ []

  -- The end of the submenu, if it was started.
  unfoldable pub close_pieces : Bool → List Bytes
  close_pieces wrote_submenu = if wrote_submenu then codes "echo \"}\"\n\n" ∷ [] else []

  -- The start of the submenu, if there is to be one and it was not started.
  unfoldable pub start_pieces : Grub2Config → Bool → List Bytes
  start_pieces config wrote_submenu =
      if config.submenu && not wrote_submenu then submenu_pieces config else []

  -- The loop over the queue, and what follows it.
  unfoldable pub others_pieces : Grub2Config → Option Kernel → Bool → List Kernel → List Bytes
  others_pieces config d wrote_submenu [] = close_pieces wrote_submenu
  others_pieces config d wrote_submenu (k ∷ ks) =
      let passed = others_pieces config d wrote_submenu ks in
      let more = others_pieces config d (wrote_submenu || config.submenu) ks in
      if is_the_default d k
      then passed
      else start_pieces config wrote_submenu ++ (write_kernel P config m k ++ more)

  -- The entry of the default kernel, outside of the submenu.
  unfoldable pub first_pieces : Grub2Config → Option Kernel → List Bytes
  first_pieces config none = []
  first_pieces config (some d) = write_kernel P config m d

  -- With a default and more than one kernel, the others go to a submenu.
  unfoldable pub with_submenu : Option Kernel → List Kernel → Grub2Config → Grub2Config
  with_submenu none queue config = config
  with_submenu (some d) queue config =
      if ltb 1 (length queue) then record config { submenu = true } else config

  -- The pieces that `grub2_write_config` writes, for the default that it has chosen.
  unfoldable pub config_pieces : Grub2Config → Option Kernel → List Kernel → List Bytes
  config_pieces config d queue =
      codes "#!/bin/bash\nset -e\n"
      ∷ codes ". \"/usr/share/grub/grub-mkconfig_lib\"\n"
      ∷ (first_pieces config d ++ others_pieces (with_submenu d queue config) d false queue)

  -- The entries of kernels in a row
  unfoldable pub entries : Grub2Config → List Kernel → List Bytes
  entries config [] = []
  entries config (k ∷ ks) = write_kernel P config m k ++ entries config ks

  -- A submenu around entries, if there are any.
  unfoldable pub in_submenu : Grub2Config → List Kernel → List Bytes
  in_submenu config [] = []
  in_submenu config (k ∷ ks) =
      submenu_pieces config ++ (entries config (k ∷ ks) ++ (codes "echo \"}\"\n\n" ∷ []))

  module _ (config : Grub2Config) (d : Option Kernel) where
    start_true : start_pieces config true ≡ []
    unfolding start_pieces
    start_true = and_false config.submenu
      where
        and_false : (b : Bool) → (if b && not true then submenu_pieces config else []) ≡ []
        and_false true = refl
        and_false false = refl

    start_false : config.submenu ≡ true → start_pieces config false ≡ submenu_pieces config
    unfolding start_pieces
    start_false sub = rw sub refl

    started :
        (queue : List Kernel)
        → config.submenu ≡ true
        → others_pieces config d true queue
          ≡ entries config (others d queue) ++ (codes "echo \"}\"\n\n" ∷ [])
    unfolding others_pieces entries close_pieces others
    started [] sub = refl
    started (k ∷ ks) sub = elim (Bool-cases (is_the_default d k)) [
      | inl passed ↦ rw passed (started ks sub)
      | inr other ↦
          rw (other, start_true)
            (ap (λ (s : List Bytes). write_kernel P config m k ++ s) (started ks sub)
              ∙ sym (append_assoc (write_kernel P config m k) (entries config (others d ks)) _))
    ]

    -- With a submenu, the kernels that are not the default are written in one submenu that is opened before
    -- the first of them and closed behind the last, and none is written where there are none.
    others_pieces-in_submenu :
        (queue : List Kernel)
        → config.submenu ≡ true
        → others_pieces config d false queue ≡ in_submenu config (others d queue)
    unfolding others_pieces in_submenu close_pieces entries others
    others_pieces-in_submenu [] sub = refl
    others_pieces-in_submenu (k ∷ ks) sub = elim (Bool-cases (is_the_default d k)) [
      | inl passed ↦ rw passed (others_pieces-in_submenu ks sub)
      | inr other ↦
          rw (other, start_false sub)
            (ap
                (λ (b : Bool).
                  submenu_pieces config
                  ++ (write_kernel P config m k ++ others_pieces config d (false || b) ks))
                sub
              ∙ ap (λ (s : List Bytes). submenu_pieces config ++ (write_kernel P config m k ++ s))
                  (started ks sub)
              ∙ ap (λ (s : List Bytes). submenu_pieces config ++ s)
                  (sym (append_assoc (write_kernel P config m k) (entries config (others d ks)) _)))
    ]

  -- With a default and more than one kernel in the queue, the script has, behind its two lines, the
  -- entry of the default, and one submenu with the entries of the kernels that are not the default, in
  -- the order of the queue; no submenu if there are none.
  pub config_pieces-in_submenu :
      (config : Grub2Config) (d : Kernel) (queue : List Kernel)
      → 1 < length queue
      → config_pieces config (some d) queue
        ≡ codes "#!/bin/bash\nset -e\n"
          ∷ codes ". \"/usr/share/grub/grub-mkconfig_lib\"\n"
          ∷ (write_kernel P config m d
              ++ in_submenu (record config { submenu = true }) (others (some d) queue))
  unfolding config_pieces first_pieces with_submenu
  config_pieces-in_submenu config d queue h =
      let many : ltb 1 (length queue) ≡ true = ground arith in
      rw (many, others_pieces-in_submenu (record config { submenu = true }) (some d) queue refl)
        refl
