-- ===== src/BootLoaders/SdClass/Entry/Text.antt =====
-- bootloaders/systemd-class.c: the entry of a kernel as one text.
use clr_boot_manager.Prelude.{
  ℕ, zero, suc, ◌<◌, ◌≡◌, ◌∙◌, refl, ap, true, not, ◌&&◌, Option, none, some, List, [], ◌∷◌, ◌++◌,
  Bytes, map, length, arith, codes, is_some, if◌then◌else◌, Bool-cases, Option-cases, inl, inr,
}
use clr_boot_manager.Kernel.{Kernel}
use clr_boot_manager.Kernel.Inspect.{c_string}
use clr_boot_manager.Platform.{Platform, CbmDeviceProbe, InitrdEntry, World}
use clr_boot_manager.Monad.{◌>>=◌, asks}
use clr_boot_manager.Writer.{writer_text}
use clr_boot_manager.Writer.Sticky.{concat, concat-append, append_all-writer_open}
use clr_boot_manager.Files.Text.{file_get_text}
use clr_boot_manager.Files.Stored.{StoresTexts, file_get_text-write_if_changed}
use clr_boot_manager.BootMan.Freestanding.{next_initrd}
use clr_boot_manager.BootMan.Prefix.{get_os_name}
use clr_boot_manager.BootLoaders.SdClass.{SdClassConfig, get_entry_path_for_kernel}
use clr_boot_manager.BootLoaders.SdClass.Entry.{
  file_line, optional, streq_option, other_initrds, append_extra_initrds, file_lines, option_pieces,
  write_entry, install_entry, install_kernel,
}

-- The initrds that are not masked, without the microcode.
abbrev pub listed : Option Bytes → List (Bytes × InitrdEntry) → List Bytes
listed ucode [] = []
listed ucode ((key, entry) ∷ it) =
    if is_some entry.name && not (streq_option key ucode)
    then key ∷ listed ucode it
    else listed ucode it

-- Where the loop has a round for each initrd and one more, it goes past the masked ones and the
-- microcode, and lists all others in the order of the iterator.
other_initrds_lem :
    (fuel : ℕ) (ucode : Option Bytes) (it : List (Bytes × InitrdEntry))
    → length it < fuel
    → other_initrds fuel ucode it ≡ listed ucode it
unfolding other_initrds next_initrd
other_initrds_lem zero ucode it h = absurd (omega arith)
other_initrds_lem (suc fuel) ucode [] h = refl
other_initrds_lem (suc fuel) ucode ((key, entry) ∷ it) h = elim (Option-cases entry.name) [
  | inl masked ↦ rw masked (other_initrds_lem (suc fuel) ucode it (omega arith))
  | inr (name, named) ↦ rw named (elim (Bool-cases (streq_option key ucode)) [
    | inl early ↦ rw early (other_initrds_lem fuel ucode it (omega arith))
    | inr other ↦ rw (other, other_initrds_lem fuel ucode it (omega arith))
  ])
]

option_list : Option Bytes → List Bytes
option_list none = []
option_list (some x) = x ∷ []

map-append : (f : Bytes → Bytes) (xs ys : List Bytes) → map f (xs ++ ys) ≡ map f xs ++ map f ys
map-append f [] ys = refl
map-append f (x ∷ xs) ys = ap (λ (s : List Bytes). f x ∷ s) (map-append f xs ys)

optional-map : (f : Bytes → Bytes) (o : Option Bytes) → optional f o ≡ map f (option_list o)
unfolding optional option_list
optional-map f none = refl
optional-map f (some x) = refl

lines_of_initrds :
    (f : Bytes → Bytes) (a b : Option Bytes) (extra : List Bytes) {others names : List Bytes}
    → others ≡ names
    → optional f a ++ (optional f b ++ (map f extra ++ map f others))
      ≡ map f (option_list a ++ (option_list b ++ (extra ++ names)))
lines_of_initrds f a b extra {others} {names} e =
    rw
      (
        e,
        optional-map f a,
        optional-map f b,
        map-append f (option_list a) (option_list b ++ (extra ++ names)),
        map-append f (option_list b) (extra ++ names),
        map-append f extra names,
      )
      refl

module _ (P : Platform) (destination : Bytes) where
  -- All initrds of the entry of a kernel: the microcode, the kernel's own, those beside its source, and
  -- the others.
  unfoldable pub all_initrds : Kernel → World P.host.State → List Bytes
  unfolding option_list
  all_initrds k w =
      option_list w.manager.ucode_initrd
      ++ (option_list k.target.initrd_path
          ++ ((append_extra_initrds P w.host k.source.initrd_file).1
              ++ listed w.manager.ucode_initrd (P.initrd_order w.manager.initrd_freestanding)))

  -- The entry: the title, the kernel, a line for each initrd, and the options.
  unfoldable pub entry_text : Kernel → CbmDeviceProbe → World P.host.State → Bytes
  unfolding all_initrds
  entry_text k dev w =
      (codes "title " ++ (get_os_name P w.manager ++ (b'\n' ∷ [])))
      ++ (file_line (codes "linux") destination k.target.path
          ++ (concat (map (file_line (codes "initrd") destination) (all_initrds k w))
              ++ concat (option_pieces P destination k dev w.manager)))

  file_lines-concat :
      (k : Kernel) (w : World P.host.State)
      → file_lines P destination k w
        ≡ (codes "title " ++ (get_os_name P w.manager ++ (b'\n' ∷ [])))
          ∷ file_line (codes "linux") destination k.target.path
          ∷ map (file_line (codes "initrd") destination) (all_initrds k w)
  unfolding file_lines all_initrds
  file_lines-concat k w =
      ap
        (λ (ls : List Bytes).
          (codes "title " ++ (get_os_name P w.manager ++ (b'\n' ∷ [])))
          ∷ file_line (codes "linux") destination k.target.path
          ∷ ls)
        (lines_of_initrds (file_line (codes "initrd") destination) w.manager.ucode_initrd
          k.target.initrd_path (append_extra_initrds P w.host k.source.initrd_file).1
          (other_initrds_lem (suc (length (P.initrd_order w.manager.initrd_freestanding)))
            w.manager.ucode_initrd (P.initrd_order w.manager.initrd_freestanding) (omega arith)))

  write_entry-entry_text :
      (k : Kernel) (dev : CbmDeviceProbe) (w : World P.host.State)
      → writer_text (write_entry P destination k dev w) ≡ entry_text k dev w
  unfolding write_entry writer_text entry_text concat
  write_entry-entry_text k dev w =
      let line = file_line (codes "initrd") destination in
      let pieces = option_pieces P destination k dev w.manager in
      ap (writer_text) (append_all-writer_open (file_lines P destination k w ++ pieces))
      ∙ ap (λ (ls : List Bytes). concat (ls ++ pieces)) (file_lines-concat k w)
      ∙ ap
          (λ (s : Bytes).
            (codes "title " ++ (get_os_name P w.manager ++ (b'\n' ∷ [])))
            ++ (file_line (codes "linux") destination k.target.path ++ s))
          (concat-append (map line (all_initrds k w)) pieces)

  module _ (stores : StoresTexts P.host) (c : SdClassConfig) (k : Kernel)
      (w : World P.host.State) where
    install_some-stored :
        (dev : CbmDeviceProbe)
        → c_string (entry_text k dev w) ≡ entry_text k dev w
        → (install_entry P destination c k (some dev) w).0 ≡ true
        → file_get_text P.host
            (get_entry_path_for_kernel P c k w)
            (install_entry P destination c k (some dev) w).1
          ≡ some (entry_text k dev w)
    unfolding install_entry ◌>>=◌ asks
    install_some-stored dev fits ok =
        let e = write_entry-entry_text k dev w in
        file_get_text-write_if_changed P.host stores (get_entry_path_for_kernel P c k w)
          (writer_text (write_entry P destination k dev w)) (rw e fits) w ok
        ∙ ap some e

    install_entry-stored :
        (o : Option CbmDeviceProbe) (dev : CbmDeviceProbe)
        → o ≡ some dev
        → c_string (entry_text k dev w) ≡ entry_text k dev w
        → (install_entry P destination c k o w).0 ≡ true
        → file_get_text P.host
            (get_entry_path_for_kernel P c k w)
            (install_entry P destination c k o w).1
          ≡ some (entry_text k dev w)
    install_entry-stored none dev e fits ok = cc
    install_entry-stored (some d) dev e fits ok =
        let same : d ≡ dev = cc in rw same (install_some-stored dev fits (rw same at ok))

  -- Where the installation of an entry succeeds, the file that belongs to the kernel holds the title,
  -- the kernel, a line for each initrd, and the options. The root device is known, the host keeps the
  -- texts that are written, and the text has no NUL.
  pub install_kernel-stored :
      (stores : StoresTexts P.host) (c : SdClassConfig) (k : Kernel) (dev : CbmDeviceProbe)
      → (w : World P.host.State) → w.manager.sysconfig.root_device ≡ some dev
      → c_string (entry_text k dev w) ≡ entry_text k dev w
      → (install_kernel P destination c k w).0 ≡ true
      → file_get_text P.host
          (get_entry_path_for_kernel P c k w)
          (install_kernel P destination c k w).1
        ≡ some (entry_text k dev w)
  unfolding install_kernel ◌>>=◌ asks
  install_kernel-stored stores c k dev w e fits ok =
      install_entry-stored stores c k w w.manager.sysconfig.root_device dev e fits ok
