-- ===== src/BootLoaders/SdClass/Default/Stored.antt =====
-- bootloaders/systemd-class.c: the default kernel on the boot partition.
use clr_boot_manager.Prelude.{
  ◌≡◌, ◌∙◌, refl, sym, ap, true, false, Option, none, some, [], ◌∷◌, ◌++◌, Bytes, arith, codes,
  Bool-cases, Option-cases, inl, inr,
}
use clr_boot_manager.Int.{ℤ, pos, ltb_ℤ}
use clr_boot_manager.Libc.{has_byte, show_ℤ}
use clr_boot_manager.Libc.Scan.{has_byte-show_ℤ}
use clr_boot_manager.Kernel.{Kernel}
use clr_boot_manager.Kernel.Name.{show_kernel_name, parse_kernel_name}
use clr_boot_manager.Kernel.Name.RoundTrip.{IsName, parse-show_kernel_name}
use clr_boot_manager.Kernel.Inspect.{c_string}
use clr_boot_manager.Libc.Lines.{has_byte-append}
use clr_boot_manager.Kernel.CString.{has_byte-c_string, c_string_self}
use clr_boot_manager.Platform.{Platform, World}
use clr_boot_manager.Monad.{◌>>=◌, asks}
use clr_boot_manager.Files.Stored.{StoresTexts, file_get_text-write_if_changed}
use clr_boot_manager.BootMan.Config.{
  first_line, read_sysconf_value, sysconf_path, get_timeout_value, get_console_mode,
}
use clr_boot_manager.BootLoaders.SdClass.{SdClassConfig, entry_name}
use clr_boot_manager.BootLoaders.SdClass.Default.{
  timeout_line, console_mode_line, default_text, parse_config, parse_kernel_from_loader,
  set_default_kernel, get_default_kernel,
}
use clr_boot_manager.BootLoaders.SdClass.Default.RoundTrip.{
  IsEntry, name_of, entry_name-IsLine, parse_kernel_from_loader-entry_name,
}

-- No NUL in a value that is there.
abbrev NoNul : Option Bytes → Type 0
NoNul none = Unit
NoNul (some value) = has_byte 0 value ≡ false

first_line-NoNul : (content : Bytes) → NoNul (first_line content)
unfolding first_line
first_line-NoNul [] = tt
first_line-NoNul (c ∷ s) = has_byte-c_string _

newline_no_nul : has_byte 0 (b'\n' ∷ []) ≡ false
unfolding has_byte
newline_no_nul = refl

timeout_line-NoNul : (z : ℤ) → has_byte 0 (timeout_line z) ≡ false
unfolding timeout_line
timeout_line-NoNul z = elim (Bool-cases (ltb_ℤ (pos 0) z)) [
  | inl above ↦ rw above (
      has_byte-append 0 (codes "timeout ") _ (unfold has_byte in refl)
        (has_byte-append 0 (show_ℤ z) _ (has_byte-show_ℤ 0 z (omega arith) refl) newline_no_nul))
  | inr not_above ↦ rw not_above (unfold has_byte in refl)
]

console_mode_line-NoNul :
    (mode : Option Bytes) → NoNul mode → has_byte 0 (console_mode_line mode) ≡ false
unfolding console_mode_line
console_mode_line-NoNul none h = unfold has_byte in refl
console_mode_line-NoNul (some mode) h =
    has_byte-append 0 (codes "console-mode ") _ (unfold has_byte in refl)
      (has_byte-append 0 mode _ h newline_no_nul)

module _ (P : Platform) where
  read_sysconf_value-NoNul :
      (filename : Bytes) (w : World P.host.State) → NoNul (read_sysconf_value P filename w)
  unfolding read_sysconf_value
  read_sysconf_value-NoNul filename w =
      let path = sysconf_path P filename w in
      elim (Bool-cases (P.host.file_exists w.host path)) [
        | inr absent ↦ rw absent tt
        | inl there ↦ elim (Option-cases (P.host.read w.host path)) [
          | inl closed ↦ rw (there, closed) tt
          | inr (content, opened) ↦ rw (there, opened) (first_line-NoNul content)
        ]
      ]

  -- What is written holds no NUL.
  default_text-c_string :
      (k : Kernel) (w : World P.host.State)
      → IsEntry P.config.vendor_prefix k
      → c_string (default_text P (some k) w) ≡ default_text P (some k) w
  unfolding default_text get_console_mode
  default_text-c_string k w e = c_string_self _ (
      has_byte-append 0 (codes "default ") _ (unfold has_byte in refl) (
        has_byte-append 0 (entry_name P.config.vendor_prefix k) _
          (entry_name-IsLine P.config.vendor_prefix k e).no_nul
          (has_byte-append 0 (b'\n' ∷ []) _ newline_no_nul (
            has_byte-append 0 (timeout_line (get_timeout_value P w)) _ (timeout_line-NoNul _)
              (console_mode_line-NoNul _ (read_sysconf_value-NoNul (codes "console_mode") w))))))

  parse-default_text :
      (k : Kernel) (w : World P.host.State)
      → IsEntry P.config.vendor_prefix k
      → parse_config P (some (default_text P (some k) w))
        ≡ some (show_kernel_name P.config.kernel_namespace (name_of k))
  unfolding parse_config default_text
  parse-default_text k w e =
      parse_kernel_from_loader-entry_name P k
        (timeout_line (get_timeout_value P w) ++ console_mode_line (get_console_mode P w)) e

  -- Where the default was set with success, the default that is read is the name of that kernel,
  -- NAMESPACE.TYPE.VERSION-RELEASE. The host keeps the texts that are written; the type has from 1 to
  -- 31 bytes, the version from 1 to 15 and no dash, the release is not negative and below 2^63, and
  -- the parts hold no newline and no NUL.
  pub get_default_kernel-set_default_kernel :
      StoresTexts P.host
      → (c : SdClassConfig) (k : Kernel) (w : World P.host.State) → IsEntry P.config.vendor_prefix k
      → (set_default_kernel P c (some k) w).0 ≡ true
      → (get_default_kernel P c (set_default_kernel P c (some k) w).1).0
        ≡ some (show_kernel_name P.config.kernel_namespace (name_of k))
  unfolding set_default_kernel get_default_kernel ◌>>=◌ asks
  get_default_kernel-set_default_kernel stores c k w e ok =
      ap (parse_config P) (
        file_get_text-write_if_changed P.host stores c.loader_config (default_text P (some k) w)
          (default_text-c_string k w e) w ok)
      ∙ parse-default_text k w e

  -- Two kernels whose entries have the same name are of the same type, version and release, if the
  -- parts fit the buffers of the parsers, the types hold no dot, the versions no dash, no part holds a
  -- newline or a NUL, and the releases are not below 0.
  pub entry_name-injective :
      (j k : Kernel)
      → IsEntry P.config.vendor_prefix j
      → IsEntry P.config.vendor_prefix k
      → IsName (name_of j)
      → IsName (name_of k)
      → entry_name P.config.vendor_prefix j ≡ entry_name P.config.vendor_prefix k
      → name_of j ≡ name_of k
  entry_name-injective j k ej ek nj nk same = same_some (
      sym (parse-show_kernel_name P.config.kernel_namespace (name_of j) nj)
      ∙ ap (parse_kernel_name P.config.kernel_namespace) (
          shown_same (
            sym (parse_kernel_from_loader-entry_name P j [] ej)
            ∙ ap
                (λ (s : Bytes).
                  parse_kernel_from_loader P (codes "default " ++ (s ++ (b'\n' ∷ []))))
                same
            ∙ parse_kernel_from_loader-entry_name P k [] ek))
      ∙ parse-show_kernel_name P.config.kernel_namespace (name_of k) nk)
    where
      same_some : {A : Type 0} {a b : A} → some a ≡ some b → a ≡ b
      same_some e = cc

      shown_same : {a b : Bytes} → some a ≡ some b → a ≡ b
      shown_same e = cc
