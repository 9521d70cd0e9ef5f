-- ===== src/BootLoaders/Syslinux/Config/RoundTrip.antt =====
-- bootloaders/syslinux-common.c: the default that was written is the default that is read.
use mathlib.Core.List.{append_assoc, append-nil}
use clr_boot_manager.Prelude.{
  ◌≡◌, ◌∙◌, refl, sym, ap, ℕ, false, Option, none, some, List, [], ◌∷◌, ◌++◌, Bytes, arith, codes,
  if◌then◌else◌, Bool-cases, inl, inr, All, All-append,
}
use clr_boot_manager.Int.{ℤ, pos, negsuc, ltb_ℤ}
use clr_boot_manager.Libc.{memmem, lines, has_byte, isdigit, show_ℤ}
use clr_boot_manager.Libc.Lines.{NoNewline, unlines, lines-unlines, unlines-append}
use clr_boot_manager.Libc.Scan.{memmem-none, has_byte-show_pos}
use clr_boot_manager.Kernel.{Kernel}
use clr_boot_manager.Kernel.CString.{c_string_self}
use clr_boot_manager.Platform.{Platform, CbmDeviceProbe, BootManager, World}
use clr_boot_manager.Writer.{CbmWriter, writer_text}
use clr_boot_manager.Writer.Sticky.{concat, concat-append, append_all-writer_open}
use clr_boot_manager.BootMan.Config.{get_timeout_value}
use clr_boot_manager.BootLoaders.SdClass.Default.Fields.{memmem-append}
use clr_boot_manager.BootLoaders.Syslinux.Config.{
  is_default, word_line, comma_names, initrd_line, timeout_pieces, initrd_names, append_pieces,
  kernel_pieces, queue_pieces, write_config, found_or, default_pieces, config_text, find_default,
}

-- A line that is read as it was written, and names no default.
pub record IsPlain (line : Bytes) : Type 0 where
  pub no_newline : has_byte b'\n' line ≡ false
  pub no_nul : has_byte 0 line ≡ false
  pub no_default : memmem line (codes "DEFAULT ") ≡ none

-- "KEYWORD VALUE"
abbrev words : Bytes → Bytes → Bytes
words keyword value = keyword ++ (b' ' ∷ value)

-- The pieces make up the lines.
abbrev Makes : List Bytes → List Bytes → Type 0
Makes pieces ls = concat pieces ≡ unlines ls

Makes-append : (ps ls qs ms : List Bytes) → Makes ps ls → Makes qs ms → Makes (ps ++ qs) (ls ++ ms)
Makes-append ps ls qs ms e f = rw (concat-append ps qs, unlines-append ls ms, e, f) refl

concat_one : (s : Bytes) → concat (s ∷ []) ≡ s
unfolding concat
concat_one s = append-nil s

last_line-Makes :
    (ps : List Bytes) (s : Bytes) → Makes (ps ++ ((s ++ (b'\n' ∷ [])) ∷ [])) ((concat ps ++ s) ∷ [])
last_line-Makes ps s =
    concat-append ps ((s ++ (b'\n' ∷ [])) ∷ [])
    ∙ ap (λ (t : Bytes). concat ps ++ t) (concat_one (s ++ (b'\n' ∷ [])))
    ∙ sym (append_assoc (concat ps) s (b'\n' ∷ []))
    ∙ unfold unlines in refl

word_line-Makes :
    (keyword value : Bytes) → Makes (word_line keyword value ∷ []) (words keyword value ∷ [])
unfolding word_line
word_line-Makes keyword value =
    concat_one (word_line keyword value)
    ∙ sym (append_assoc keyword (b' ' ∷ value) (b'\n' ∷ []))
    ∙ unfold unlines in refl

none-Makes : Makes [] []
none-Makes = unfold concat unlines in refl

initrd_lines : Bytes → List Bytes
initrd_lines [] = []
initrd_lines (_ ∷ names) = words (codes "  INITRD") names ∷ []

initrd_line-Makes : (names : Bytes) → Makes (initrd_line names) (initrd_lines names)
unfolding initrd_line initrd_lines
initrd_line-Makes [] = none-Makes
initrd_line-Makes (c ∷ names) = word_line-Makes (codes "  INITRD") names

default_lines : Kernel → Kernel → List Bytes
default_lines d k =
    if is_default (some d) k then words (codes "DEFAULT") k.target.legacy_path ∷ [] else []

default_pieces-Makes : (d k : Kernel) → Makes (default_pieces (some d) k) (default_lines d k)
unfolding default_pieces default_lines
default_pieces-Makes d k = elim (Bool-cases (is_default (some d) k)) [
  | inl marked ↦ rw marked (word_line-Makes (codes "DEFAULT") k.target.legacy_path)
  | inr other ↦ rw other none-Makes
]

-- Lines that name no default are passed over.
find_default-plain :
    (ls rest : List Bytes) → All IsPlain ls → find_default (ls ++ rest) ≡ find_default rest
unfolding find_default
find_default-plain [] rest a = refl
find_default-plain (l ∷ ls) rest (p, a) =
    ap (λ (s : Bytes). found_or (find_default (ls ++ rest)) (memmem s (codes "DEFAULT ")))
      (c_string_self l p.no_nul)
    ∙ ap (found_or (find_default (ls ++ rest))) p.no_default
    ∙ unfold found_or in find_default-plain ls rest a

find_default-words :
    (path : Bytes) (rest : List Bytes)
    → has_byte 0 path ≡ false
    → find_default (words (codes "DEFAULT") path ∷ rest) ≡ some path
unfolding find_default
find_default-words path rest h =
    ap (λ (s : Bytes). found_or (find_default rest) (memmem s (codes "DEFAULT ")))
      (c_string_self (words (codes "DEFAULT") path) (unfold has_byte in h))
    ∙ ap (found_or (find_default rest)) (memmem-append (codes "DEFAULT ") path)
    ∙ unfold found_or in refl

-- The path of the first kernel of the queue that is the default.
abbrev pub default_path : Kernel → List Kernel → Option Bytes
default_path d [] = none
default_path d (k ∷ ks) =
    if is_default (some d) k then some k.target.legacy_path else default_path d ks

module _ (P : Platform) (dev : CbmDeviceProbe) (m : BootManager) where
  -- The lines of a kernel: its label, its file, its initrds and its options.
  unfoldable pub kernel_lines : Kernel → List Bytes
  unfolding initrd_lines
  kernel_lines k =
      words (codes "LABEL") k.target.legacy_path
      ∷ words (codes "  KERNEL") k.target.legacy_path
      ∷ (initrd_lines (comma_names (initrd_names P k m))
          ++ ((concat (append_pieces P dev m) ++ k.meta.cmdline) ∷ []))

  -- The lines of the queue, the one of the default in front of its kernel.
  queue_lines : Kernel → List Kernel → List Bytes
  queue_lines d [] = []
  queue_lines d (k ∷ ks) = default_lines d k ++ (kernel_lines k ++ queue_lines d ks)

  kernel_lines-Makes :
      (k : Kernel)
      → Makes
          (word_line (codes "LABEL") k.target.legacy_path
            ∷ word_line (codes "  KERNEL") k.target.legacy_path
            ∷ (initrd_line (comma_names (initrd_names P k m))
                ++ (append_pieces P dev m ++ ((k.meta.cmdline ++ (b'\n' ∷ [])) ∷ []))))
          (kernel_lines k)
  unfolding kernel_lines
  kernel_lines-Makes k =
      Makes-append (word_line (codes "LABEL") k.target.legacy_path ∷ []) _ _ _
        (word_line-Makes (codes "LABEL") k.target.legacy_path)
        (Makes-append (word_line (codes "  KERNEL") k.target.legacy_path ∷ []) _ _ _
          (word_line-Makes (codes "  KERNEL") k.target.legacy_path)
          (Makes-append _ _ _ _ (initrd_line-Makes (comma_names (initrd_names P k m)))
            (last_line-Makes (append_pieces P dev m) k.meta.cmdline)))

  queue_lines-Makes :
      (d : Kernel) (ks : List Kernel) → Makes (queue_pieces P (some d) dev m ks) (queue_lines d ks)
  unfolding queue_pieces queue_lines kernel_pieces
  queue_lines-Makes d [] = none-Makes
  queue_lines-Makes d (k ∷ ks) =
      ap concat (append_assoc (default_pieces (some d) k) _ (queue_pieces P (some d) dev m ks))
      ∙ Makes-append (default_pieces (some d) k) (default_lines d k) _ _ (default_pieces-Makes d k)
          (Makes-append _ (kernel_lines k) _ (queue_lines d ks) (kernel_lines-Makes k)
            (queue_lines-Makes d ks))

  label_no_nul :
      (k : Kernel) → All IsPlain (kernel_lines k) → has_byte 0 k.target.legacy_path ≡ false
  unfolding kernel_lines has_byte
  label_no_nul k (label, rest) = label.no_nul

  -- What is found among the lines of the queue.
  find_default-queue_lines :
      (d : Kernel) (ks : List Kernel)
      → All (λ k. All IsPlain (kernel_lines k)) ks
      → find_default (queue_lines d ks) ≡ default_path d ks
  unfolding queue_lines default_lines
  find_default-queue_lines d [] a = unfold find_default in refl
  find_default-queue_lines d (k ∷ ks) (plain, a) = elim (Bool-cases (is_default (some d) k)) [
    | inl marked ↦ rw marked (find_default-words k.target.legacy_path _ (label_no_nul k plain))
    | inr other ↦ rw other (
        find_default-plain (kernel_lines k) (queue_lines d ks) plain
        ∙ find_default-queue_lines d ks a)
  ]

  plain-NoNewline : (ls : List Bytes) → All IsPlain ls → All NoNewline ls
  plain-NoNewline [] a = tt
  plain-NoNewline (l ∷ ls) (p, a) = (p.no_newline, plain-NoNewline ls a)

  default_lines-NoNewline :
      (d k : Kernel)
      → has_byte b'\n' k.target.legacy_path ≡ false
      → All NoNewline (default_lines d k)
  unfolding default_lines
  default_lines-NoNewline d k h = elim (Bool-cases (is_default (some d) k)) [
    | inl marked ↦ rw marked (unfold has_byte in h, tt)
    | inr other ↦ rw other tt
  ]

  label_no_newline :
      (k : Kernel) → All IsPlain (kernel_lines k) → has_byte b'\n' k.target.legacy_path ≡ false
  unfolding kernel_lines has_byte
  label_no_newline k (label, rest) = label.no_newline

  queue_lines-NoNewline :
      (d : Kernel) (ks : List Kernel)
      → All (λ k. All IsPlain (kernel_lines k)) ks
      → All NoNewline (queue_lines d ks)
  unfolding queue_lines
  queue_lines-NoNewline d [] a = tt
  queue_lines-NoNewline d (k ∷ ks) (plain, a) =
      All-append NoNewline (default_lines d k) _
        (default_lines-NoNewline d k (label_no_newline k plain))
        (All-append NoNewline (kernel_lines k) _ (plain-NoNewline (kernel_lines k) plain)
          (queue_lines-NoNewline d ks a))

timeout_lines : ℤ → List Bytes
timeout_lines timeout =
    if ltb_ℤ (pos 0) timeout then words (codes "TIMEOUT") (show_ℤ timeout) ∷ [] else []

timeout_pieces-Makes :
    (d : Kernel) (timeout : ℤ) → Makes (timeout_pieces (some d) timeout) (timeout_lines timeout)
unfolding timeout_pieces timeout_lines
timeout_pieces-Makes d timeout = elim (Bool-cases (ltb_ℤ (pos 0) timeout)) [
  | inl above ↦ rw above (word_line-Makes (codes "TIMEOUT") (show_ℤ timeout))
  | inr not_above ↦ rw not_above none-Makes
]

timeout_words-IsPlain : (n : ℕ) → IsPlain (words (codes "TIMEOUT") (show_ℤ (pos n)))
timeout_words-IsPlain n = record {
  no_newline = unfold has_byte in has_byte-show_pos b'\n' n (unfold isdigit in refl);
  no_nul = unfold has_byte in has_byte-show_pos 0 n (unfold isdigit in refl);
  no_default =
      memmem-none b'D' (codes "EFAULT ") (words (codes "TIMEOUT") (show_ℤ (pos n)))
        (unfold has_byte in has_byte-show_pos b'D' n (unfold isdigit in refl));
}

timeout_lines-IsPlain : (timeout : ℤ) → All IsPlain (timeout_lines timeout)
unfolding timeout_lines
timeout_lines-IsPlain (pos n) = elim (Bool-cases (ltb_ℤ (pos 0) (pos n))) [
  | inl above ↦ rw above (timeout_words-IsPlain n, tt)
  | inr not_above ↦ rw not_above tt
]
timeout_lines-IsPlain (negsuc n) = ground arith

module _ (P : Platform) (dev : CbmDeviceProbe) (w : World P.host.State) where
  -- The configuration for a default kernel is read back to the path of the first kernel of the queue
  -- that has its type, version and release, or to none where there is no such kernel. No line of a
  -- kernel holds a newline, a NUL or the text "DEFAULT ".
  pub find_default-config_text :
      (d : Kernel) (queue : List Kernel)
      → All (λ k. All IsPlain (kernel_lines P dev w.manager k)) queue
      → find_default (lines (config_text P (some d) dev queue w)) ≡ default_path d queue
  unfolding config_text write_config
  find_default-config_text d queue a =
      let timeout = get_timeout_value P w in
      let pieces = queue_pieces P (some d) dev w.manager queue in
      let ls = queue_lines P dev w.manager d queue in
      let made =
        Makes-append (timeout_pieces (some d) timeout) (timeout_lines timeout) pieces ls
          (timeout_pieces-Makes d timeout) (queue_lines-Makes P dev w.manager d queue) in
      ap (λ (writer : CbmWriter). find_default (lines (writer_text writer)))
        (append_all-writer_open (timeout_pieces (some d) timeout ++ pieces))
      ∙ unfold writer_text in
        ap (λ (s : Bytes). find_default (lines s)) made
        ∙ ap find_default (
            lines-unlines (timeout_lines timeout ++ ls) (
              All-append NoNewline (timeout_lines timeout) ls
                (plain-NoNewline P dev w.manager (timeout_lines timeout)
                  (timeout_lines-IsPlain timeout))
                (queue_lines-NoNewline P dev w.manager d queue a)))
        ∙ find_default-plain (timeout_lines timeout) ls (timeout_lines-IsPlain timeout)
        ∙ find_default-queue_lines P dev w.manager d queue a
