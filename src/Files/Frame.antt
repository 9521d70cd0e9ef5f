-- ===== src/Files/Frame.antt =====
-- lib/files.c: what an operation on one file leaves of the others.
use clr_boot_manager.Prelude.{
  ℕ, zero, suc, ◌+◌, ◌-◌, ◌==◌, ◌≡◌, ◌∙◌, Bool, true, false, Option, none, some, Bytes, ◌++◌, codes,
  streq, is_some,
}
use clr_boot_manager.Platform.{FileKind, regular, symlink, directory, other, Stat, Host, World, M}
use clr_boot_manager.Monad.{
  Keeps, call, pure-Keeps, asks-Keeps, >>=-Keeps, >>-Keeps, if-Keeps, and_then-Keeps, call-Keeps,
}
use clr_boot_manager.Files.{
  cbm_sync, on_sent, send_all, send_stat, copy_file, clear_kind, clear_target, replace_target,
  copy_file_atomic,
}
use clr_boot_manager.Files.Text.{
  unlink_if_there, write_synced, file_set_text, file_holds, write_if_changed,
}

-- A call on one path leaves the contents of the files at other paths alone, and a directory that is
-- made, a sync, the contents of all.
pub record LeavesOthers (H : Host) (kept : Bytes) : Type 0 where
  pub synced : (s : H.State) → H.read (H.sync s) kept ≡ H.read s kept
  pub directory_made :
      (path : Bytes) (s : H.State) → H.read (H.mkdir_p path s).1 kept ≡ H.read s kept
  pub created :
      (path : Bytes) (s : H.State)
      → streq path kept ≡ false
      → H.read (H.create path s).1 kept ≡ H.read s kept
  pub written :
      (path text : Bytes) (s : H.State)
      → streq path kept ≡ false
      → H.read (H.write path text s).1 kept ≡ H.read s kept
  pub unlinked :
      (path : Bytes) (s : H.State)
      → streq path kept ≡ false
      → H.read (H.unlink path s).1 kept ≡ H.read s kept
  pub renamed :
      (from to : Bytes) (s : H.State)
      → streq from kept ≡ false
      → streq to kept ≡ false
      → H.read (H.rename from to s).1 kept ≡ H.read s kept
  pub sent :
      (target src : Bytes) (off count : ℕ) (s : H.State)
      → streq target kept ≡ false
      → H.read (H.sendfile target src off count s).1 kept ≡ H.read s kept

-- The file at `kept` has the contents `content`, or is not there.
abbrev pub Reads : (H : Host) → Bytes → Option Bytes → World H.State → Type 0
Reads H kept content w = H.read w.host kept ≡ content

module _ (H : Host) (kept : Bytes) (others : LeavesOthers H kept) (content : Option Bytes) where
  pub cbm_sync-Keeps : Keeps (Reads H kept content) (cbm_sync H)
  unfolding cbm_sync
  cbm_sync-Keeps = call-Keeps _ (λ w p. others.synced w.host ∙ p)

  pub mkdir_p-Keeps : (path : Bytes) → Keeps (Reads H kept content) (call (H.mkdir_p path))
  mkdir_p-Keeps path = call-Keeps _ (λ w p. others.directory_made path w.host ∙ p)

  module _ (path : Bytes) (apart : streq path kept ≡ false) where
    unlink-Keeps : Keeps (Reads H kept content) (call (H.unlink path))
    unlink-Keeps = call-Keeps _ (λ w p. others.unlinked path w.host apart ∙ p)

    unlink_if_there-Keeps : Keeps (Reads H kept content) (unlink_if_there H path)
    unfolding unlink_if_there
    unlink_if_there-Keeps =
        >>=-Keeps (asks-Keeps (λ w. H.file_exists w.host path))
          (λ there. if-Keeps there unlink-Keeps (pure-Keeps true))

    pub write_synced-Keeps :
        (text : Bytes) → Keeps (Reads H kept content) (write_synced H path text)
    unfolding write_synced
    write_synced-Keeps text =
        >>=-Keeps
          (call-Keeps (H.write path text) (λ w p. others.written path text w.host apart ∙ p))
          (λ written. >>-Keeps cbm_sync-Keeps (pure-Keeps written))

    pub file_set_text-Keeps :
        (text : Bytes) → Keeps (Reads H kept content) (file_set_text H path text)
    unfolding file_set_text
    file_set_text-Keeps text =
        and_then-Keeps unlink_if_there-Keeps (>>-Keeps cbm_sync-Keeps (write_synced-Keeps text))

    pub write_if_changed-Keeps :
        (text : Bytes) → Keeps (Reads H kept content) (write_if_changed H path text)
    unfolding write_if_changed
    write_if_changed-Keeps text = >>=-Keeps (asks-Keeps (file_holds H path text)) (λ same.
        if-Keeps same (pure-Keeps true)
          (and_then-Keeps (file_set_text-Keeps text) (>>-Keeps cbm_sync-Keeps (pure-Keeps true))))

    clear_kind-Keeps : (kind : FileKind) → Keeps (Reads H kept content) (clear_kind H path kind)
    unfolding clear_kind
    clear_kind-Keeps directory = >>-Keeps cbm_sync-Keeps (pure-Keeps true)
    clear_kind-Keeps regular =
        and_then-Keeps unlink-Keeps (>>-Keeps cbm_sync-Keeps (pure-Keeps true))
    clear_kind-Keeps symlink =
        and_then-Keeps unlink-Keeps (>>-Keeps cbm_sync-Keeps (pure-Keeps true))
    clear_kind-Keeps other = and_then-Keeps unlink-Keeps (>>-Keeps cbm_sync-Keeps (pure-Keeps true))

    clear_target-Keeps : (st : Option Stat) → Keeps (Reads H kept content) (clear_target H path st)
    unfolding clear_target
    clear_target-Keeps none = pure-Keeps true
    clear_target-Keeps (some st) = clear_kind-Keeps st.kind

    on_sent-Keeps :
        (sz : ℕ) (again : ℕ → M H.State Bool)
        → ((written : ℕ) → Keeps (Reads H kept content) (again written))
        → (r : Option ℕ) → Keeps (Reads H kept content) (on_sent H sz again r)
    unfolding on_sent
    on_sent-Keeps sz again h none = pure-Keeps false
    on_sent-Keeps sz again h (some written) = if-Keeps (written == sz) (pure-Keeps true) (h written)

    send_all-Keeps :
        (fuel : ℕ) (src : Bytes) (off sz : ℕ)
        → Keeps (Reads H kept content) (send_all H fuel path src off sz)
    unfolding send_all
    send_all-Keeps zero src off sz = pure-Keeps false
    send_all-Keeps (suc fuel) src off sz =
        >>=-Keeps
          (call-Keeps (H.sendfile path src off sz)
            (λ w p. others.sent path src off sz w.host apart ∙ p))
          (on_sent-Keeps sz _ (λ written. send_all-Keeps fuel src (off + written) (sz - written)))

    send_stat-Keeps :
        (src : Bytes) (st : Option Stat) → Keeps (Reads H kept content) (send_stat H src path st)
    unfolding send_stat
    send_stat-Keeps src none = pure-Keeps false
    send_stat-Keeps src (some st) = send_all-Keeps (suc st.size) src 0 st.size

    copy_file-Keeps : (src : Bytes) → Keeps (Reads H kept content) (copy_file H src path)
    unfolding copy_file
    copy_file-Keeps src = >>=-Keeps (asks-Keeps (λ w. is_some (H.read w.host src))) (λ opened.
        if-Keeps opened
          (and_then-Keeps (call-Keeps (H.create path) (λ w p. others.created path w.host apart ∙ p))
            (>>=-Keeps (asks-Keeps (λ w. H.stat w.host src)) (send_stat-Keeps src)))
          (pure-Keeps false))

  -- If no call of the host changes the contents of a file at another path than its own, a copy leaves
  -- alone every file that is neither its target nor its temporary file.
  pub copy_file_atomic-Keeps :
      (src target : Bytes)
      → streq target kept ≡ false
      → streq (target ++ codes ".TmpWrite") kept ≡ false
      → Keeps (Reads H kept content) (copy_file_atomic H src target)
  unfolding copy_file_atomic replace_target
  copy_file_atomic-Keeps src target apart tmp_apart =
      let new_name = target ++ codes ".TmpWrite" in
      >>=-Keeps (copy_file-Keeps new_name tmp_apart src) (λ copied.
        if-Keeps copied
          (>>-Keeps cbm_sync-Keeps (
            >>=-Keeps (asks-Keeps (λ w. H.stat w.host target)) (λ st.
              and_then-Keeps (clear_target-Keeps target apart st) (
                and_then-Keeps
                  (call-Keeps (H.rename new_name target)
                    (λ w p. others.renamed new_name target w.host tmp_apart apart ∙ p))
                  (>>-Keeps cbm_sync-Keeps (pure-Keeps true))))))
          (>>-Keeps (unlink-Keeps new_name tmp_apart) (pure-Keeps false)))
