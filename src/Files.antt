-- ===== src/Files.antt =====
-- lib/files.c: comparing and copying files.
pub mod Loop
pub mod Copy
pub mod Atomic
pub mod Text
pub mod Devices
pub mod Stored
pub mod Frame
pub mod Match
use clr_boot_manager.Prelude.{
  ℕ, zero, suc, ◌+◌, ◌-◌, Bool, true, false, ◌&&◌, Option, none, some, ◌++◌, Bytes, ◌==◌,
  if◌then◌else◌, codes, streq, length, is_some,
}
use clr_boot_manager.Libc.{dirname}
use clr_boot_manager.Platform.{FileKind, regular, symlink, directory, other, Stat, Host, World, M}
use clr_boot_manager.Monad.{pure, ◌>>=◌, ◌>>◌, and_then, asks, call}

module _ (H : Host) where
  -- `cbm_get_file_parent`
  abbrev pub get_file_parent : H.State → Bytes → Option Bytes
  get_file_parent s p = elim (H.realpath s p) [ none ↦ none | some r ↦ some (dirname r) ]

  -- `cbm_files_match`: both files can be opened, and hold the same bytes.
  unfoldable pub both_match : Option Bytes → Option Bytes → Bool
  both_match none _ = false
  both_match (some m1) none = false
  both_match (some m1) (some m2) = if length m1 == length m2 then streq m1 m2 else false

  unfoldable pub files_match : H.State → Bytes → Bytes → Bool
  unfolding both_match
  files_match s p1 p2 = both_match (H.read s p1) (H.read s p2)

  -- `cbm_sync`
  unfoldable pub cbm_sync : M H.State (Unit {0})
  cbm_sync = call (λ s. (tt, H.sync s))

  unfoldable pub on_sent : ℕ → (ℕ → M H.State Bool) → Option ℕ → M H.State Bool
  unfolding pure
  on_sent sz again none = pure false
  on_sent sz again (some written) = if written == sz then pure true else again written

  -- The `sendfile` loop of `copy_file`, from the offset `off` of the descriptors, with `sz` bytes left.
  unfoldable pub send_all : ℕ → Bytes → Bytes → ℕ → ℕ → M H.State Bool
  unfolding on_sent pure ◌>>=◌ call
  send_all zero target src off sz = pure false
  send_all (suc fuel) target src off sz =
      call (H.sendfile target src off sz)
      >>= on_sent sz (λ written. send_all fuel target src (off + written) (sz - written))

  unfoldable pub send_stat : Bytes → Bytes → Option Stat → M H.State Bool
  unfolding pure
  send_stat src target none = pure false
  send_stat src target (some st) = send_all (suc st.size) target src 0 st.size

  -- `copy_file`. Each round of the loop moves at least a byte, so the fuel is the size and one more.
  unfoldable pub copy_file : Bytes → Bytes → M H.State Bool
  unfolding pure ◌>>=◌ and_then asks call
  copy_file src target = do
    opened ← asks (λ w. is_some (H.read w.host src))
    if opened
        then and_then (call (H.create target))
            (asks (λ w. H.stat w.host src) >>= send_stat src target)
        else pure false

  -- Deletes the target, unless it is a directory.
  unfoldable pub clear_kind : Bytes → FileKind → M H.State Bool
  clear_kind target directory = cbm_sync >> pure true
  clear_kind target _ = and_then (call (H.unlink target)) (cbm_sync >> pure true)

  unfoldable pub clear_target : Bytes → Option Stat → M H.State Bool
  unfolding clear_kind
  clear_target target none = pure true
  clear_target target (some st) = clear_kind target st.kind

  -- The copy takes the place of the target.
  unfoldable pub replace_target : Bytes → Bytes → M H.State Bool
  replace_target new_name target = do
    cbm_sync
    st ← asks (λ w. H.stat w.host target)
    and_then (clear_target target st)
        (and_then (call (H.rename new_name target)) (cbm_sync >> pure true))

  -- `copy_file_atomic`
  unfoldable pub copy_file_atomic : Bytes → Bytes → M H.State Bool
  copy_file_atomic src target = do
    let new_name = target ++ codes ".TmpWrite"
    copied ← copy_file src new_name
    if copied then replace_target new_name target else call (H.unlink new_name) >> pure false
