-- ===== src/BootMan/Config/Timeout.antt =====
-- bootman/config.c: the values that were set are the values that are read.
use clr_boot_manager.Prelude.{
  ℕ, ◌<◌, ◌≡◌, refl, Bool, true, false, none, some, [], ◌∷◌, ◌++◌, Bytes, arith, codes, Bool-cases,
  inl, inr,
}
use clr_boot_manager.Int.{ℤ, pos, negsuc, ltb_ℤ}
use clr_boot_manager.Libc.{split_at, show_ℤ, has_byte}
use clr_boot_manager.Libc.Numbers.{scan_int_all}
use clr_boot_manager.Libc.Scan.{split_at-append, has_byte-show_ℤ}
use clr_boot_manager.Kernel.Inspect.{◌//◌, c_string}
use clr_boot_manager.Kernel.CString.{c_string_self}
use clr_boot_manager.Platform.{Platform, Host, World}
use clr_boot_manager.Monad.{pure, ◌>>=◌, and_then, asks, call}
use clr_boot_manager.BootMan.Config.{
  first_line, atoi, timeout_of_value, sysconf_path, write_contents, write_sysconf_file,
  set_timeout_value, read_sysconf_value, get_timeout_value, set_console_mode, get_console_mode,
}

-- A file that was written is there with its text, and one that was removed is gone.
pub record StoresFiles (H : Host) : Type 0 where
  pub written_there :
      (path text : Bytes) (s : H.State)
      → (H.write path text s).0 ≡ true
      → H.file_exists (H.write path text s).1 path ≡ true
  pub written_read :
      (path text : Bytes) (s : H.State)
      → (H.write path text s).0 ≡ true
      → H.read (H.write path text s).1 path ≡ some text
  pub removed_gone :
      (path : Bytes) (s : H.State)
      → (H.unlink path s).0 ≡ true
      → H.file_exists (H.unlink path s).1 path ≡ false

-- A value of one line, with no NUL.
pub record IsValue (value : Bytes) : Type 0 where
  pub no_newline : has_byte b'\n' value ≡ false
  pub no_nul : has_byte 0 value ≡ false

first_line-value : (value : Bytes) → IsValue value → first_line (value ++ (b'\n' ∷ [])) ≡ some value
unfolding first_line
first_line-value [] v = unfold split_at c_string in refl
first_line-value (c ∷ s) v =
    rw (split_at-append b'\n' (c ∷ s) [] v.no_newline, c_string_self (c ∷ s) v.no_nul)

positive : (n : ℕ) → 0 < n → ltb_ℤ (pos 0) (pos n) ≡ true
positive n h = ground arith

number-IsValue : (n : ℕ) → IsValue (show_ℤ (pos n))
number-IsValue n = record {
  no_newline = has_byte-show_ℤ b'\n' (pos n) (omega arith) refl;
  no_nul = has_byte-show_ℤ 0 (pos n) (omega arith) refl;
}

timeout_of_value-show : (n : ℕ) → 0 < n → timeout_of_value (some (show_ℤ (pos n))) ≡ pos n
unfolding timeout_of_value atoi
timeout_of_value-show n h = rw (scan_int_all (pos n), atoi, positive n h)

module _ (P : Platform) (files : StoresFiles P.host) where
  read-write_sysconf_file :
      (filename value : Bytes) (w : World P.host.State)
      → IsValue value
      → (write_sysconf_file P filename (some value) w).0 ≡ true
      → read_sysconf_value P filename (write_sysconf_file P filename (some value) w).1 ≡ some value
  unfolding write_sysconf_file write_contents sysconf_path read_sysconf_value and_then asks call
      ◌>>=◌
  read-write_sysconf_file filename value w v ok =
      let dir = w.manager.sysconfig.prefix ++ P.config.kernel_conf_directory in
      elim (Bool-cases (P.host.mkdir_p dir w.host).0) [
        | inl made ↦ rw made (
            rw (files.written_there _ _ _ (rw made at ok), files.written_read _ _ _ (rw made at ok))
              (first_line-value value v))
        | inr failed ↦ absurd_of (rw failed at ok)
      ]
    where
      absurd_of : {A : Type 0} → ◌≡◌ {A = Bool} false true → A
      absurd_of e = cc

  read-remove_sysconf_file :
      (filename : Bytes) (w : World P.host.State)
      → (write_sysconf_file P filename none w).0 ≡ true
      → read_sysconf_value P filename (write_sysconf_file P filename none w).1 ≡ none
  unfolding write_sysconf_file write_contents sysconf_path read_sysconf_value and_then asks call
      ◌>>=◌ pure
  read-remove_sysconf_file filename w ok =
      let dir = w.manager.sysconfig.prefix ++ P.config.kernel_conf_directory in
      let made_host = (P.host.mkdir_p dir w.host).1 in
      elim (Bool-cases (P.host.mkdir_p dir w.host).0) [
        | inl made ↦ rw made (elim (Bool-cases (P.host.file_exists made_host (dir // filename))) [
          | inl there ↦ rw (there, files.removed_gone _ _ (rw (made, there) at ok))
          | inr absent ↦ rw (absent, absent)
        ])
        | inr failed ↦ absurd_of (rw failed at ok)
      ]
    where
      absurd_of : {A : Type 0} → ◌≡◌ {A = Bool} false true → A
      absurd_of e = cc

  -- If the host keeps the files that are written: a timeout above zero that was written with
  -- success is the timeout that is read.
  pub get_timeout_value-set_timeout_value :
      (n : ℕ) (w : World P.host.State)
      → 0 < n
      → (set_timeout_value P (pos n) w).0 ≡ true
      → get_timeout_value P (set_timeout_value P (pos n) w).1 ≡ pos n
  unfolding set_timeout_value get_timeout_value
  get_timeout_value-set_timeout_value n w h ok = rw (positive n h) (
      rw
        (read-write_sysconf_file (codes "timeout") (show_ℤ (pos n)) w (number-IsValue n)
          (rw (positive n h) at ok))
        (timeout_of_value-show n h))

  -- If the host lets go of the files that are removed: once a timeout that is not above zero was set
  -- with success, the timeout that is read is -1.
  get_timeout_value-set_timeout_value_none :
      (z : ℤ) (w : World P.host.State)
      → ltb_ℤ (pos 0) z ≡ false
      → (set_timeout_value P z w).0 ≡ true
      → get_timeout_value P (set_timeout_value P z w).1 ≡ negsuc 0
  unfolding set_timeout_value get_timeout_value
  get_timeout_value-set_timeout_value_none z w h ok = rw h (
      rw (read-remove_sysconf_file (codes "timeout") w (rw h at ok))
        (unfold timeout_of_value in refl))

  -- If the host keeps the files that are written: a console mode of one line, with no NUL, that was
  -- written with success is the mode that is read.
  pub get_console_mode-set_console_mode :
      (mode : Bytes) (w : World P.host.State)
      → IsValue mode
      → (set_console_mode P (some mode) w).0 ≡ true
      → get_console_mode P (set_console_mode P (some mode) w).1 ≡ some mode
  unfolding set_console_mode get_console_mode
  get_console_mode-set_console_mode mode w v ok =
      read-write_sysconf_file (codes "console_mode") mode w v ok
