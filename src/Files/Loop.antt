-- ===== src/Files/Loop.antt =====
-- lib/files.c: the loop of `copy_file` ends, and no fuel beyond the size changes what it does.
use clr_boot_manager.Prelude.{
  ℕ, zero, suc, ◌+◌, ◌-◌, ◌≡◌, ◌≢◌, refl, false, some, Bytes, ◌==◌, ==_iff, ◌≤◌, ◌<◌, ◌∙◌, streq,
  arith, Bool-cases, Option-cases, inl, inr,
}
use clr_boot_manager.Platform.{Host, Stat, World}
use clr_boot_manager.Monad.{◌>>=◌, call}
use clr_boot_manager.Files.{send_all, on_sent}

-- sendfile(2) moves no more than it is asked for, and one byte at least if it is asked for one that is
-- there: only at the end of the source it moves none. A source that is not the target keeps its size.
pub record IsSendfile (H : Host) : Type 0 where
  pub at_most :
      (target src : Bytes) (off count written : ℕ) (s : H.State)
      → (H.sendfile target src off count s).0 ≡ some written
      → written ≤ count
  pub moves :
      (target src : Bytes) (off count written : ℕ) (s : H.State) (st : Stat)
      → H.stat s src ≡ some st
      → off < st.size
      → (H.sendfile target src off count s).0 ≡ some written
      → count ≢ 0
      → written ≢ 0
  pub keeps_size :
      (target src : Bytes) (off count : ℕ) (s : H.State)
      → streq target src ≡ false
      → H.stat (H.sendfile target src off count s).1 src ≡ H.stat s src

module _ (H : Host) (sends : IsSendfile H) (target src : Bytes) (apart : streq target src ≡ false)
    (st : Stat) where
  -- Where the source has the bytes that are left to copy, as it has if it is not cut short meanwhile,
  -- and is not the target: with a round for each of them and one more, or with any greater fuel, the
  -- loop of `copy_file` does the same, so it ends, and not for want of fuel. `sendfile` moves a byte at
  -- least before the end of the source, and no more than it is asked for.
  pub send_all_fuel :
      (fuel more off sz : ℕ) (w : World H.State)
      → H.stat w.host src ≡ some st
      → off + sz ≤ st.size
      → sz < fuel
      → sz < more
      → send_all H fuel target src off sz w ≡ send_all H more target src off sz w
  unfolding send_all on_sent ◌>>=◌ call
  send_all_fuel zero more off sz w there fits h k = ground arith
  send_all_fuel (suc fuel) zero off sz w there fits h k = ground arith
  send_all_fuel (suc fuel) (suc more) off sz w there fits h k =
      elim (Option-cases (H.sendfile target src off sz w.host).0) [
        | inl failed ↦ rw (failed, on_sent) refl
        | inr (written, sent) ↦
            let most = sends.at_most target src off sz written w.host sent in
            let moved = λ (some_left : off < st.size).
              sends.moves target src off sz written w.host st there some_left sent in
            rw (sent, on_sent)
              (elim (Bool-cases (written == sz)) [
                | inl all ↦ rw all refl
                | inr part ↦ rw part (
                    send_all_fuel fuel more (off + written) (sz - written) _
                      (sends.keeps_size target src off sz w.host apart ∙ there) (omega arith)
                      (shorter written fuel most moved part h)
                      (shorter written more most moved part k))
              ])
      ]
    where
      shorter :
          (written n : ℕ)
          → written ≤ sz
          → (off < st.size → sz ≢ 0 → written ≢ 0)
          → (written == sz) ≡ false
          → sz < suc n
          → sz - written < n
      shorter written n most moved part h = elim (Bool-cases (sz == 0)) [
        | inl none_left ↦ grind (arith, ==_iff)
        | inr left ↦ grind (arith, ==_iff)
      ]
