-- ===== src/Files/Copy.antt =====
-- lib/files.c: a copy that succeeds holds the bytes of the source.
use clr_boot_manager.Prelude.{
  ℕ, zero, suc, ◌+◌, ◌-◌, ◌≡◌, ◌≤◌, refl, sym, ap, ◌∙◌, Bool, true, false, Option, none, some, [],
  ◌∷◌, ◌++◌, Bytes, ◌==◌, ==_iff, arith, Bool-cases, Option-cases, inl, inr, length, take, drop,
}
use clr_boot_manager.Platform.{Host, Stat, World}
use clr_boot_manager.Monad.{pure, ◌>>=◌, and_then, asks, call}
use clr_boot_manager.Files.{send_all, on_sent, send_stat, copy_file}

-- Two files at different paths: `sendfile` appends the bytes at the offset, as many as it says, to
-- its target and leaves its source, and the size of a file is that of its bytes.
pub record SendsBytes (H : Host) (target src : Bytes) : Type 0 where
  pub sent :
      (content out : Bytes) (off count written : ℕ) (s : H.State)
      → H.read s src ≡ some content
      → H.read s target ≡ some out
      → (H.sendfile target src off count s).0 ≡ some written
      → H.read (H.sendfile target src off count s).1 target
        ≡ some (out ++ take written (drop off content))
  pub bounded :
      (off count written : ℕ) (s : H.State)
      → (H.sendfile target src off count s).0 ≡ some written
      → written ≤ count
  pub source_kept :
      (off count : ℕ) (s : H.State)
      → H.read (H.sendfile target src off count s).1 src ≡ H.read s src
  pub created :
      (content : Bytes) (s : H.State)
      → H.read s src ≡ some content
      → (H.create target s).0 ≡ true
      → (H.read (H.create target s).1 target ≡ some [])
        × (H.read (H.create target s).1 src ≡ some content)
  pub size :
      (content : Bytes) (st : Stat) (s : H.State)
      → H.read s src ≡ some content
      → H.stat s src ≡ some st
      → st.size ≡ length content

zero_plus : (n : ℕ) → n ≡ 0 + n
zero_plus n = omega arith

suc_plus : (n m : ℕ) → suc (n + m) ≡ suc n + m
suc_plus n m = omega arith

take-nil : (n : ℕ) → ◌≡◌ {A = Bytes} (take n []) []
take-nil zero = refl
take-nil (suc n) = refl

take-split : (n m : ℕ) (s : Bytes) → take n s ++ take m (drop n s) ≡ take (n + m) s
take-split zero m s = ap (λ (n : ℕ). take n s) (zero_plus m)
take-split (suc n) m [] = rw (take-nil m, take-nil (suc n + m))
take-split (suc n) m (x ∷ s) =
    ap (λ (t : Bytes). x ∷ t) (take-split n m s) ∙ ap (λ (k : ℕ). take k (x ∷ s)) (suc_plus n m)

take_all : (s : Bytes) → take (length s) s ≡ s
take_all [] = refl
take_all (x ∷ s) = ap (λ (t : Bytes). x ∷ t) (take_all s)

pub absurd_of : {A : Type 0} → ◌≡◌ {A = Bool} false true → A
absurd_of e = cc

module _ (H : Host) (target src : Bytes) (lawful : SendsBytes H target src) where
  send_all-sent :
      (fuel off sz : ℕ) (content : Bytes) (w : World H.State)
      → H.read w.host src ≡ some content
      → H.read w.host target ≡ some (take off content)
      → (send_all H fuel target src off sz w).0 ≡ true
      → H.read (send_all H fuel target src off sz w).1.host target ≡ some (take (off + sz) content)
  unfolding send_all on_sent ◌>>=◌ call pure
  send_all-sent zero off sz content w has got ok = absurd_of ok
  send_all-sent (suc fuel) off sz content w has got ok =
      elim (Option-cases (H.sendfile target src off sz w.host).0) [
        | inl failed ↦ absurd_of (rw (failed, on_sent) at ok)
        | inr (written, sent) ↦
            let moved =
              lawful.sent content _ off sz written w.host has got sent
              ∙ ap (λ (t : Bytes). some t) (take-split off written content) in
            elim (Bool-cases (written == sz)) [
              | inl all ↦ rw (sent, on_sent, all) (moved ∙ rw ((==_iff written sz).0 all))
              | inr part ↦
                  rw (sent, on_sent, part)
                    (send_all-sent fuel (off + written) (sz - written) content _
                        (lawful.source_kept off sz w.host ∙ has) moved
                        (rw (sent, on_sent, part) at ok)
                      ∙ rw (whole written (lawful.bounded off sz written w.host sent)))
            ]
      ]
    where
      whole : (written : ℕ) → written ≤ sz → off + written + (sz - written) ≡ off + sz
      whole written l = omega arith

  send_stat-sent :
      (content : Bytes) (r : Option Stat) (w : World H.State)
      → H.stat w.host src ≡ r
      → H.read w.host src ≡ some content
      → H.read w.host target ≡ some []
      → (send_stat H src target r w).0 ≡ true
      → H.read (send_stat H src target r w).1.host target ≡ some content
  unfolding send_stat pure
  send_stat-sent content none w found has got ok = absurd_of ok
  send_stat-sent content (some st) w found has got ok =
      send_all-sent (suc st.size) 0 st.size content w has got ok
      ∙ ap (λ (t : Bytes). some t)
          (ap (λ (n : ℕ). take n content)
              (sym (zero_plus st.size) ∙ lawful.size content st w.host has found)
            ∙ take_all content)

  -- Where the copy of a file to another path succeeds, the target holds the bytes of the source.
  pub copy_file-copies :
      (content : Bytes) (w : World H.State)
      → H.read w.host src ≡ some content
      → (copy_file H src target w).0 ≡ true
      → H.read (copy_file H src target w).1.host target ≡ some content
  unfolding copy_file ◌>>=◌ and_then asks call pure
  copy_file-copies content w has ok = elim (Bool-cases (H.create target w.host).0) [
    | inl made ↦
        let fresh = lawful.created content w.host has made in
        rw (has, made) (send_stat-sent content _ _ refl fresh.1 fresh.0 (rw (has, made) at ok))
    | inr failed ↦ absurd_of (rw (has, failed) at ok)
  ]
