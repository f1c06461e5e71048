-- ===== src/DirtyMap/Drain.antt =====
-- `DirtyMap` of server/src/Session.h as a set of marks.
use mo_belt.Prelude.{
  ℕ, zero, suc, ◌+◌, ◌-◌, ◌*◌, ◌/◌, ◌%◌, ◌^◌, ◌<◌, ◌≤◌, ◌≡◌, ◌≢◌, ◌∙◌, refl, sym, ap, arith,
  if◌then◌else◌, ◌==◌, ltb, leb, Bool, true, false, ◌&&◌, ◌||◌, Bool-cases, if_cases, inl, inr,
  for_below, update, update_cases, update_self, update_ne,
}
use native.Mathlib.Decide.{ℕ_discrete}
use mo_belt.DirtyMap.{DirtyMap, bit_or, mark_bit, scan, drain_word, drain}
use mo_belt.DirtyMap.Bits.{bit, bit-zero, bit-mark, bit_or-lt}
use mo_belt.DirtyMap.Scan.{scan_lem}

-- Every word is one of 64 bits.
unfoldable pub WordsOk : DirtyMap → Type 0
WordsOk m = (k : ℕ) → m.words k < 2 ^ 64

-- Whether session `i` is marked for a worker.
unfoldable pub marked : ℕ → ℕ → DirtyMap → Bool
marked worker i m = bit (i % 64) (m.words (worker * m.stride + i / 64))

-- Places in a table of rows are told apart by row and column.
row_col : (n w v a b : ℕ) → a < n → b < n → w * n + a ≡ v * n + b → (w ≡ v) × (a ≡ b)
row_col n zero zero a b la lb e = (refl, omega arith)
row_col n zero (suc v) a b la lb e = absurd omega arith
row_col n (suc w) zero a b la lb e = absurd omega arith
row_col n (suc w) (suc v) a b la lb e =
    let x = row_col n w v a b la lb (omega arith) in (ap suc x.0, x.1)

module _ {ℓ} {S : Type ℓ} where
  pub for_below-add :
      (n k : ℕ) (body : ℕ → S → S) (s : S)
      → for_below (n + k) body s ≡ for_below k (λ j. body (n + j)) (for_below n body s)
  for_below-add n zero body s = ap (λ x. for_below x body s) (omega arith)
  for_below-add n (suc k) body s =
      let next : n + suc k ≡ suc (n + k) = omega arith in
      ap (λ x. for_below x body s) next ∙ ap (body (n + k)) (for_below-add n k body s)

  pub for_below_congr :
      (n : ℕ) (b c : ℕ → S → S) (s : S)
      → ((j : ℕ) (t : S) → j < n → b j t ≡ c j t)
      → for_below n b s ≡ for_below n c s
  for_below_congr zero b c s h = refl
  for_below_congr (suc n) b c s h =
      ap (b n) (for_below_congr n b c s (λ j t lt. h j t (omega arith)))
      ∙ h n (for_below n c s) (omega arith)

or_false : (b : Bool) → b ≡ (b || false)
or_false true = refl
or_false false = refl

-- Marking a session marks it for that worker, and changes no other mark.
pub marked-mark_bit :
    (worker sess_idx w i : ℕ) (m : DirtyMap)
    → sess_idx < m.stride * 64
    → i < m.stride * 64
    → marked w i (mark_bit worker sess_idx m) ≡ (marked w i m || (worker == w && sess_idx == i))
unfolding marked mark_bit
marked-mark_bit worker sess_idx w i m lt lt' =
    let at = worker * m.stride + sess_idx / 64 in
    let to = w * m.stride + i / 64 in
    let new = bit_or 64 (m.words at) (2 ^ (sess_idx % 64)) in
    elim (ℕ_discrete to at) [
      | yes e ↦
          let x =
            row_col m.stride w worker (i / 64) (sess_idx / 64) (omega arith) (omega arith) e in
          ap (λ k. bit (i % 64) (update m.words at new k)) e
          ∙ ap (bit (i % 64)) (update_self m.words at new)
          ∙ bit-mark 64 (sess_idx % 64) (i % 64) (m.words at) (omega arith)
          ∙ ap (λ k. bit (i % 64) (m.words k) || sess_idx % 64 == i % 64) (sym e)
          ∙ ap (λ b. bit (i % 64) (m.words to) || b) (ground (arith, x.0, x.1))
      | no ne ↦
          ap (bit (i % 64)) (update_ne m.words at new to ne)
          ∙ (let differ : (worker == w && sess_idx == i) ≡ false =
                elim (Bool-cases (worker == w && sess_idx == i)) [
                  | inl same ↦
                      let p : w ≡ worker = ground (arith, same) in
                      let q : i ≡ sess_idx = ground (arith, same) in
                      absurd (
                        ne (
                          ap (λ k. k * m.stride + i / 64) p
                          ∙ ap (λ k. worker * m.stride + k / 64) q))
                  | inr n ↦ n
                ] in
              or_false _ ∙ ap (λ b. bit (i % 64) (m.words to) || b) (sym differ))
    ]

module _ {ℓ} {S : Type ℓ} (worker : ℕ) (fn : ℕ → S → S) (m : DirtyMap) (ok : WordsOk m) where
  -- What is done for session `i`.
  abbrev visit : ℕ → S → S
  visit i t = if marked worker i m then fn i t else t

  abbrev base : ℕ
  base = worker * m.stride

  -- After `k` words.
  record Drained (k : ℕ) (s : S) (x : DirtyMap × S) : Type ℓ where
    stride : x.0.stride ≡ m.stride
    words : (at : ℕ) → x.0.words at ≡ (if leb base at && ltb at (base + k) then 0 else m.words at)
    visited : x.1 ≡ for_below (k * 64) visit s

  drain_word-Drained :
      (k : ℕ) (s : S) (x : DirtyMap × S)
      → Drained k s x
      → Drained (suc k) s (drain_word worker fn k x)
  unfolding drain_word marked WordsOk
  drain_word-Drained k s x h =
      let at = worker * x.0.stride + k in
      let here : at ≡ base + k = ap (λ n. worker * n + k) h.stride in
      let next : k * 64 + 64 ≡ suc k * 64 = omega arith in
      let v : x.0.words at ≡ m.words (base + k) =
        ap x.0.words here ∙ h.words (base + k) ∙ ground arith in
      record {
        stride = h.stride;
        words = λ j. ap (λ a. update x.0.words a 0 j) here ∙ elim (ℕ_discrete j (base + k)) [
          | yes e ↦ ground (arith, e)
          | no ne ↦ ground (arith, h.words j, ne)
        ];
        visited =
            ap (λ n. scan 64 64 (λ b. fn (k * 64 + b)) n x.1) v
            ∙ scan_lem 64 64 (λ b. fn (k * 64 + b)) (m.words (base + k)) x.1 (ok (base + k))
                (omega arith)
            ∙ for_below_congr 64 _ (λ j. visit (k * 64 + j)) x.1
                (λ j t lt.
                  let low : (k * 64 + j) % 64 ≡ j = omega arith in
                  let high : (k * 64 + j) / 64 ≡ k = omega arith in
                  ap (λ n. if bit n (m.words (base + k)) then fn (k * 64 + j) t else t) (sym low)
                  ∙ ap
                      (λ n.
                        if bit ((k * 64 + j) % 64) (m.words (base + n))
                        then fn (k * 64 + j) t
                        else t)
                      (sym high))
            ∙ ap (for_below 64 (λ j. visit (k * 64 + j))) h.visited
            ∙ sym (for_below-add (k * 64) 64 visit s)
            ∙ ap (λ n. for_below n visit s) next;
      }

  -- The words of another worker are not among those of this one.
  outside :
      (w i : ℕ)
      → w ≢ worker
      → i < m.stride * 64
      → let at = w * m.stride + i / 64 in
        (if leb base at && ltb at (base + m.stride) then 0 else m.words at) ≡ m.words at
  outside w i ne lt =
      let at = w * m.stride + i / 64 in
      if_cases (λ v. v ≡ m.words at) (leb base at && ltb at (base + m.stride)) 0 (m.words at)
        (λ e.
          let low : base ≤ at = ground (arith, e) in
          let high : at < base + m.stride = ground (arith, e) in
          absurd (
            ne
              (row_col m.stride w worker (i / 64) (at - base) (omega arith)
                (omega (arith, low, high)) (omega (arith, low))).0))
        (λ e. refl)

  drain-Drained : (n : ℕ) (s : S) → Drained n s (for_below n (drain_word worker fn) (m, s))
  drain-Drained zero s = record { stride = refl; words = λ at. ground arith; visited = refl }
  drain-Drained (suc n) s = drain_word-Drained n s _ (drain-Drained n s)

  -- `Drain` does for every session that is marked for the worker, from the lowest number up, what it
  -- is to do; then none is marked for it, and the marks of another worker are as before.
  pub drain_lem :
      (s : S)
      → let (n, t) = drain worker fn m s in
        (t ≡ for_below (m.stride * 64) (λ i t. if marked worker i m then fn i t else t) s)
        × ((i : ℕ) → i < m.stride * 64 → marked worker i n ≡ false)
        × ((w i : ℕ) → w ≢ worker → i < m.stride * 64 → marked w i n ≡ marked w i m)
  unfolding drain marked
  drain_lem s =
      let x = for_below m.stride (drain_word worker fn) (m, s) in
      let h = drain-Drained m.stride s in
      (
        h.visited,
        λ i lt.
            ap (λ k. bit (i % 64) (x.0.words (worker * k + i / 64))) h.stride
            ∙ ap (bit (i % 64)) (h.words (base + i / 64) ∙ ground arith)
            ∙ bit-zero (i % 64),
        λ w i ne lt.
            ap (λ k. bit (i % 64) (x.0.words (w * k + i / 64))) h.stride
            ∙ ap (bit (i % 64)) (h.words (w * m.stride + i / 64) ∙ outside w i ne lt),
      )

-- After `Mark` every word is still one of 64 bits.
pub mark_bit-WordsOk :
    (worker sess_idx : ℕ) (m : DirtyMap) → WordsOk m → WordsOk (mark_bit worker sess_idx m)
unfolding WordsOk mark_bit
mark_bit-WordsOk worker sess_idx m ok k =
    update_cases (λ v. v < 2 ^ 64) m.words (worker * m.stride + sess_idx / 64) _ k (λ ne. ok k)
      (bit_or-lt 64 _ _)
