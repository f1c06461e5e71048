-- ===== src/DirtyMap/Scan.antt =====
-- The inner loop of `Drain` (server/src/Session.h) over the bits of a word.
use mo_belt.Prelude.{
  ℕ, zero, suc, ◌-◌, ◌*◌, ◌/◌, ◌%◌, ◌^◌, ◌<◌, ◌≤◌, ◌≡◌, ◌∙◌, refl, sym, ap, arith, if◌then◌else◌,
  ◌==◌, Bool, true, false, Bool-cases, inl, inr, if_else_congr, for_below,
}
use native.Mathlib.Nat.{pow-suc}
use mo_belt.DirtyMap.{bit_and, ctz, scan}
use mo_belt.DirtyMap.Bits.{bit, bit_and_self}

module _ {ℓ} {S : Type ℓ} where
  -- A loop, its first round apart.
  for_below-front :
      (n : ℕ) (body : ℕ → S → S) (s : S)
      → for_below (suc n) body s ≡ for_below n (λ i. body (suc i)) (body 0 s)
  for_below-front zero body s = refl
  for_below-front (suc n) body s = ap (body (suc n)) (for_below-front n body s)

  -- Without the lowest bit, which is not set.
  scan-even :
      (n f : ℕ) (fn : ℕ → S → S) (u : ℕ) (s : S)
      → scan (suc n) f fn (2 * u) s ≡ scan n f (λ j. fn (suc j)) u s
  unfolding scan ctz bit_and
  scan-even n zero fn u s = refl
  scan-even n (suc f) fn u s =
      let half : 2 * u / 2 ≡ u = omega arith in
      let test : (2 * u == 0) ≡ (u == 0) = ground arith in
      let low : ctz (suc n) (2 * u) ≡ suc (ctz n u) = ground (arith, ap (ctz n) half) in
      let Then : Bool → S → S = λ b t. if b then s else t in
      ap
        (λ b.
          Then b
            (scan (suc n) f fn (bit_and (suc n) (2 * u) (2 * u - 1)) (fn (ctz (suc n) (2 * u)) s)))
        test
      ∙ if_else_congr (u == 0) s _ _ (λ ne.
        let down : (2 * u - 1) / 2 ≡ u - 1 = ground (arith, ne) in
        let rest : bit_and (suc n) (2 * u) (2 * u - 1) ≡ 2 * bit_and n u (u - 1) =
          ground (arith, ap (λ k. bit_and n k ((2 * u - 1) / 2)) half, ap (bit_and n u) down) in
        ap (λ k. scan (suc n) f fn k (fn (ctz (suc n) (2 * u)) s)) rest
        ∙ ap (λ k. scan (suc n) f fn (2 * bit_and n u (u - 1)) (fn k s)) low
        ∙ scan-even n f fn (bit_and n u (u - 1)) (fn (suc (ctz n u)) s))

  -- With a round for each bit, the loop does for each bit that is set, from the lowest up, what it is
  -- to do.
  pub scan_lem :
      (n f : ℕ) (fn : ℕ → S → S) (v : ℕ) (s : S)
      → v < 2 ^ n
      → n ≤ f
      → scan n f fn v s ≡ for_below n (λ j t. if bit j v then fn j t else t) s
  unfolding scan ctz bit_and
  scan_lem zero zero fn v s lt le = refl
  scan_lem zero (suc f) fn v s lt le = let nil : (v == 0) ≡ true = ground (arith, lt) in rw nil refl
  scan_lem (suc n) zero fn v s lt le = absurd omega arith
  scan_lem (suc n) (suc f) fn v s lt le =
      let u = v / 2 in
      let small : u < 2 ^ n = omega (arith, pow-suc 2 n) in
      let Body : ℕ → S → S = λ j t. if bit j v then fn j t else t in
      elim (Bool-cases (v % 2 == 1)) [
        | inl odd ↦
            let some_left : (v == 0) ≡ false = ground (arith, odd) in
            let low : ctz (suc n) v ≡ 0 = ground (arith, odd) in
            let down : (v - 1) / 2 ≡ u = ground (arith, odd) in
            let rest : bit_and (suc n) v (v - 1) ≡ 2 * u =
              ground (arith, odd, ap (bit_and n u) down, bit_and_self n u small) in
            let now : Body 0 s ≡ fn 0 s = ap (λ b. if b then fn 0 s else s) odd in
            ap
              (λ b.
                if b
                then s
                else scan (suc n) f fn (bit_and (suc n) v (v - 1)) (fn (ctz (suc n) v) s))
              some_left
            ∙ ap (λ k. scan (suc n) f fn k (fn (ctz (suc n) v) s)) rest
            ∙ ap (λ k. scan (suc n) f fn (2 * u) (fn k s)) low
            ∙ scan-even n f fn u (fn 0 s)
            ∙ scan_lem n f (λ j. fn (suc j)) u (fn 0 s) small (omega arith)
            ∙ ap (for_below n (λ j. Body (suc j))) (sym now)
            ∙ sym (for_below-front n Body s)
        | inr even ↦
            let twice : v ≡ 2 * u = ground (arith, even) in
            let now : Body 0 s ≡ s = ap (λ b. if b then fn 0 s else s) even in
            ap (λ k. scan (suc n) (suc f) fn k s) twice
            ∙ scan-even n (suc f) fn u s
            ∙ scan_lem n (suc f) (λ j. fn (suc j)) u s small (omega arith)
            ∙ ap (for_below n (λ j. Body (suc j))) (sym now)
            ∙ sym (for_below-front n Body s)
      ]
