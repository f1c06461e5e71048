-- ===== src/Dummy/Gate/Percentile.antt =====
-- `p99Of` of the load generator (dummy/dummy_main.cpp), on the histogram of a list of samples.
use mo_belt.Prelude.{
  ℕ, zero, suc, ◌+◌, ◌*◌, ◌/◌, ◌<◌, ◌≤◌, ◌≡◌, ◌∙◌, refl, ap, arith, Bool-cases, inl, inr, if_cases,
  if◌then◌else◌, ltb, leb, ◌==◌, to_ℕ, none, some, List, [], ◌∷◌, length, count_by, sum_below,
  sum_below_none, update, Bool, true, false,
}
use mathlib.Core.Path.{subst}
use mo_belt.Metrics.Histogram.{sum_below-one}
use mo_belt.Dummy.{rtt_bucket, rtt_bounds}
use mo_belt.Dummy.Gate.{seek_p99, p99_of}

-- A histogram after some samples: each is counted in the bucket of the first bound that it does not
-- pass, as `RecordOversleep`-like loops of the load generator do.
abbrev pub histogram : List ℕ → List ℕ → ℕ → ℕ
histogram bounds [] = λ b. 0
histogram bounds (us ∷ l) =
    let h = histogram bounds l in let b = rtt_bucket us bounds in update h b (h b + 1)

abbrev AllAbove : ℕ → List ℕ → Type 0
AllAbove n [] = Unit
AllAbove n (e ∷ es) = (n ≤ e) × AllAbove e es

-- The bound of bucket `b`.
abbrev bound_at : ℕ → List ℕ → ℕ
bound_at b [] = 0
bound_at zero (e ∷ es) = e
bound_at (suc b) (e ∷ es) = bound_at b es

bound_at-le : (n b : ℕ) (es : List ℕ) → AllAbove n es → b < length es → n ≤ bound_at b es
bound_at-le n b [] h lt = absurd omega (arith, lt)
bound_at-le n zero (e ∷ es) h lt = h.0
bound_at-le n (suc b) (e ∷ es) h lt = omega (arith, h.0, bound_at-le e b es h.1 (omega (arith, lt)))

rtt_bucket-leb :
    (us n b : ℕ) (es : List ℕ)
    → AllAbove n es
    → b < length es
    → leb (rtt_bucket us es) b ≡ leb us (bound_at b es)
unfolding rtt_bucket
rtt_bucket-leb us n b [] h lt = absurd omega (arith, lt)
rtt_bucket-leb us n zero (e ∷ es) h lt = ground arith
rtt_bucket-leb us n (suc b) (e ∷ es) h lt = elim (Bool-cases (ltb e us)) [
  | inl more ↦ rw more (ground (arith, rtt_bucket-leb us e b es h.1 (omega (arith, lt))))
  | inr here ↦ rw here (ground (arith, here, bound_at-le e b es h.1 (omega (arith, lt))))
]

le-rtt_bucket : (us : ℕ) (es : List ℕ) → rtt_bucket us es ≤ length es
unfolding rtt_bucket
le-rtt_bucket us [] = omega arith
le-rtt_bucket us (e ∷ es) =
    if_cases (λ b. b ≤ length (e ∷ es)) (ltb e us) _ _ (λ z. omega (arith, le-rtt_bucket us es))
      (λ z. omega arith)

module _ (bounds : List ℕ) (n : ℕ) (rising : AllAbove n bounds) where
  -- The first buckets hold the samples that keep the last of their bounds.
  sum_below-histogram :
      (b : ℕ) (l : List ℕ)
      → b < length bounds
      → sum_below (b + 1) (histogram bounds l) ≡ count_by (λ us. leb us (bound_at b bounds)) l
  sum_below-histogram b [] lt = sum_below_none (b + 1) (λ i. 0) (λ i le. refl)
  sum_below-histogram b (us ∷ l) lt =
      sum_below-one (rtt_bucket us bounds) b (histogram bounds l)
      ∙ omega (arith, sum_below-histogram b l lt, ap to_ℕ (rtt_bucket-leb us n b bounds rising lt))

  sum_below-all : (l : List ℕ) → sum_below (length bounds + 1) (histogram bounds l) ≡ length l
  sum_below-all [] = sum_below_none (length bounds + 1) (λ i. 0) (λ i le. refl)
  sum_below-all (us ∷ l) =
      let fits : leb (rtt_bucket us bounds) (length bounds) ≡ true =
        ground (arith, le-rtt_bucket us bounds) in
      sum_below-one (rtt_bucket us bounds) (length bounds) (histogram bounds l)
      ∙ omega (arith, sum_below-all l, ap to_ℕ fits)

-- Where the search stops: at a bucket whose bound is the result, when enough are counted.
abbrev Found : (target : ℕ) → List ℕ → (b e : ℕ) → (ℕ → ℕ) → Type 0
Found target es b e buckets =
    (k : ℕ) × (k < length es) × (bound_at k es ≡ e) × (target ≤ sum_below (b + k + 1) buckets)

seek_p99-Found :
    (target : ℕ) (es : List ℕ) (b cum e : ℕ) (buckets : ℕ → ℕ)
    → cum ≡ sum_below b buckets
    → seek_p99 target es b cum buckets ≡ some e
    → Found target es b e buckets
unfolding seek_p99
seek_p99-Found target [] b cum e buckets same found = absurd cc
seek_p99-Found target (x ∷ es) b cum e buckets same found =
    stops (λ f. seek_p99-Found target es (b + 1) here e buckets next f) (leb target here) refl found
  where
    here : ℕ
    here = cum + buckets b

    next : here ≡ sum_below (b + 1) buckets
    next = ground (arith, same)

    stops :
        (seek_p99 target es (b + 1) here buckets ≡ some e → Found target es (b + 1) e buckets)
        → (enough : Bool) → leb target here ≡ enough
        → (if enough then some x else seek_p99 target es (b + 1) here buckets) ≡ some e
        → Found target (x ∷ es) b e buckets
    stops later true z found = (0, omega arith, cc found, ground (arith, z, next))
    stops later false z found =
        let (k, lt, at, le) = later found in
        (suc k, omega (arith, lt), at, subst (λ n. target ≤ sum_below n buckets) (omega arith) le)

rising_bounds : AllAbove 0 rtt_bounds
rising_bounds = ground arith

-- If `p99Of` names a bound for the samples in a histogram with the bounds of the load generator, at least
-- 99 of 100 samples keep that bound.
pub p99_of-most :
    (l : List ℕ) (e : ℕ)
    → p99_of (histogram rtt_bounds l) rtt_bounds ≡ some e
    → 99 * length l ≤ 100 * count_by (λ us. leb us e) l
unfolding p99_of
p99_of-most l e found =
    let h = histogram rtt_bounds l in
    let total = sum_below 10 h in
    let all : total ≡ length l = sum_below-all rtt_bounds 0 rising_bounds l in
    let searched = seek_p99 ((total * 99 + 99) / 100) rtt_bounds 0 0 h in
    if_cases (λ x. x ≡ some e → 99 * length l ≤ 100 * count_by (λ us. leb us e) l) (total == 0) none
      searched (λ z f. absurd cc)
      (λ z f.
        let (k, lt, at, le) = seek_p99-Found ((total * 99 + 99) / 100) rtt_bounds 0 0 e h refl f in
        let within = sum_below-histogram rtt_bounds 0 rising_bounds k l lt in
        let same : count_by (λ us. leb us (bound_at k rtt_bounds)) l ≡ count_by (λ us. leb us e) l =
          ap (λ x. count_by (λ us. leb us x) l) at in
        let shift : sum_below (0 + k + 1) h ≡ sum_below (k + 1) h =
          ap (λ n. sum_below n h) (omega arith) in
        omega (arith, le, shift, within, same, all))
      found
