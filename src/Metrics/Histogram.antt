-- ===== src/Metrics/Histogram.antt =====
-- The buckets that `BuildText` (server/src/Metrics.cpp) shows, against the delays that
-- `RecordOversleep` was told.
use mo_belt.Prelude.{
  ℕ, zero, suc, ◌+◌, ◌-◌, ◌/◌, ◌<◌, ◌≤◌, ◌≡◌, ◌∙◌, refl, ap, arith, leb, ltb, to_ℕ, if◌then◌else◌,
  none, some, List, [], ◌∷◌, length, count_by, sum_below, sum_below-update, sum_below_congr,
  sum_below_none, update_ne, Bool-cases, inl, inr, update, sym,
}
use mo_belt.GameWorker.{Stats, bucket_us, seek_bucket, record_oversleep, oversleep_buckets}
use mo_belt.GameWorker.Pacing.{record_oversleep-bucket}
use mo_belt.Metrics.Text.{Row, bucket, bucket_rows}

bucket_us_mono : (a b : ℕ) → a ≤ b → bucket_us a ≤ bucket_us b
unfolding bucket_us
bucket_us_mono a b le = ground arith

-- The bucket of a delay is among the first ones up to `b` if the delay does not exceed the bound of `b`.
seek_bucket-leb : (us b : ℕ) → b < 8 → leb (seek_bucket 8 us 0) b ≡ leb us (bucket_us b)
seek_bucket-leb us b lt =
    let c = seek_bucket 8 us 0 in
    ground (arith, record_oversleep-bucket us, bucket_us_mono c b, bucket_us_mono b (c - 1), lt)

-- `GameWorkerStats` at the start, and after some wakes, the last one first, that were `delays`
-- nanoseconds late.
abbrev pub no_stats : Stats
no_stats = record {
  ticks = 0;
  wakes = 0;
  skipped_ticks = 0;
  rebases = 0;
  oversleep_max = 0;
  oversleep_bucket = λ b. 0;
}

abbrev pub observed : List ℕ → Stats
observed [] = no_stats
observed (ns ∷ delays) = record_oversleep ns (observed delays)

-- How many delays stay within the bound of bucket `b`.
abbrev pub within : ℕ → List ℕ → ℕ
within b delays =
    if ltb b 8 then count_by (λ ns. leb (ns / 1000) (bucket_us b)) delays else length delays

-- One more in bucket `c` of nine raises the sum of the buckets up to `b` if `c` is among them.
pub sum_below-one :
    (c b : ℕ) (s : ℕ → ℕ)
    → sum_below (b + 1) (update s c (s c + 1)) ≡ sum_below (b + 1) s + to_ℕ (leb c b)
sum_below-one c b s = elim (Bool-cases (leb c b)) [
  | inl le ↦
      ground (arith, le, sum_below-update (λ x. x) (b + 1) s c (s c + 1) (ground (arith, le)))
  | inr gt ↦ ground (
    arith,
    gt,
    sum_below_congr (b + 1) (update s c (s c + 1)) s
        (λ i lt. update_ne s c (s c + 1) i (λ e. ground (arith, gt, lt, e))),
  )
]

-- Whether a delay falls into the first buckets, up to `b`.
filed :
    (us b : ℕ)
    → b < 9
    → to_ℕ (leb (seek_bucket 8 us 0) b) ≡ (if ltb b 8 then to_ℕ (leb us (bucket_us b)) else 1)
filed us b lt = elim (Bool-cases (ltb b 8)) [
  | inl below ↦ rw below (ap to_ℕ (seek_bucket-leb us b (ground (arith, below))))
  | inr last ↦ rw last (ground (arith, record_oversleep-bucket us, last))
]

within-cons :
    (ns b : ℕ) (delays : List ℕ)
    → within b (ns ∷ delays)
      ≡ within b delays + (if ltb b 8 then to_ℕ (leb (ns / 1000) (bucket_us b)) else 1)
within-cons ns b delays = elim (Bool-cases (ltb b 8)) [
  | inl below ↦ rw below omega arith
  | inr last ↦ rw last omega arith
]

sum_below-observed :
    (b : ℕ) (delays : List ℕ)
    → b < 9
    → sum_below (b + 1) (observed delays).oversleep_bucket ≡ within b delays
unfolding record_oversleep
sum_below-observed b [] lt = ground (arith, sum_below_none (b + 1) (λ i. 0) (λ i le. refl))
sum_below-observed b (ns ∷ delays) lt =
    let us = ns / 1000 in
    let c = seek_bucket 8 us 0 in
    sum_below-one c b (observed delays).oversleep_bucket
    ∙ omega (arith, sum_below-observed b delays lt, filed us b lt, within-cons ns b delays)

-- The rows that the delays call for, from bucket `b` on.
abbrev pub delay_rows : ℕ → List ℕ → (n b : ℕ) → List Row
delay_rows w delays zero b = []
delay_rows w delays (suc n) b =
    bucket w (if ltb b 8 then some (bucket_us b) else none) (within b delays)
    ∷ delay_rows w delays n (b + 1)

bucket_rows-from :
    (w : ℕ) (delays : List ℕ) (n b : ℕ)
    → n + b ≤ 9
    → bucket_rows w (observed delays) n b (sum_below b (observed delays).oversleep_bucket)
      ≡ delay_rows w delays n b
unfolding bucket_rows
bucket_rows-from w delays zero b le = refl
bucket_rows-from w delays (suc n) b le =
    let s = (observed delays).oversleep_bucket in
    let here : sum_below b s + s b ≡ within b delays =
      ground (arith, sum_below-observed b delays (omega (arith, le))) in
    let next : sum_below (b + 1) s ≡ sum_below b s + s b = ground arith in
    let bound = if ltb b 8 then some (bucket_us b) else none in
    ap (λ cum. bucket w bound (sum_below b s + s b) ∷ bucket_rows w (observed delays) n (b + 1) cum)
      (sym next)
    ∙ ap (λ l. bucket w bound (sum_below b s + s b) ∷ l)
        (bucket_rows-from w delays n (b + 1) (omega (arith, le)))
    ∙ ap (λ x. bucket w bound x ∷ delay_rows w delays n (b + 1)) here

-- The nine bucket rows of a worker say of its delays what their labels promise: the row with the bound
-- `le` has the number of wakes that were at most that many microseconds late, and the last row, `+Inf`,
-- has the number of all wakes.
pub bucket_rows-delay_rows :
    (w : ℕ) (delays : List ℕ)
    → bucket_rows w (observed delays) oversleep_buckets 0 0
      ≡ delay_rows w delays oversleep_buckets 0
bucket_rows-delay_rows w delays = bucket_rows-from w delays 9 0 (omega arith)
