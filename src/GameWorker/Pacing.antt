-- ===== src/GameWorker/Pacing.antt =====
-- `Loop` of server/src/GameWorker.cpp, its ticks and its clock, and the buckets of
-- `RecordOversleep`.
use mo_belt.Prelude.{
  ℕ, zero, suc, ◌+◌, ◌-◌, ◌*◌, ◌<◌, ◌≤◌, ◌≡◌, ◌⊎◌, inl, inr, refl, arith, Bool-cases, leb, ltb,
  ◌&&◌, if◌then◌else◌,
}
use mo_belt.GameWorker.{
  tick_period, max_catchup_steps, bucket_us, seek_bucket, record_oversleep, Worker, one_step,
  catch_up, rebase, wake,
}

-- The bucket that is found is the first whose bound is not exceeded, or the last one.
seek_bucket_lem :
    (n us b : ℕ)
    → let c = seek_bucket n us b in
      (b ≤ c)
      × (c ≤ b + n)
      × ((c ≡ b) ⊎ (bucket_us (c - 1) < us))
      × ((c ≡ b + n) ⊎ (us ≤ bucket_us c))
unfolding seek_bucket
seek_bucket_lem zero us b = ground arith
seek_bucket_lem (suc n) us b = elim (Bool-cases (ltb (bucket_us b) us)) [
  | inl more ↦ rw more (ground (arith, more, seek_bucket_lem n us (b + 1)))
  | inr here ↦ rw here (ground (arith, here))
]

-- A delay of `us` microseconds is filed under one of nine buckets: above the bound of the bucket
-- before, and not above the bucket's own unless it is the last.
pub record_oversleep-bucket :
    (us : ℕ)
    → let b = seek_bucket 8 us 0 in
      (b ≤ 8) × ((b ≡ 0) ⊎ (bucket_us (b - 1) < us)) × ((b ≡ 8) ⊎ (us ≤ bucket_us b))
record_oversleep-bucket us = ground (arith, seek_bucket_lem 8 us 0)

module _ {ℓ} {S : Type ℓ} where
  -- What some rounds of the do-while loop do to the clock and the counters.
  record Caught (now : ℕ) (w v : Worker S) : Type 0 where
    least : w.steps + 1 ≤ v.steps
    most : v.steps ≤ 3
    clock : v.next + tick_period * w.steps ≡ w.next + tick_period * v.steps
    ticks : v.stats.ticks + w.steps ≡ w.stats.ticks + v.steps
    skipped : v.stats.skipped_ticks ≡ w.stats.skipped_ticks
    ended : (now < v.next) ⊎ (v.steps ≡ 3)

  one_more :
      (now : ℕ) (w u v : Worker S)
      → u.steps ≡ w.steps + 1
      → u.next ≡ w.next + tick_period
      → u.stats.ticks ≡ w.stats.ticks + 1
      → u.stats.skipped_ticks ≡ w.stats.skipped_ticks
      → Caught now u v
      → Caught now w v
  one_more now w u v steps next ticks skipped h = record {
    least = omega (arith, h.least);
    most = h.most;
    clock = omega (arith, h.clock);
    ticks = omega (arith, h.ticks);
    skipped = omega (arith, h.skipped);
    ended = h.ended;
  }

module _ {ℓ} {S : Type ℓ} (tick_once : S → S) where
  -- The loop leaves off early only when it is on time; the fuel is never what ends it.
  catch_up-Caught :
      (n now : ℕ) (w : Worker S)
      → n + w.steps ≡ 3
      → 1 ≤ n
      → Caught now w (catch_up tick_once n now w)
  unfolding catch_up one_step
  catch_up-Caught zero now w e le = elim le [ ]
  catch_up-Caught (suc n) now w e le =
      let u = one_step tick_once w in
      elim (Bool-cases (leb u.next now && ltb u.steps max_catchup_steps)) [
        | inl more ↦ rw more (
            one_more now w u (catch_up tick_once n now u) refl refl refl refl
              (catch_up-Caught n now u (omega arith) (ground (arith, more))))
        | inr done ↦ rw done (record {
          least = omega arith;
          most = omega arith;
          clock = omega arith;
          ticks = omega arith;
          skipped = refl;
          ended = ground (arith, done);
        })
      ]

  -- The clock after a wake at `now`, and what the wake counted.
  pub record Paced (now : ℕ) (w v : Worker S) : Type 0 where
    pub least : 1 ≤ v.steps
    pub most : v.steps ≤ 3
    pub ticks : v.stats.ticks ≡ w.stats.ticks + v.steps
    pub ahead : now < v.next
    pub lower :
        w.next + tick_period * (v.steps + v.stats.skipped_ticks)
        ≤ v.next + tick_period * w.stats.skipped_ticks
    pub upper :
        v.next + tick_period * w.stats.skipped_ticks
        < w.next + tick_period * (v.steps + v.stats.skipped_ticks + 1)

  rebase-Paced :
      (now : ℕ) (w v : Worker S)
      → w.steps ≡ 0
      → Caught now w v
      → Paced now w (rebase tick_once now v)
  unfolding rebase
  rebase-Paced now w v e h = elim (Bool-cases (leb v.next now)) [
    | inl late ↦
        let le : v.next ≤ now = ground (arith, late) in
        rw late (record {
          least = omega (arith, h.least);
          most = h.most;
          ticks = omega (arith, h.ticks);
          ahead = omega arith;
          lower = omega (arith, h.clock, h.skipped, le);
          upper = omega (arith, h.clock, h.skipped, le);
        })
    | inr good ↦ rw good (record {
      least = omega (arith, h.least);
      most = h.most;
      ticks = omega (arith, h.ticks);
      ahead = ground (arith, good);
      lower = omega (arith, h.clock, h.skipped);
      upper = omega (arith, h.clock, h.skipped);
    })
  ]

  -- One wake, however late: one, two or three ticks, the next one in the future; and up to less than
  -- one period every period since the last wake was either ticked or counted as skipped.
  pub wake-Paced : (now : ℕ) (w : Worker S) → Paced now w (wake tick_once now w)
  unfolding wake record_oversleep
  wake-Paced now w =
      let g = record_oversleep (if ltb w.next now then now - w.next else 0) w.stats in
      let start = record w { steps = 0; stats = g } in
      let h =
        rebase-Paced now start (catch_up tick_once 3 now start) refl
          (catch_up-Caught 3 now start refl (omega arith)) in
      record {
        least = h.least;
        most = h.most;
        ticks = h.ticks;
        ahead = h.ahead;
        lower = h.lower;
        upper = h.upper;
      }
