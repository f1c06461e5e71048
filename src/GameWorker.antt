-- ===== src/GameWorker.antt =====
-- server/src/GameWorker.cpp: the thread that owns rooms and ticks them 60 times a second. Times are
-- nanoseconds of CLOCK_MONOTONIC, which are not negative and stay far below 2^63.
pub mod Pacing
pub mod Rooms
pub mod Sockets
pub mod Enough
pub mod Phases
use mo_belt.Prelude.{
  ℕ, zero, suc, ◌+◌, ◌-◌, ◌*◌, ◌/◌, ◌%◌, ◌&&◌, if◌then◌else◌, ltb, leb, ◌==◌, Bool, true, false,
  not, ◌||◌, ◌^◌, Option, none, some, List, [], ◌∷◌, ◌++◌, length, update,
}
use mo_belt.Double.{Fpu}
use mo_belt.RingBuffer.{Ring}
use mo_belt.RoomManager.{Server}
use mo_belt.RoomManager.Queues.{process_room_queues}
use mo_belt.RoomManager.Tick.{room_tick}

-- `kTickPeriodNs`, `kMaxCatchupSteps`, `kOversleepBuckets`.
abbrev pub tick_period : ℕ
tick_period = 16666666

abbrev pub max_catchup_steps : ℕ
max_catchup_steps = 3

abbrev pub oversleep_buckets : ℕ
oversleep_buckets = 9

-- `kOversleepBucketUs`.
unfoldable pub bucket_us : ℕ → ℕ
bucket_us b =
    if b == 0
    then 50
    else if b == 1
    then 100
    else if b == 2
    then 200
    else if b == 3
    then 500
    else if b == 4
    then 1000
    else if b == 5
    then 2000
    else if b == 6
    then 5000
    else 10000

-- `GameWorkerStats`.
pub record Stats : Type 0 where
  pub ticks : ℕ
  pub wakes : ℕ
  pub skipped_ticks : ℕ
  pub rebases : ℕ
  pub oversleep_max : ℕ
  pub oversleep_bucket : ℕ → ℕ

-- The loop that looks for the bucket: from bucket `b`, `n` below the last one.
unfoldable pub seek_bucket : (n us b : ℕ) → ℕ
unfolding bucket_us
seek_bucket zero us b = b
seek_bucket (suc n) us b =
    let next = seek_bucket n us (b + 1) in if ltb (bucket_us b) us then next else b

-- `RecordOversleep`.
unfoldable pub record_oversleep : ℕ → Stats → Stats
unfolding seek_bucket
record_oversleep ns g =
    let b = seek_bucket 8 (ns / 1000) 0 in
    record g {
      wakes = g.wakes + 1;
      oversleep_max = if ltb g.oversleep_max ns then ns else g.oversleep_max;
      oversleep_bucket = update g.oversleep_bucket b (g.oversleep_bucket b + 1);
    }

-- A worker between two wakes: what its ticks act on, the time of the next tick, and the metrics.
-- `steps` counts the ticks of one wake.
pub record Worker {ℓ} (S : Type ℓ) : Type ℓ where
  pub state : S
  pub next : ℕ
  pub steps : ℕ
  pub stats : Stats

-- The phase of worker `id` of `total`: where `Loop` starts.
unfoldable pub first_tick : (t0 id total : ℕ) → ℕ
first_tick t0 id total = t0 + id * (tick_period / total)

module _ {ℓ} {S : Type ℓ} (tick_once : S → S) where
  -- The body of the do-while loop.
  unfoldable pub one_step : Worker S → Worker S
  one_step w =
      let g = w.stats in
      record {
        state = tick_once w.state;
        next = w.next + tick_period;
        steps = w.steps + 1;
        stats = record g { ticks = g.ticks + 1 };
      }

  -- The do-while loop, `fuel` rounds of it at most.
  unfoldable pub catch_up : ℕ → ℕ → Worker S → Worker S
  unfolding one_step
  catch_up zero now w = w
  catch_up (suc fuel) now w =
      let v = one_step w in
      let more = catch_up fuel now v in
      if leb v.next now && ltb v.steps max_catchup_steps then more else v

  -- What is still late after that is skipped.
  unfoldable pub rebase : ℕ → Worker S → Worker S
  rebase now w =
      let g = w.stats in
      if leb w.next now
      then record w {
        next = now + tick_period;
        stats = record g {
          skipped_ticks = g.skipped_ticks + ((now - w.next) / tick_period + 1);
          rebases = g.rebases + 1;
        };
      }
      else w

  -- One round of `Loop`, woken at `now`.
  unfoldable pub wake : ℕ → Worker S → Worker S
  unfolding record_oversleep catch_up rebase
  wake now w =
      let late = if ltb w.next now then now - w.next else 0 in
      rebase now (
        catch_up max_catchup_steps now
          (record w { steps = 0; stats = record_oversleep late w.stats }))

module _ {Buf : Type 0} where
  -- `DrainRoomAddQ`: the new rooms of a worker join its list.
  unfoldable pub drain_room_add_q : ℕ → List ℕ → Server Buf → List ℕ × Server Buf
  drain_room_add_q w my_rooms s = (
    my_rooms ++ s.rooms.mail w,
    record s { rooms = record (s.rooms) { mail = update s.rooms.mail w [] } },
  )

-- `v[i] = v.back(); v.pop_back();` where `rest` stands behind the place `i` of a vector: what stands
-- from there on afterwards.
unfoldable pub back_first : List ℕ → List ℕ
back_first [] = []
back_first (x ∷ rest) = elim (back_first rest) [ [] ↦ x ∷ [] | b ∷ front ↦ b ∷ x ∷ front ]

unfoldable pub moved_or : Option ℕ → ℕ → ℕ
moved_or none i = i
moved_or (some n) i = n

module _ (f : Fpu) {Buf : Type 0} (r : Ring Buf) where
  -- The loop of `TickOnce` over what is left of the list: one room less, or one place further, in
  -- each round, so that the length of the list is enough `fuel`.
  unfoldable pub tick_rooms : ℕ → List ℕ → Server Buf → List ℕ × Server Buf
  unfolding process_room_queues room_tick back_first moved_or
  tick_rooms zero rooms s = (rooms, s)
  tick_rooms (suc fuel) [] s = ([], s)
  tick_rooms (suc fuel) (i ∷ rest) s =
      let (died, t) = process_room_queues f i s in
      elim died [
        | true ↦ tick_rooms fuel (back_first rest) t
        | false ↦
            let (moved, u) = room_tick f r i t in
            let (more, v) = tick_rooms fuel rest u in (moved_or moved i ∷ more, v)
      ]

  -- `TickOnce` of worker `w`: its list of rooms and the server.
  unfoldable pub tick_once : ℕ → List ℕ × Server Buf → List ℕ × Server Buf
  unfolding drain_room_add_q tick_rooms
  tick_once w (my_rooms, s) =
      let (rooms, t) = drain_room_add_q w my_rooms s in tick_rooms (length rooms) rooms t
