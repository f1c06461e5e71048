-- ===== src/Metrics/Text.antt =====
-- `BuildText` of server/src/Metrics.cpp: the rows that `/metrics` shows. A row stands for the line that
-- `snprintf` makes of it; the numbers and names in it are the code's.
use mo_belt.Prelude.{ℕ, zero, suc, ◌+◌, if◌then◌else◌, ltb, Option, none, some, List, [], ◌∷◌, ◌++◌}
use Prim.Native.String.{String}
use mo_belt.Prelude.Int.{ℤ, pos, sub_ℕ}
use mo_belt.Metrics.{Counters}
use mo_belt.GameWorker.{Stats, bucket_us, oversleep_buckets}
use mo_belt.RoomManager.Books.{max_game_workers}

-- `name value`, `belt_input_ring_occupancy{n="n"} value`, `name{worker="w"} value`,
-- `belt_game_oversleep_us_bucket{worker="w",le="bound"} value` where no bound is `+Inf`, and
-- `belt_thread_cpu_ns{thread="name"} value`.
pub data Row : Type 0 where
  plain : String → ℤ → Row
  occupancy : ℕ → ℕ → Row
  of_worker : String → ℕ → ℕ → Row
  bucket : ℕ → Option ℕ → ℕ → Row
  of_thread : String → ℕ → Row

-- The loop over the nine counts of the input rings, from `i` on.
unfoldable pub occupancy_rows : ℕ → ℕ → (ℕ → ℕ) → List Row
occupancy_rows zero i occ = []
occupancy_rows (suc n) i occ = occupancy i (occ i) ∷ occupancy_rows n (i + 1) occ

-- The loop over the buckets, from `b` on: `cum` is what the buckets before hold together.
unfoldable pub bucket_rows : ℕ → Stats → (n b cum : ℕ) → List Row
bucket_rows w g zero b cum = []
bucket_rows w g (suc n) b cum =
    bucket w (if ltb b 8 then some (bucket_us b) else none) (cum + g.oversleep_bucket b)
    ∷ bucket_rows w g n (b + 1) (cum + g.oversleep_bucket b)

unfoldable pub worker_rows : ℕ → Stats → List Row
unfolding bucket_rows
worker_rows w g =
    of_worker "belt_game_ticks_total" w g.ticks
    ∷ of_worker "belt_game_wakes_total" w g.wakes
    ∷ of_worker "belt_game_skipped_ticks_total" w g.skipped_ticks
    ∷ of_worker "belt_game_rebases_total" w g.rebases
    ∷ of_worker "belt_game_oversleep_max_ns" w g.oversleep_max
    ∷ bucket_rows w g oversleep_buckets 0 0

-- The loop over `n` workers, from `w` on.
unfoldable pub game_rows : ℕ → ℕ → (ℕ → Stats) → List Row
unfolding worker_rows
game_rows zero w games = []
game_rows (suc n) w games = worker_rows w (games w) ++ game_rows n (w + 1) games

-- The registered threads, with what `clock_gettime` says of their clocks.
unfoldable pub thread_rows : List (String × Option ℕ) → List Row
thread_rows [] = []
thread_rows ((name, none) ∷ threads) = thread_rows threads
thread_rows ((name, some ns) ∷ threads) = of_thread name ns ∷ thread_rows threads

-- `BuildText`. `game_count` is `gameWorkerCount`.
unfoldable pub build_text :
    (up : ℕ) → Counters → (game_count : ℕ) → (ℕ → Stats) → List (String × Option ℕ) → List Row
unfolding occupancy_rows game_rows thread_rows
build_text up c game_count games threads =
    plain "belt_up" (pos up)
      ∷ plain "belt_accepts_total" (pos c.accepts)
      ∷ plain "belt_disconnects_total" (pos c.disconnects)
      ∷ plain "belt_sessions_active" (sub_ℕ c.accepts c.disconnects)
      ∷ plain "belt_recv_bytes_total" (pos c.recv_bytes)
      ∷ plain "belt_send_bytes_total" (pos c.send_bytes)
      ∷ plain "belt_ring_split_read_total" (pos c.ring_split_read)
      ∷ plain "belt_ring_split_send_total" (pos c.ring_split_send)
      ∷ plain "belt_partial_send_total" (pos c.partial_send)
      ∷ plain "belt_epollout_arm_total" (pos c.epollout_arm)
      ∷ plain "belt_send_ring_full_total" (pos c.send_ring_full)
      ∷ plain "belt_frame_wait_total" (pos c.frame_wait)
      ∷ plain "belt_joins_total" (pos c.joins)
      ∷ plain "belt_join_fails_total" (pos c.join_fails)
      ∷ plain "belt_rooms_created_total" (pos c.rooms_created)
      ∷ plain "belt_rooms_active" (pos c.rooms_active)
      ∷ plain "belt_room_moves_total" (pos c.room_moves)
      ∷ plain "belt_inputs_queued_total" (pos c.inputs_queued)
      ∷ plain "belt_input_ring_drops_total" (pos c.input_ring_drops)
      ∷ plain "belt_input_neutralized_total" (pos c.input_neutralized)
      ∷ plain "belt_snapshots_sent_total" (pos c.snapshots_sent)
      ∷ plain "belt_snapshots_dropped_total" (pos c.snapshots_dropped)
      ∷ occupancy_rows 9 0 c.input_ring_occ
    ++ game_rows (if ltb game_count max_game_workers then game_count else max_game_workers) 0 games
    ++ thread_rows threads
