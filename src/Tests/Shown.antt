-- ===== src/Tests/Shown.antt =====
-- The theorems on what `/metrics` shows, on the ends of loops, and on phases.
use mo_belt.Prelude.{ℕ, ◌+◌, ◌/◌, ◌≤◌, ◌≡◌, refl, none, some, List, [], ◌∷◌, arith}
use mo_belt.RoomManager.Books.{max_game_workers}
use mo_belt.GameWorker.{bucket_us, first_tick, tick_period, tick_rooms}
use mo_belt.GameWorker.Phases.{first_tick-apart}
use mo_belt.GameWorker.Enough.{tick_rooms-enough}
use mo_belt.Metrics.Text.{bucket, bucket_rows}
use mo_belt.Metrics.Histogram.{observed, delay_rows, bucket_rows-delay_rows}
use mo_belt.Metrics.Http.{write_response}
use mo_belt.Metrics.Http.Answering.{write_response-all}
use mo_belt.Tests.Values.{whole_fpu, list_ring, empty_server}

-- Three wakes, 60 µs, 7 ms and 20 ms late.
abbrev late : List ℕ
late = 60000 ∷ 7000000 ∷ 20000000 ∷ []

bucket_rows_example : bucket_rows 2 (observed late) 9 0 0 ≡ delay_rows 2 late 9 0
bucket_rows_example = bucket_rows-delay_rows 2 late

rows_of_late :
    delay_rows 2 late 9 0
    ≡ bucket 2 (some 50) 0
      ∷ bucket 2 (some 100) 1
      ∷ bucket 2 (some 200) 1
      ∷ bucket 2 (some 500) 1
      ∷ bucket 2 (some 1000) 1
      ∷ bucket 2 (some 2000) 1
      ∷ bucket 2 (some 5000) 1
      ∷ bucket 2 (some 10000) 2
      ∷ bucket 2 none 3
      ∷ []
unfolding bucket_us
rows_of_late = refl

-- "GET\r\n\r\n" in two reads.
abbrev request : List (List ℕ)
request = (71 ∷ 69 ∷ 84 ∷ 13 ∷ []) ∷ (10 ∷ 13 ∷ 10 ∷ []) ∷ []

write_response_example : write_response (2 ∷ 1 ∷ 9 ∷ []) (1 ∷ 2 ∷ 3 ∷ []) ≡ 1 ∷ 2 ∷ 3 ∷ []
write_response_example =
    write_response-all (2 ∷ 1 ∷ 9 ∷ []) (1 ∷ 2 ∷ 3 ∷ [])
      (λ e. omega (arith, e), (λ e. omega (arith, e), (λ e. omega (arith, e), tt))) (omega arith)

first_tick_example :
    (first_tick 0 1 4 + tick_period / max_game_workers ≤ first_tick 0 3 4)
    × (first_tick 0 3 4 + tick_period / max_game_workers ≤ 0 + tick_period)
first_tick_example = first_tick-apart 0 4 1 3 (omega arith) (omega arith) (omega arith)

enough_example :
    tick_rooms whole_fpu list_ring 5 (1 ∷ 0 ∷ []) empty_server
    ≡ tick_rooms whole_fpu list_ring 2 (1 ∷ 0 ∷ []) empty_server
enough_example =
    tick_rooms-enough whole_fpu list_ring 5 2 (1 ∷ 0 ∷ []) empty_server (omega arith) (omega arith)
