-- ===== src/GameWorker/Phases.antt =====
-- The first ticks of the workers that `GameService::Start` (server/src/GameWorker.cpp) makes.
use mo_belt.Prelude.{ℕ, ◌+◌, ◌*◌, ◌/◌, ◌%◌, ◌<◌, ◌≤◌, arith}
use native.Mathlib.Nat.{mul-le-mul_right, mul-le-mul_left, div-add-mod, mod-lt}
use mo_belt.RoomManager.Books.{max_game_workers}
use mo_belt.GameWorker.{first_tick, tick_period}

-- A sixteenth of a period is at most the share of one of `total` workers.
sixteenth : (q total : ℕ) → total ≤ 16 → tick_period < (q + 1) * total → tick_period / 16 ≤ q
sixteenth q total le lt =
    let most : (q + 1) * total ≤ (q + 1) * 16 = mul-le-mul_left (q + 1) le in
    omega (arith, most, lt)

-- Where there are at most 16 workers, as `GameService::Start` asks for, their first ticks fall into the
-- first period and are a sixteenth of it apart at least.
pub first_tick-apart :
    (t0 total i j : ℕ)
    → i < j
    → j < total
    → total ≤ max_game_workers
    → (first_tick t0 i total + tick_period / max_game_workers ≤ first_tick t0 j total)
      × (first_tick t0 j total + tick_period / max_game_workers ≤ t0 + tick_period)
unfolding first_tick
first_tick-apart t0 total i j lt below few =
    let q = tick_period / total in
    let apart : (i + 1) * q ≤ j * q = mul-le-mul_right q (omega (arith, lt)) in
    let within : (j + 1) * q ≤ total * q = mul-le-mul_right q (omega (arith, below)) in
    let some : 0 < total = omega (arith, below) in
    let rest : tick_period % total < total = mod-lt tick_period some in
    let share : tick_period / 16 ≤ q =
      sixteenth q total few (grind (arith, rest, div-add-mod tick_period total)) in
    (grind (arith, apart, share), grind (arith, within, div-add-mod tick_period total, share))
