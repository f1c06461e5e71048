-- ===== src/Tests/Parts.antt =====
-- The theorems on the single parts, at small inputs.
use mo_belt.Prelude.{
  ℕ, ◌+◌, ◌-◌, ◌<◌, ◌≤◌, ◌≡◌, ◌⊎◌, refl, false, List, [], ◌∷◌, ◌++◌, arith, if◌then◌else◌, ◌==◌,
  some,
}
use mo_belt.Prelude.Int.{pos, negsuc}
use mo_belt.Metrics.{no_counts}
use mo_belt.Protocol.{InputMsg, input_msg, read_input}
use mo_belt.Protocol.Layout.{read_input-input_msg}
use mo_belt.Room.{InputCmd, no_input, no_member, Member}
use mo_belt.Room.Seats.{Seats}
use mo_belt.Sim.{SimInput, sim_step}
use mo_belt.Sim.Bounds.{InStage, sim_step-InStage, SameActor, sim_step-same}
use mo_belt.Session.{blank_session}
use mo_belt.Session.Pool.{add_ref, release, alloc, alloc_top, fill_free, ready_rings, fresh}
use mo_belt.Session.Invariant.{PoolOk, init-PoolOk, alloc-PoolOk, alloc-handed}
use mo_belt.RoomManager.Alloc.{reset_world, blank_room}
use mo_belt.RoomManager.Input.{Routing, route_all}
use mo_belt.RoomManager.Input.Held.{ticks}
use mo_belt.RoomManager.Input.Fifo.{RingOk, queue, newest, inputs_of, route_all-queue}
use mo_belt.GameWorker.{Worker, wake}
use mo_belt.GameWorker.Pacing.{Paced, wake-Paced}
use mo_belt.Tests.Values.{whole_fpu, whole_fpu-IsIeee, list_ring, two_sessions, one_session}

two_sessions-PoolOk : PoolOk two_sessions
two_sessions-PoolOk = init-PoolOk list_ring 2

one_session-PoolOk : PoolOk one_session
one_session-PoolOk = alloc-PoolOk list_ring two_sessions two_sessions-PoolOk

one_session-held : (one_session.slots 0).refs ≡ 1
unfolding mo_belt.Session.Pool.init fill_free alloc alloc_top ready_rings fresh blank_session
one_session-held = refl

handed : (alloc list_ring two_sessions).0 ≡ some 0
unfolding mo_belt.Session.Pool.init fill_free alloc alloc_top ready_rings fresh blank_session
handed = refl

alloc_handed_example :
    let q = (alloc list_ring two_sessions).1 in
    (0 < two_sessions.cap)
    × ((two_sessions.slots 0).refs ≡ 0)
    × ((q.slots 0).refs ≡ 1)
    × ((q.slots 0).dead ≡ false)
    × ((q.slots 0).in_room ≡ false)
    × ((q.slots 1).gen ≡ (two_sessions.slots 1).gen)
    × ((◌≡◌ {A = ℕ} 1 0) ⊎ ((q.slots 1).refs ≡ (two_sessions.slots 1).refs))
alloc_handed_example = alloc-handed list_ring two_sessions 0 1 two_sessions-PoolOk handed

-- A player at seat 0 who walks to the right.
abbrev walk : InputCmd
walk = record no_input { seq = 7; mx = pos 1 }

abbrev player : Member
player = record {
  used = mo_belt.Prelude.true;
  sess_idx = 0;
  sess_gen = 0;
  sess_owner = 0;
  ring = λ i. no_input;
  ring_head = 7;
  ring_count = 0;
  held = no_input;
  last_input_seq = 0;
  empty_streak = 0;
}

abbrev routing : Routing
routing = record { members = λ i. player; counters = no_counts }

player-RingOk : RingOk player
player-RingOk = record { head = omega arith; count = omega arith }

-- With one input in its ring, after three ticks without one.
abbrev walker : Member
walker = record player { ring = λ i. walk; ring_count = 1; empty_streak = 3 }

route_all_example :
    let m = (route_all (walk ∷ walk ∷ []) routing).members 0 in
    RingOk m × (queue m ≡ newest (queue player ++ inputs_of 0 player (walk ∷ walk ∷ [])))
route_all_example = route_all-queue (walk ∷ walk ∷ []) routing 0 (omega arith) player-RingOk

abbrev late_worker : Worker ℕ
late_worker = record {
  state = 0;
  next = 100;
  steps = 0;
  stats = record {
    ticks = 0;
    wakes = 0;
    skipped_ticks = 0;
    rebases = 0;
    oversleep_max = 0;
    oversleep_bucket = λ b. 0;
  };
}

wake_example : Paced (λ n. n + 1) 90000000 late_worker (wake (λ n. n + 1) 90000000 late_worker)
wake_example = wake-Paced (λ n. n + 1) 90000000 late_worker

abbrev push_right : ℕ → SimInput
push_right i = record { mx = pos 1; my = negsuc 0 }

walls_example :
    InStage whole_fpu ((sim_step whole_fpu (reset_world whole_fpu) push_right).actors 13)
walls_example =
    sim_step-InStage whole_fpu whole_fpu-IsIeee (reset_world whole_fpu) push_right 13 (omega arith)

same_example :
    SameActor
      ((reset_world whole_fpu).actors 13)
      ((sim_step whole_fpu (reset_world whole_fpu) push_right).actors 13)
same_example = sim_step-same whole_fpu (reset_world whole_fpu) push_right 13

abbrev step_left : InputMsg
step_left = record { seq = 70000; mx = negsuc 0; my = pos 1; attack = 1; skill = 0 }

read_input_example : read_input (input_msg step_left) ≡ step_left
read_input_example = read_input-input_msg step_left (record {
  seq = omega arith;
  mx = (omega arith, omega arith);
  my = (omega arith, omega arith);
  attack = omega arith;
  skill = omega arith;
})

abbrev loads : ℕ → ℕ
loads w = if w == 1 then 2 else 5

blank-Seats : Seats (blank_room whole_fpu) []
unfolding blank_room no_member
blank-Seats = record { each = λ i lt. omega arith; seated = tt; reserved = refl; counted = refl }
