-- ===== src/Dummy/Client/Loop.antt =====
-- The whole run of a worker of the load generator: `Start` and `Loop` (dummy/dummy_main.cpp), by what the
-- kernel and the clock say in its rounds.
pub mod Counting
use mo_belt.Prelude.{ℕ, ◌<◌, Bool, true, false, none, List, [], ◌∷◌}
use mo_belt.Prelude.Int.{pos}
use mo_belt.EpollWorker.{WriteAnswer, ReadAnswer}
use mo_belt.EpollWorker.Read.{Ready}
use mo_belt.Dummy.Send.{idle}
use mo_belt.Dummy.Client.{Mode, Client}
use mo_belt.Dummy.Client.Turn.{Place, Team, turn, disband}

-- What the system calls for a client's socket will answer.
pub record Answers : Type 0 where
  pub writes : List WriteAnswer
  pub reads : List ReadAnswer
  pub ctls : List Bool

-- A `Client` as it is constructed.
abbrev pub new_client : Answers → Client
new_client k = record {
  sender = record {
    state = idle;
    fd = none;
    pend = [];
    want_write = false;
    seed = 0;
    echo_seq = 0;
    pending = 0;
    reconnect_at = 0;
    active_count = pos 0;
    server_closed = 0;
    pend_overflow = 0;
    echo_sent = 0;
    written = [];
    writes = k.writes;
    ctls = k.ctls;
  };
  checker = record {
    seed = 0;
    expect_recv = 1;
    pending = 0;
    last_recv_ns = 0;
    not_recv_flagged = false;
    killed = false;
    echo_recv = 0;
    rtt_max_us = 0;
    rtt_buckets = λ b. 0;
    pad_error = 0;
    order_error = 0;
    late_arrival = 0;
    stop = false;
  };
  attacker = false;
  seq = 0;
  next_input = 0;
  next_recv = 0;
  churn_at = 0;
  recv = [];
  reads = k.reads;
  join_ok = 0;
  join_fail = 0;
  connect_fail = 0;
  snapshots = 0;
  inputs = 0;
  echo_not_recv = 0;
  reconnects = 0;
}

-- A worker that `Start` has started.
unfoldable pub start_team : (id ramp count : ℕ) → (ℕ → Answers) → Team
start_team id ramp count answers = record {
  id = id;
  ramp = ramp;
  count = count;
  next_to_connect = 0;
  clients = λ i. new_client (answers i);
}

-- What one round of `Loop` meets: the settings with the time, `inputPeriodNs`, and the answers of
-- `socket`, `connect` and `epoll_wait`.
pub record Round : Type 0 where
  pub mode : Mode
  pub period : ℕ
  pub ramp_places : ℕ → Place
  pub places : ℕ → Place
  pub events : List (ℕ × ℕ × Ready)

-- `Loop` up to its end, which comes after these rounds.
unfoldable pub run : List Round → Team → Team
unfolding turn
run [] t = t
run (r ∷ rounds) t = run rounds (turn r.mode r.period r.ramp_places r.places r.events t)

-- `Loop`.
unfoldable pub loop : Mode → List Round → Team → Team
unfolding run disband
loop last rounds t = disband last (run rounds t)
