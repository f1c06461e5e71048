-- ===== src/Tests/Clients.antt =====
-- The theorems on the clients of the load generator, at two echoes of 40 bytes in one buffer.
use mo_belt.Prelude.{
  ℕ, ◌+◌, ◌*◌, ◌≤◌, ◌≡◌, inr, refl, arith, true, false, leb, some, List, [], ◌∷◌, length, count_by,
}
use mo_belt.Prelude.Int.{pos}
use mo_belt.EpollWorker.{read_again, bytes}
use mo_belt.EpollWorker.Frames.{join_all, cut_stream}
use mo_belt.Dummy.{rtt_bounds, rtt_bucket}
use mo_belt.Dummy.Client.{Mode, Client, parse_frames, on_readable}
use mo_belt.Dummy.Client.Parsing.{take_cut, parse_frames-take_cut}
use mo_belt.Dummy.Client.Echoes.{packets, Clean, parse_frames-packets}
use mo_belt.Dummy.Client.Room.{HasRoom, on_readable-HasRoom}
use mo_belt.Dummy.Gate.{p99_of, seek_p99}
use mo_belt.Dummy.Gate.Percentile.{histogram, p99_of-most}
use mo_belt.EpollWorker.Read.{Ready}
use mo_belt.Dummy.Client.{activate, on_connected}
use mo_belt.Dummy.Client.Turn.{Place, turn, ramp_one, hear, tend, on_event, start_connect, begin}
use mo_belt.Dummy.Client.Loop.{Answers, Round, start_team, run, loop}
use mo_belt.Dummy.Client.Loop.Counting.{counted_of, active_of, loop-counted_of}
use mo_belt.Tests.Load.{forty, forty-Fits, first_reply, sender, calm}

abbrev echo_run : Mode
echo_run = record {
  sizes = forty;
  churn = calm;
  echo_mode = true;
  attack_send_q = 0;
  slow_recv_ms = 0;
  over_send = 0;
  echo_timeout_ms = 500;
}

abbrev times_sent : List ℕ
times_sent = 1000 ∷ 2000 ∷ []

abbrev client : Client
client = record {
  sender = sender;
  checker = first_reply;
  attacker = false;
  seq = 0;
  next_input = 0;
  next_recv = 0;
  churn_at = 0;
  recv = join_all (packets forty 5 1 times_sent);
  reads = read_again ∷ [];
  join_ok = 1;
  join_fail = 0;
  connect_fail = 0;
  snapshots = 0;
  inputs = 0;
  echo_not_recv = 0;
  reconnects = 0;
}

cut_example : parse_frames echo_run client ≡ take_cut echo_run (cut_stream client.recv) client
cut_example = parse_frames-take_cut echo_run client

packets_example : Clean 2 client (parse_frames echo_run client)
packets_example =
    parse_frames-packets echo_run forty-Fits refl times_sent client (omega arith)
      (omega arith, (omega arith, tt)) refl

-- The client with an empty buffer reads three bytes.
abbrev hearing : Client
hearing = record client { recv = []; reads = bytes 1 (2 ∷ 3 ∷ []) ∷ [] }

room_example : HasRoom (on_readable echo_run hearing)
room_example = on_readable-HasRoom echo_run hearing (inr (omega arith))

abbrev samples : List ℕ
samples = 40 ∷ 70 ∷ 90 ∷ []

samples_p99 : p99_of (histogram rtt_bounds samples) rtt_bounds ≡ some 100
unfolding p99_of seek_p99 rtt_bucket
samples_p99 = refl

p99_example : 99 * length samples ≤ 100 * count_by (λ us. leb us 100) samples
p99_example = p99_of-most samples 100 samples_p99

-- Two clients: the first round starts one and the second the other; the first one has then connected.
abbrev place : ℕ → Place
place i = record { id = 0; idx = i; socket = some (7 + i); connects = true }

abbrev round_with : List (ℕ × ℕ × Ready) → Round
round_with events = record {
  mode = echo_run;
  period = 1000;
  ramp_places = place;
  places = place;
  events = events;
}

abbrev no_answers : ℕ → Answers
no_answers i = record { writes = []; reads = []; ctls = [] }

abbrev two_rounds : List Round
two_rounds =
    round_with []
    ∷ round_with ((0, 0, record { broken = false; readable = false; writable = true }) ∷ [])
    ∷ []

one_active : active_of (run two_rounds (start_team 0 1 2 no_answers)) ≡ 1
unfolding run turn ramp_one hear tend on_event on_connected start_team activate start_connect begin
one_active = refl

loop_example :
    let t = start_team 0 1 2 no_answers in
    (counted_of (run two_rounds t) ≡ pos (active_of (run two_rounds t)))
    × (counted_of (loop echo_run two_rounds t) ≡ pos 0)
loop_example = loop-counted_of 0 1 2 no_answers two_rounds echo_run
