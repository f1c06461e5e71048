-- ===== src/Tests/Load.antt =====
-- The theorems on the load generator, at a packet of 40 bytes.
use mo_belt.Prelude.{
  ℕ, ◌+◌, ◌-◌, ◌%◌, ◌^◌, ◌<◌, ◌≤◌, ◌≡◌, refl, ap, arith, true, false, skip, ◌⊎◌, some, List, [],
  ◌∷◌, ◌++◌,
}
use mo_belt.Prelude.Int.{pos, negsuc}
use mo_belt.Protocol.{header_bytes}
use mo_belt.Protocol.Bytes.{read_le}
use mo_belt.Dummy.{
  Settings, Checker, clamp_sizes, echo_min, echo_size_for, fill_pad, echo_packet, note_arrival,
  on_echo,
}
use mo_belt.Dummy.Padding.{Fits, echo_size_for-clamp_sizes}
use mo_belt.Dummy.Check.{on_echo-echo_packet}
use mo_belt.EpollWorker.{wrote, write_again}
use mo_belt.Dummy.Send.{Sender, Churn, active, is_dead, send_bytes, flush_pend}
use mo_belt.Dummy.Pending.{sent_and_pending, flush_pend-send_bytes}
use mo_belt.Dummy.Damage.{on_echo-passed}

abbrev pub forty : Settings
forty = record { pkt_min = 40; pkt_max = 40; verify = true; fail_fast = true }

pub forty-Fits : Fits forty
forty-Fits = record { low = omega arith; order = omega arith; high = omega arith }

abbrev pub first_reply : Checker
first_reply = record {
  seed = 5;
  expect_recv = 1;
  pending = 1;
  last_recv_ns = 0;
  not_recv_flagged = false;
  killed = false;
  echo_recv = 0;
  rtt_max_us = 0;
  rtt_buckets = λ b. 0;
  pad_error = 0;
  order_error = 0;
  late_arrival = 0;
  stop = false;
}

passed_as_sent :
    on_echo forty 90000 (echo_packet forty 5 1 1000) first_reply
    ≡ record (note_arrival 90000 1000 first_reply) { expect_recv = (1 + 1) % 2 ^ 64 }
passed_as_sent =
    on_echo-echo_packet forty 90000 1000 first_reply forty-Fits refl (omega arith) (omega arith)

abbrev echoed : Checker
echoed = on_echo forty 90000 (echo_packet forty 5 1 1000) first_reply

no_damage : (echoed.pad_error ≡ 0) × (echoed.order_error ≡ 0) × (echoed.late_arrival ≡ 0)
unfolding note_arrival
no_damage = (
  ap (λ d. d.pad_error) passed_as_sent,
  ap (λ d. d.order_error) passed_as_sent,
  ap (λ d. d.late_arrival) passed_as_sent,
)

passed_example :
    let msg = echo_packet forty 5 1 1000 in
    let size = (header_bytes msg).0 in
    (read_le 8 (skip 4 msg) ≡ 1)
    × (echo_size_for forty 5 1 ≡ size)
    × (echo_min < size → skip echo_min msg ≡ fill_pad (size - echo_min) 5 1)
passed_example =
    on_echo-passed forty 90000 (echo_packet forty 5 1 1000) first_reply refl no_damage.0 no_damage.1
      no_damage.2

clamp_example :
    let size = echo_size_for (clamp_sizes (negsuc 4) (pos 2000) true true) 5 1 in
    (echo_min ≤ size) × (size ≤ 1024)
clamp_example = echo_size_for-clamp_sizes (negsuc 4) (pos 2000) true true 5 1 (omega arith)

-- The socket takes three bytes, then is busy, then takes what is left.
abbrev pub sender : Sender
sender = record {
  state = active;
  fd = some 9;
  pend = [];
  want_write = false;
  seed = 5;
  echo_seq = 0;
  pending = 0;
  reconnect_at = 0;
  active_count = pos 1;
  server_closed = 0;
  pend_overflow = 0;
  echo_sent = 0;
  written = 1 ∷ [];
  writes = wrote 2 ∷ wrote 0 ∷ write_again ∷ [];
  ctls = [];
}

abbrev pub calm : Churn
calm = record { churn_ms = 0; reconnect_ms = 1000; now = 0 }

abbrev five : List ℕ
five = 2 ∷ 3 ∷ 4 ∷ 5 ∷ 6 ∷ []

pending_example :
    let d = send_bytes calm five sender in
    (sent_and_pending (flush_pend calm d) ≡ sent_and_pending sender ++ five)
    ⊎ ((sent_and_pending (flush_pend calm d) ≡ sent_and_pending sender) × (is_dead d.state ≡ true))
pending_example = flush_pend-send_bytes calm five sender
