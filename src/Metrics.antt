-- ===== src/Metrics.antt =====
-- server/src/Metrics.h: the counters that the modelled code writes. A counter is an atomic
-- int64_t; it stays far below 2^63, so it is a plain number.
pub mod Text
pub mod Histogram
pub mod Http
use mo_belt.Prelude.{ℕ}

pub record Counters : Type 0 where
  pub accepts : ℕ
  pub disconnects : ℕ
  pub recv_bytes : ℕ
  pub send_bytes : ℕ
  pub ring_split_read : ℕ
  pub ring_split_send : ℕ
  pub partial_send : ℕ
  pub epollout_arm : ℕ
  pub send_ring_full : ℕ
  pub frame_wait : ℕ
  pub joins : ℕ
  pub join_fails : ℕ
  pub rooms_created : ℕ
  pub rooms_active : ℕ
  pub room_moves : ℕ
  pub inputs_queued : ℕ
  pub input_ring_drops : ℕ
  pub input_ring_occ : ℕ → ℕ
  pub input_neutralized : ℕ
  pub snapshots_sent : ℕ
  pub snapshots_dropped : ℕ

-- Static storage starts at zero.
abbrev pub no_counts : Counters
no_counts = record {
  accepts = 0;
  disconnects = 0;
  recv_bytes = 0;
  send_bytes = 0;
  ring_split_read = 0;
  ring_split_send = 0;
  partial_send = 0;
  epollout_arm = 0;
  send_ring_full = 0;
  frame_wait = 0;
  joins = 0;
  join_fails = 0;
  rooms_created = 0;
  rooms_active = 0;
  room_moves = 0;
  inputs_queued = 0;
  input_ring_drops = 0;
  input_ring_occ = λ _. 0;
  input_neutralized = 0;
  snapshots_sent = 0;
  snapshots_dropped = 0;
}
