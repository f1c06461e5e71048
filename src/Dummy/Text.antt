-- ===== src/Dummy/Text.antt =====
-- The counters of the load generator (dummy/dummy_main.cpp), how a worker hands its own over, and what
-- `BuildDummyText` shows of them.
use mo_belt.Prelude.{
  ℕ, zero, suc, ◌+◌, if◌then◌else◌, ltb, Bool, Option, none, some, List, [], ◌∷◌, ◌++◌,
}
use Prim.Native.String.{String}
use mo_belt.Prelude.Int.{ℤ, pos, sub_ℕ}
use mo_belt.Dummy.{rtt_bucket, rtt_bounds}

-- `DummyStats`.
pub record DummyStats : Type 0 where
  pub active : ℕ
  pub join_ok : ℕ
  pub join_fail : ℕ
  pub connect_fail : ℕ
  pub snapshots : ℕ
  pub inputs_sent : ℕ
  pub pend_overflow : ℕ
  pub server_closed : ℕ
  pub loops : ℕ
  pub loop_bucket : ℕ → ℕ
  pub loop_max_us : ℕ
  pub echo_sent : ℕ
  pub echo_recv : ℕ
  pub rtt_bucket_of : ℕ → ℕ
  pub rtt_max_us : ℕ
  pub pad_error : ℕ
  pub order_error : ℕ
  pub late_arrival : ℕ
  pub echo_not_recv : ℕ
  pub reconnects : ℕ

-- `Worker::Local`.
pub record Local : Type 0 where
  pub snapshots : ℕ
  pub inputs : ℕ
  pub loops : ℕ
  pub buckets : ℕ → ℕ
  pub max_us : ℕ
  pub echo_sent : ℕ
  pub echo_recv : ℕ
  pub rtt_buckets : ℕ → ℕ
  pub rtt_max_us : ℕ

abbrev pub no_local : Local
no_local = record {
  snapshots = 0;
  inputs = 0;
  loops = 0;
  buckets = λ b. 0;
  max_us = 0;
  echo_sent = 0;
  echo_recv = 0;
  rtt_buckets = λ b. 0;
  rtt_max_us = 0;
}

-- `StoreMax`.
abbrev pub store_max : ℕ → ℕ → ℕ
store_max old d = if ltb old d then d else old

-- `Flush`: what a worker has counted by itself is added to what all have.
unfoldable pub flush : Local → DummyStats → Local × DummyStats
flush l g = (
  no_local,
  record g {
    snapshots = g.snapshots + l.snapshots;
    inputs_sent = g.inputs_sent + l.inputs;
    loops = g.loops + l.loops;
    loop_bucket = λ b. g.loop_bucket b + l.buckets b;
    loop_max_us = store_max g.loop_max_us l.max_us;
    echo_sent = g.echo_sent + l.echo_sent;
    echo_recv = g.echo_recv + l.echo_recv;
    rtt_bucket_of = λ b. g.rtt_bucket_of b + l.rtt_buckets b;
    rtt_max_us = store_max g.rtt_max_us l.rtt_max_us;
  },
)

-- The measurement at the end of a round of `Loop`.
unfoldable pub note_round : ℕ → Local → Local
unfolding rtt_bucket
note_round us l =
    let b = rtt_bucket us rtt_bounds in
    record l {
      loops = l.loops + 1;
      max_us = store_max l.max_us us;
      buckets = mo_belt.Prelude.update l.buckets b (l.buckets b + 1);
    }

-- A line of the text: `name value`, or `name{le="bound"} value`, where no bound is `+Inf`.
pub data Line : Type 0 where
  plain : String → ℤ → Line
  bucket : String → Option ℕ → ℕ → Line

-- The loop over the buckets, from `b` on.
unfoldable pub bucket_lines : String → List ℕ → (b cum : ℕ) → (ℕ → ℕ) → List Line
bucket_lines name [] b cum buckets = bucket name none (cum + buckets b) ∷ []
bucket_lines name (e ∷ edges) b cum buckets =
    bucket name (some e) (cum + buckets b)
    ∷ bucket_lines name edges (b + 1) (cum + buckets b) buckets

-- `BuildDummyText`.
unfoldable pub build_dummy_text : (echo_mode : Bool) → DummyStats → List Line
unfolding bucket_lines
build_dummy_text echo_mode g =
    let echoes : List Line =
      plain "dummy_echo_sent_total" (pos g.echo_sent)
      ∷ plain "dummy_echo_recv_total" (pos g.echo_recv)
      ∷ plain "dummy_pad_error_total" (pos g.pad_error)
      ∷ plain "dummy_order_error_total" (pos g.order_error)
      ∷ plain "dummy_packet_error_total" (pos (g.pad_error + g.order_error))
      ∷ plain "dummy_late_arrival_total" (pos g.late_arrival)
      ∷ plain "dummy_echo_not_recv_total" (pos g.echo_not_recv)
      ∷ plain "dummy_reconnects_total" (pos g.reconnects)
      ∷ plain "dummy_pending_packets" (sub_ℕ g.echo_sent g.echo_recv)
      ∷ plain "dummy_rtt_max_us" (pos g.rtt_max_us)
      ∷ bucket_lines "dummy_rtt_us_bucket" rtt_bounds 0 0 g.rtt_bucket_of in
    plain "dummy_active" (pos g.active)
      ∷ plain "dummy_join_ok_total" (pos g.join_ok)
      ∷ plain "dummy_join_fail_total" (pos g.join_fail)
      ∷ plain "dummy_connect_fail_total" (pos g.connect_fail)
      ∷ plain "dummy_snapshots_total" (pos g.snapshots)
      ∷ plain "dummy_inputs_sent_total" (pos g.inputs_sent)
      ∷ plain "dummy_pend_overflow_total" (pos g.pend_overflow)
      ∷ plain "dummy_server_closed_total" (pos g.server_closed)
      ∷ plain "dummy_loops_total" (pos g.loops)
      ∷ plain "dummy_loop_max_us" (pos g.loop_max_us)
      ∷ bucket_lines "dummy_loop_us_bucket" rtt_bounds 0 0 g.loop_bucket
    ++ (if echo_mode then echoes else [])
