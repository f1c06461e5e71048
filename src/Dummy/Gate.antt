-- ===== src/Dummy/Gate.antt =====
-- The verdict of the load generator (dummy/dummy_main.cpp): where the 99th percentile of a histogram
-- lies, and whether a run counts.
pub mod Percentile
use mo_belt.Prelude.{
  ℕ, zero, suc, ◌+◌, ◌*◌, ◌/◌, Bool, true, false, not, ◌&&◌, ◌||◌, if◌then◌else◌, ltb, leb, ◌==◌,
  Option, none, some, List, [], ◌∷◌, length, sum_below,
}
use mo_belt.Dummy.{rtt_bounds}

-- The second loop of `p99Of`, from bucket `b` on, with the sums of the first made on the way. The last
-- bucket has no bound; none stands for -1.
unfoldable pub seek_p99 : (target : ℕ) → List ℕ → (b cum : ℕ) → (ℕ → ℕ) → Option ℕ
seek_p99 target [] b cum buckets = none
seek_p99 target (e ∷ edges) b cum buckets =
    let here = cum + buckets b in
    let more = seek_p99 target edges (b + 1) here buckets in
    if leb target here then some e else more

-- `p99Of`.
unfoldable pub p99_of : (ℕ → ℕ) → List ℕ → Option ℕ
unfolding seek_p99
p99_of buckets edges =
    let total = sum_below (length edges + 1) buckets in
    if total == 0 then none else seek_p99 ((total * 99 + 99) / 100) edges 0 0 buckets

-- `loopOk`, on the histogram of the rounds, whose bounds are those of the answers.
unfoldable pub loop_ok : (ℕ → ℕ) → Bool
unfolding p99_of
loop_ok buckets = elim (p99_of buckets rtt_bounds) [
  | none ↦ false
  | some e ↦ ltb 0 e && leb e 40000
]

-- What the gate looks at, when all clients have ended: the settings and the counters.
pub record Tally : Type 0 where
  pub sessions : ℕ
  pub churn_ms : ℕ
  pub attack_send_q : ℕ
  pub slow_recv_ms : ℕ
  pub over_send : ℕ
  pub joined : ℕ
  pub buf_full : ℕ
  pub closed : ℕ
  pub sent : ℕ
  pub recv : ℕ
  pub pad_err : ℕ
  pub ord_err : ℕ
  pub loops : ℕ → ℕ

-- `ok` of the echo mode.
unfoldable pub echo_ok : Tally → Bool
unfolding loop_ok
echo_ok t =
    let churning = ltb 0 t.churn_ms || ltb 0 t.attack_send_q in
    let connect_ok = if churning then leb t.sessions t.joined else t.joined == t.sessions in
    let close_ok = if churning then true else t.closed == 0 in
    let allow = t.sessions * (if ltb 0 t.over_send then t.over_send else 1) in
    let inflight_ok = ltb 0 t.attack_send_q || leb t.sent (t.recv + allow) in
    let attack_ok = t.attack_send_q == 0 || (ltb 0 t.slow_recv_ms || ltb 0 t.closed) in
    let buf_ok = ltb 0 t.attack_send_q || t.buf_full == 0 in
    connect_ok
    && (close_ok
        && (inflight_ok
            && (attack_ok && (t.pad_err == 0 && (t.ord_err == 0 && (buf_ok && loop_ok t.loops))))))

-- `ok` of the game mode.
unfoldable pub game_ok : Tally → Bool
unfolding loop_ok
game_ok t = t.joined == t.sessions && (t.buf_full == 0 && (t.closed == 0 && loop_ok t.loops))
