-- ===== src/Dummy/Send.antt =====
-- How a client of the load generator (dummy/dummy_main.cpp) sends: what the socket does not take waits
-- in `pend`, in order.
use mo_belt.Prelude.{
  ℕ, ◌+◌, ◌*◌, ◌%◌, ◌^◌, Bool, true, false, not, if◌then◌else◌, ltb, ◌==◌, Option, none, some, List,
  [], ◌∷◌, ◌++◌, length, take, skip,
}
use mo_belt.Prelude.Int.{ℤ, pos, ◌-ℤ◌}
use mo_belt.EpollWorker.{WriteAnswer, wrote, write_again, write_interrupted, write_failed, next_ctl}
use mo_belt.Dummy.{Settings, echo_packet}

-- `CState`.
pub data CState : Type 0 where
  idle connecting joining active dead : CState

abbrev pub is_dead : CState → Bool
is_dead dead = true
is_dead s = false

abbrev pub is_active : CState → Bool
is_active active = true
is_active s = false

-- `g_churnMs`, `g_reconnectMs`, and the clock.
pub record Churn : Type 0 where
  pub churn_ms : ℕ
  pub reconnect_ms : ℕ
  pub now : ℕ

-- What sending reads and writes of a `Client`, of the counters and of the kernel: `written` is what the
-- socket has taken, `writes` and `ctls` are the answers to come. `active_count` is what this client has
-- added to the counter `g_stats.active`, which is the sum over all clients.
pub record Sender : Type 0 where
  pub state : CState
  pub fd : Option ℕ
  pub pend : List ℕ
  pub want_write : Bool
  pub seed : ℕ
  pub echo_seq : ℕ
  pub pending : ℕ
  pub reconnect_at : ℕ
  pub active_count : ℤ
  pub server_closed : ℕ
  pub pend_overflow : ℕ
  pub echo_sent : ℕ
  pub written : List ℕ
  pub writes : List WriteAnswer
  pub ctls : List Bool

-- `kPendMax`.
abbrev pub pend_max : ℕ
pend_max = 4096

-- `Kill`. An active client is one of those that `active` counts.
unfoldable pub kill : Churn → Bool → Sender → Sender
unfolding ◌-ℤ◌
kill t by_server c = if is_dead c.state then c else record c {
  active_count = if is_active c.state then c.active_count -ℤ pos 1 else c.active_count;
  server_closed = if by_server then c.server_closed + 1 else c.server_closed;
  fd = none;
  state = dead;
  reconnect_at = if ltb 0 t.churn_ms then t.now + t.reconnect_ms * 1000000 else c.reconnect_at;
}

-- The socket takes the first `n` bytes.
abbrev pub hand_over : ℕ → List ℕ → Sender → Sender
hand_over n data_out c = record c { written = c.written ++ take n data_out }

-- What a `write` takes of `len` bytes, where it takes `more + 1` if it can.
abbrev pub taken_of : (more len : ℕ) → ℕ
taken_of more len = if ltb (more + 1) len then more + 1 else len

-- The end of `SendBytes`, where `n` bytes have been taken.
unfoldable pub keep_rest : ℕ → List ℕ → Sender → Sender
keep_rest n data_out c =
    if ltb n (length data_out)
    then record c { pend = c.pend ++ skip n data_out; want_write = false }
    else c

-- `SendBytes` with nothing pending, by the answer to `write`.
unfoldable pub write_now : Churn → List ℕ → List WriteAnswer → Sender → Sender
unfolding keep_rest kill
write_now t data_out [] c = keep_rest 0 data_out c
write_now t data_out (write_again ∷ rest) c = keep_rest 0 data_out (record c { writes = rest })
write_now t data_out (write_interrupted ∷ rest) c =
    keep_rest 0 data_out (record c { writes = rest })
write_now t data_out (write_failed ∷ rest) c = kill t true (record c { writes = rest })
write_now t data_out (wrote more ∷ rest) c =
    let n = taken_of more (length data_out) in
    keep_rest n data_out (hand_over n data_out (record c { writes = rest }))

-- `SendBytes`.
unfoldable pub send_bytes : Churn → List ℕ → Sender → Sender
unfolding write_now kill
send_bytes t data_out c =
    let now = write_now t data_out c.writes c in
    if length c.pend == 0
    then now
    else if ltb pend_max (length c.pend + length data_out)
    then kill t false (record c { pend_overflow = c.pend_overflow + 1 })
    else record c { pend = c.pend ++ data_out }

-- `FlushPend`, by the answers to `write`.
unfoldable pub flush_on : Churn → List WriteAnswer → Sender → Sender
unfolding kill
flush_on t [] c = c
flush_on t (write_again ∷ rest) c = if length c.pend == 0 then c else record c { writes = rest }
flush_on t (write_interrupted ∷ rest) c =
    let more = flush_on t rest (record c { writes = rest }) in
    if length c.pend == 0 then c else more
flush_on t (write_failed ∷ rest) c =
    if length c.pend == 0 then c else kill t true (record c { writes = rest })
flush_on t (wrote k ∷ rest) c =
    let n = taken_of k (length c.pend) in
    let v : Sender = record (hand_over n c.pend c) { pend = skip n c.pend; writes = rest } in
    let more = flush_on t rest v in if length c.pend == 0 then c else more

unfoldable pub flush_pend : Churn → Sender → Sender
unfolding flush_on
flush_pend t c = flush_on t c.writes c

-- `UpdateWrite`.
unfoldable pub update_write : Bool → Sender → Sender
unfolding next_ctl
update_write want c =
    let (ok, ctls) = next_ctl c.ctls in
    let no_fd = elim c.fd as (λ _. Bool) [ none ↦ true | some fd ↦ false ] in
    if (if want then c.want_write else not c.want_write)
    then c
    else if no_fd
    then c
    else if ok
    then record c { ctls = ctls; want_write = want }
    else record c { ctls = ctls }

-- `SendEcho`, at the time `sent_ns`.
unfoldable pub send_echo : Settings → Churn → (sent_ns : ℕ) → Sender → Sender
unfolding echo_packet send_bytes update_write
send_echo g t sent_ns c =
    let seq = (c.echo_seq + 1) % 2 ^ 64 in
    let v = send_bytes t (echo_packet g c.seed seq sent_ns) (record c { echo_seq = seq }) in
    let u = if length v.pend == 0 then v else update_write true v in
    if is_dead v.state then v else record u { echo_sent = u.echo_sent + 1; pending = u.pending + 1 }
