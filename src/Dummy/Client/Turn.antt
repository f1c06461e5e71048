-- ===== src/Dummy/Client/Turn.antt =====
-- `OnEvent`, `StartConnect` and a round of `Loop` of the load generator's workers
-- (dummy/dummy_main.cpp). The clock stands still during a round.
use mo_belt.Prelude.{
  ℕ, ◌+◌, ◌-◌, ◌*◌, ◌%◌, ◌^◌, Bool, true, false, ◌&&◌, ◌||◌, not, if◌then◌else◌, ltb, leb, ◌==◌,
  Option, none, some, List, [], ◌∷◌, update, for_below,
}
use mo_belt.Prelude.Int.{pos}
use mo_belt.Protocol.{input_msg}
use mo_belt.EpollWorker.Read.{Ready}
use mo_belt.Dummy.{mix64, bit_xor}
use mo_belt.Dummy.Send.{
  CState, connecting, dead, is_dead, is_active, kill, send_bytes, flush_pend, update_write,
  send_echo,
}
use mo_belt.Dummy.Client.{
  Mode, Client, kill_client, on_readable, is_slow, ask, read_later, sender_to, waits_to_send,
  on_connected,
}

abbrev pub is_connecting : CState → Bool
is_connecting connecting = true
is_connecting s = false

abbrev pub no_fd : Client → Bool
no_fd c = elim c.sender.fd [ none ↦ true | some fd ↦ false ]

-- The part of `OnEvent` on a writable socket.
unfoldable pub on_writable : Mode → Client → Client
unfolding flush_pend update_write
on_writable m c =
    let v = sender_to (flush_pend m.churn) c in
    if waits_to_send v then v else sender_to (update_write false) v

-- `OnEvent`. `err` is the `SO_ERROR` of the socket.
unfoldable pub on_event : Mode → (err : ℕ) → Ready → Client → Client
unfolding on_writable on_readable on_connected ask kill
on_event m err e c =
    let v = if e.writable then on_writable m c else c in
    let u = on_readable m v in
    let heard = if is_slow m u && is_active u.sender.state then read_later m (ask u) else u in
    if is_dead c.sender.state || no_fd c
    then c
    else if e.broken
    then kill_client m true c
    else if is_connecting c.sender.state && e.writable
    then on_connected m err c
    else if e.readable
    then heard
    else v

-- Where a client of worker `id` stands, what `socket` returned, and whether `connect` went on.
pub record Place : Type 0 where
  pub id : ℕ
  pub idx : ℕ
  pub socket : Option ℕ
  pub connects : Bool

unfoldable pub not_connected : Client → Client
not_connected c = record c {
  sender = record (c.sender) { fd = none; state = dead };
  connect_fail = c.connect_fail + 1;
}

-- The seed of a client, which it keeps when it connects again.
unfoldable pub seed_for : Place → ℕ → ℕ
unfolding mix64 bit_xor
seed_for p seed =
    if seed == 0 then mix64 (bit_xor 64 (p.id * 2 ^ 32 % 2 ^ 64) (p.idx + 1)) else seed

-- When a client that comes and goes leaves.
unfoldable pub churn_time : Mode → (seed : ℕ) → ℕ
unfolding mix64
churn_time m seed =
    let t = m.churn in
    let hold = t.churn_ms + mix64 ((seed + t.now) % 2 ^ 64) % (t.churn_ms * 4 + 1) in
    if ltb 0 t.churn_ms then t.now + hold * 1000000 else 0

-- The end of `StartConnect`: a new session begins.
unfoldable pub begin : Mode → Place → ℕ → Client → Client
unfolding ask seed_for churn_time
begin m p fd c =
    let seed = seed_for p c.sender.seed in
    ask (record c {
      sender = record (c.sender) {
        fd = some fd;
        state = connecting;
        seed = seed;
        echo_seq = 0;
        pending = 0;
        pend = [];
        reconnect_at = 0;
      };
      checker = record (c.checker) {
        seed = seed;
        expect_recv = 1;
        pending = 0;
        last_recv_ns = m.churn.now;
        not_recv_flagged = false;
      };
      attacker = m.echo_mode && (ltb 0 m.attack_send_q && (p.id == 0 && ltb p.idx m.attack_send_q));
      recv = [];
      churn_at = churn_time m seed;
    })

-- `StartConnect`.
unfoldable pub start_connect : Mode → Place → Client → Client
unfolding not_connected begin
start_connect m p c = elim p.socket [
  | none ↦ not_connected c
  | some fd ↦ if p.connects then begin m p fd c else not_connected c
]

-- `nextInputNs` after a turn.
unfoldable pub next_turn : Mode → (period : ℕ) → Client → Client
next_turn m period c = record c {
  next_input = (if c.next_input == 0 then m.churn.now else c.next_input) + period;
}

-- The answers have been missing for too long.
unfoldable pub note_silence : Mode → Client → Client
note_silence m c =
    let k = c.checker in
    if m.echo_mode
      && (ltb 0 c.sender.pending
          && (not k.not_recv_flagged
              && ltb (m.echo_timeout_ms * 1000000) (m.churn.now - k.last_recv_ns)))
    then record c {
      checker = record k { not_recv_flagged = true };
      echo_not_recv = c.echo_not_recv + 1;
    }
    else c

-- An attacker pushes in every round; a slow one listens for a moment when its time has come.
unfoldable pub push : Mode → Client → Client
unfolding ask send_echo
push m c =
    let listening = record (ask c) { next_recv = 0 } in
    let due = ltb 0 m.slow_recv_ms && (not (c.next_recv == 0) && leb c.next_recv m.churn.now) in
    sender_to (send_echo m.sizes m.churn m.churn.now) (if due then listening else c)

-- A client of the game sends that it stands still.
unfoldable pub send_input : Mode → (period : ℕ) → Client → Client
unfolding next_turn send_bytes update_write
send_input m period c =
    let seq = (c.seq + 1) % 2 ^ 32 in
    let msg = input_msg (record { seq = seq; mx = pos 0; my = pos 0; attack = 0; skill = 0 }) in
    let sent = sender_to (send_bytes m.churn msg) (record c { seq = seq }) in
    let armed = if waits_to_send sent then sender_to (update_write true) sent else sent in
    if is_dead sent.sender.state
    then sent
    else next_turn m period (record armed { inputs = armed.inputs + 1 })

-- The turn of an active client.
unfoldable pub act : Mode → (period : ℕ) → Client → Client
unfolding push next_turn send_echo send_input
act m period c =
    let echoed = sender_to (send_echo m.sizes m.churn m.churn.now) c in
    if m.echo_mode && c.attacker
    then push m c
    else if ltb m.churn.now c.next_input
    then c
    else if not m.echo_mode
    then send_input m period c
    else if ltb 0 m.over_send && leb m.over_send c.sender.pending
    then next_turn m period c
    else if is_dead echoed.sender.state
    then echoed
    else next_turn m period echoed

-- One round of the loop over the clients.
unfoldable pub tend : Mode → (period : ℕ) → Place → Client → Client
unfolding start_connect note_silence act kill
tend m period p c =
    let again = start_connect m p c in
    if is_dead c.sender.state
      && (not (c.sender.reconnect_at == 0) && leb c.sender.reconnect_at m.churn.now)
    then record again { reconnects = again.reconnects + 1 }
    else if not (is_active c.sender.state)
    then c
    else if not (c.churn_at == 0) && leb c.churn_at m.churn.now
    then kill_client m false c
    else act m period (note_silence m c)

-- A `Worker`: `clients` are the first `count` ones.
pub record Team : Type 0 where
  pub id : ℕ
  pub ramp : ℕ
  pub count : ℕ
  pub next_to_connect : ℕ
  pub clients : ℕ → Client

abbrev pub at_client : ℕ → (Client → Client) → Team → Team
at_client i g t = record t { clients = update t.clients i (g (t.clients i)) }

-- One round of the ramp.
unfoldable pub ramp_one : Mode → (ℕ → Place) → Team → Team
unfolding start_connect
ramp_one m places t =
    let i = t.next_to_connect in
    let u = at_client i (start_connect m (places i)) t in
    if ltb i t.count then record u { next_to_connect = i + 1 } else t

-- The events of a batch.
unfoldable pub hear : Mode → List (ℕ × ℕ × Ready) → Team → Team
unfolding on_event
hear m [] t = t
hear m ((i, err, e) ∷ events) t = hear m events (at_client i (on_event m err e) t)

-- A round of `Loop`, without its measurements. `ramp_places` and `places` say what `socket` and `connect`
-- answer to a client that the ramp starts, and to one that comes back.
unfoldable pub turn :
    Mode → (period : ℕ) → (ramp_places places : ℕ → Place) → List (ℕ × ℕ × Ready) → Team → Team
unfolding ramp_one hear tend
turn m period ramp_places places events t =
    let ramped = for_below t.ramp (λ k. ramp_one m ramp_places) t in
    for_below t.count (λ i. at_client i (tend m period (places i))) (hear m events ramped)

-- The end of `Loop`.
unfoldable pub disband : Mode → Team → Team
unfolding kill
disband m t = for_below t.count (λ i. at_client i (kill_client m false)) t
