-- ===== src/Dummy/Client.antt =====
-- A client of the load generator (dummy/dummy_main.cpp) between two events: what it receives and what
-- it makes of it. The clock stands still while one event is handled. Which events its socket is
-- registered for is not kept, only the answers of `epoll_ctl`.
pub mod Parsing
pub mod Echoes
pub mod Room
pub mod Counted
pub mod Tending
pub mod Turn
pub mod Loop
use mo_belt.Prelude.{
  ℕ, zero, suc, ◌+◌, ◌-◌, ◌*◌, Bool, true, false, ◌&&◌, ◌||◌, not, if◌then◌else◌, ltb, ◌==◌, Option,
  none, some, List, [], ◌∷◌, ◌++◌, length, take, skip,
}
use mo_belt.Prelude.Int.{pos, ◌+ℤ◌}
use mo_belt.Protocol.{
  join_msg, header_bytes, header_size, max_packet_size, protocol_version, type_code, echo, c2s_join,
  s2c_join_ok, s2c_join_fail, s2c_snapshot,
}
use mo_belt.EpollWorker.{
  ReadAnswer, bytes, closed, read_again, read_interrupted, read_failed, next_ctl,
}
use mo_belt.EpollWorker.Frames.{bad_size}
use mo_belt.Dummy.{Settings, Checker, on_echo}
use mo_belt.Dummy.Send.{
  Sender, Churn, CState, connecting, joining, active, dead, is_dead, is_active, kill, send_bytes,
  flush_pend, update_write,
}

-- `g_echoMode`, `g_attackSendQ`, `g_slowRecvMs`, `g_overSend` and `g_echoTimeoutMs`, with the settings of
-- the packets and of reconnecting.
pub record Mode : Type 0 where
  pub sizes : Settings
  pub churn : Churn
  pub echo_mode : Bool
  pub attack_send_q : ℕ
  pub slow_recv_ms : ℕ
  pub over_send : ℕ
  pub echo_timeout_ms : ℕ

-- A `Client`, with the counters that it moves and the answers to its reads. `sender` and `checker` both
-- have its seed and its `pending`. `recv` is what `recvBuf` holds.
pub record Client : Type 0 where
  pub sender : Sender
  pub checker : Checker
  pub attacker : Bool
  pub seq : ℕ
  pub next_input : ℕ
  pub next_recv : ℕ
  pub churn_at : ℕ
  pub recv : List ℕ
  pub reads : List ReadAnswer
  pub join_ok : ℕ
  pub join_fail : ℕ
  pub connect_fail : ℕ
  pub snapshots : ℕ
  pub inputs : ℕ
  pub echo_not_recv : ℕ
  pub reconnects : ℕ

-- `sizeof(c.recvBuf)`.
abbrev pub recv_size : ℕ
recv_size = 4096

abbrev pub kill_client : Mode → Bool → Client → Client
kill_client m by_server c = record c { sender = kill m.churn by_server c.sender }

-- `Joining` becomes `Active`, and so does a client of the echo mode.
unfoldable pub activate : Client → Client
unfolding ◌+ℤ◌
activate c = record c {
  sender = record (c.sender) { state = active; active_count = c.sender.active_count +ℤ pos 1 };
  join_ok = c.join_ok + 1;
}

abbrev pub is_joining : CState → Bool
is_joining joining = true
is_joining s = false

-- The case of ECHO, with the two copies of `pending` kept in step.
unfoldable pub take_echo : Mode → List ℕ → Client → Client
unfolding on_echo
take_echo m msg c =
    let k =
      on_echo m.sizes m.churn.now msg
        (record (c.checker) { seed = c.sender.seed; pending = c.sender.pending; killed = false }) in
    record c { checker = k; sender = record (c.sender) { pending = k.pending } }

-- One message: the client, and whether `ParseFrames` returns at once.
unfoldable pub take_frame : Mode → List ℕ → Client → Bool × Client
unfolding take_echo activate kill header_bytes
take_frame m msg c =
    let kind = (header_bytes msg).1 in
    let checked = take_echo m msg c in
    if kind == type_code echo
    then (
      checked.checker.killed,
      if checked.checker.killed then kill_client m false checked else checked,
    )
    else if kind == type_code s2c_join_ok
    then (false, if is_joining c.sender.state then activate c else c)
    else if kind == type_code s2c_join_fail
    then (true, kill_client m false (record c { join_fail = c.join_fail + 1 }))
    else if kind == type_code s2c_snapshot
    then (false, record c { snapshots = c.snapshots + 1 })
    else (false, c)

-- The loop of `ParseFrames` on the bytes that are left; a round for each byte, and one more, is enough.
unfoldable pub parse_on : Mode → ℕ → List ℕ → Client → Client
unfolding take_frame kill header_bytes
parse_on m zero left c = record c { recv = left }
parse_on m (suc fuel) left c =
    let size = (header_bytes left).0 in
    let (ends, d) = take_frame m (take size left) c in
    let more = parse_on m fuel (skip size left) d in
    if ltb (length left) header_size
    then record c { recv = left }
    else if bad_size size
    then kill_client m false c
    else if ltb (length left) size
    then record c { recv = left }
    else if ends
    then d
    else more

-- `ParseFrames`.
unfoldable pub parse_frames : Mode → Client → Client
unfolding parse_on
parse_frames m c = parse_on m (length c.recv + 1) c.recv c

-- An attacker that reads a little at times.
abbrev pub is_slow : Mode → Client → Bool
is_slow m c = c.attacker && ltb 0 m.slow_recv_ms

-- How much `OnReadable` asks for.
unfoldable pub room_for : Mode → Client → ℕ
room_for m c =
    let free = recv_size - length c.recv in
    if is_slow m c then if ltb free 2048 then free else 2048 else free

-- `OnReadable`, by the answers to `read`.
unfoldable pub read_on : Mode → List ReadAnswer → Client → Client
unfolding parse_frames room_for kill
read_on m [] c = if length c.recv == recv_size then kill_client m false c else c
read_on m (bytes b l ∷ rest) c =
    let u =
      parse_frames m (record c { reads = rest; recv = c.recv ++ take (room_for m c) (b ∷ l) }) in
    let more = read_on m rest u in
    if length c.recv == recv_size
    then kill_client m false c
    else if is_dead u.sender.state
    then u
    else if is_slow m u
    then u
    else more
read_on m (closed ∷ rest) c =
    if length c.recv == recv_size
    then kill_client m false c
    else kill_client m true (record c { reads = rest })
read_on m (read_again ∷ rest) c =
    if length c.recv == recv_size then kill_client m false c else record c { reads = rest }
read_on m (read_interrupted ∷ rest) c =
    let more = read_on m rest (record c { reads = rest }) in
    if length c.recv == recv_size then kill_client m false c else more
read_on m (read_failed ∷ rest) c =
    if length c.recv == recv_size
    then kill_client m false c
    else kill_client m true (record c { reads = rest })

unfoldable pub on_readable : Mode → Client → Client
unfolding read_on kill
on_readable m c = elim c.sender.fd [
  | none ↦ kill_client m (not (length c.recv == recv_size)) c
  | some fd ↦ read_on m c.reads c
]

-- A call of `epoll_ctl` whose answer is ignored.
unfoldable pub ask : Client → Client
unfolding next_ctl
ask c = record c { sender = record (c.sender) { ctls = (next_ctl c.sender.ctls).1 } }

-- The next time that a slow consumer reads.
abbrev pub read_later : Mode → Client → Client
read_later m c = record c { next_recv = m.churn.now + m.slow_recv_ms * 1000000 }

abbrev pub sender_to : (Sender → Sender) → Client → Client
sender_to g c = record c { sender = g c.sender }

abbrev pub waits_to_send : Client → Bool
waits_to_send c = not (length c.sender.pend == 0)

-- The socket of a client that connects is ready: `err` is its `SO_ERROR`.
unfoldable pub on_connected : Mode → (err : ℕ) → Client → Client
unfolding kill activate ask send_bytes update_write
on_connected m err c =
    let failed = kill_client m false c in
    let here = activate c in
    let deaf = sender_to (λ s. record s { want_write = false }) (ask here) in
    let asked = sender_to (send_bytes m.churn (join_msg protocol_version)) c in
    let joins = sender_to (λ s. record s { state = joining }) asked in
    if not (err == 0)
    then record failed { connect_fail = failed.connect_fail + 1 }
    else if m.echo_mode
    then if c.attacker
      then if ltb 0 m.slow_recv_ms then read_later m deaf else deaf
      else sender_to (update_write (waits_to_send here)) here
    else sender_to (update_write (waits_to_send joins)) joins
