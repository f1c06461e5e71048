-- ===== src/EpollWorker.antt =====
-- server/src/EpollWorker.h and EpollWorker.cpp: the thread that owns sockets. This file has its
-- state, the answers of the kernel, and the sending half with `Disconnect`.
pub mod Dispatch
pub mod Errors
pub mod Frames
pub mod Flushing
pub mod Wire
pub mod Read
pub mod Loop
pub mod NetOk
pub mod Disconnecting
pub mod Sending
pub mod Serving
pub mod Reading
pub mod Rounds
use mo_belt.Prelude.{
  take, ℕ, ◌+◌, ◌-◌, ◌*◌, ◌/◌, ◌%◌, ◌^◌, Bool, true, false, not, ◌&&◌, if◌then◌else◌, ltb, leb,
  ◌==◌, Option, none, some, List, [], ◌∷◌, ◌++◌, update, length,
}
use mo_belt.RingBuffer.{Ring}
use mo_belt.Metrics.{Counters}
use mo_belt.Session.{Session}
use mo_belt.Session.Pool.{put_slot, release}
use mo_belt.RoomManager.{Server}
use mo_belt.RoomManager.Join.{on_session_leave}
use mo_belt.RoomManager.Queues.{swap_remove}

-- What `read` returns: a byte and others, of which it hands over as many as were asked for at most; the end
-- of the stream; or an error.
pub data ReadAnswer : Type 0 where
  bytes : ℕ → List ℕ → ReadAnswer
  closed read_again read_interrupted read_failed : ReadAnswer

-- What `write` returns: one byte and `more` others, but at most what was handed over; or an error.
pub data WriteAnswer : Type 0 where
  wrote : ℕ → WriteAnswer
  write_again write_interrupted write_failed : WriteAnswer

pub data AcceptAnswer : Type 0 where
  accepted : ℕ → AcceptAnswer
  accept_interrupted accept_again : AcceptAnswer

-- The kernel: its answers to come. Past the end of a list a `read`, `write` or `accept4` would block,
-- and an `epoll_ctl` succeeds. `written` is what each descriptor has taken, `closed_fds` those that
-- were closed, the last one first.
pub record Kernel : Type 0 where
  pub reads : List ReadAnswer
  pub writes : List WriteAnswer
  pub accepts : List AcceptAnswer
  pub ctls : List Bool
  pub written : ℕ → List ℕ
  pub closed_fds : List ℕ

-- An `EpollWorker` with all that it reads and writes. The head of `mine` is the back of
-- `_mySessions`; `now` is the clock and `next_tick` what the game workers publish.
pub record World (Buf : Type 0) : Type 0 where
  pub id : ℕ
  pub mine : List ℕ
  pub listening : Bool
  pub polling : Bool
  pub kernel : Kernel
  pub now : ℕ
  pub next_tick : ℕ → ℕ
  pub server : Server Buf

-- The answer to an `epoll_ctl`, and the answers to come.
unfoldable pub next_ctl : List Bool → Bool × List Bool
next_ctl [] = (true, [])
next_ctl (b ∷ bs) = (b, bs)

module _ {Buf : Type 0} where
  abbrev pub slot : World Buf → ℕ → Session Buf
  slot w i = w.server.sessions.slots i

  -- A write through `Session& s`.
  abbrev pub put : ℕ → Session Buf → World Buf → World Buf
  put i s w = record w { server = record (w.server) { sessions = put_slot w.server.sessions i s } }

  abbrev pub with_kernel : (Kernel → Kernel) → World Buf → World Buf
  with_kernel g w = record w { kernel = g w.kernel }

  abbrev pub count : (Counters → Counters) → World Buf → World Buf
  count g w = record w { server = record (w.server) { counters = g w.server.counters } }

  abbrev pub note_partial : World Buf → World Buf
  note_partial w = count (λ c. record c { partial_send = c.partial_send + 1 }) w

  -- `UpdateWriteInterest`.
  unfoldable pub update_write_interest : ℕ → Bool → World Buf → World Buf
  unfolding next_ctl
  update_write_interest i want w =
      let s = slot w i in
      let (ok, ctls) = next_ctl w.kernel.ctls in
      let asked = with_kernel (λ k. record k { ctls = ctls }) w in
      let set = put i (record s { want_write = want }) asked in
      let armed = count (λ c. record c { epollout_arm = c.epollout_arm + 1 }) set in
      if (if want then s.want_write else not s.want_write)
      then w
      else if not ok
      then asked
      else if want
      then armed
      else set

  -- `close(s.fd); s.fd = -1`, if there is one.
  unfoldable pub close_fd : ℕ → World Buf → World Buf
  close_fd i w =
      let s = slot w i in
      elim s.fd [
        | none ↦ w
        | some fd ↦
            put i (record s { fd = none })
              (with_kernel (λ k. record k { closed_fds = fd ∷ k.closed_fds }) w)
      ]

  -- What `Disconnect` does to a session that lives.
  unfoldable pub cut : ℕ → World Buf → World Buf
  unfolding close_fd on_session_leave swap_remove release
  cut i w =
      let dead = close_fd i (put i (record (slot w i) { dead = true }) w) in
      let left = on_session_leave i dead.server in
      let c = left.counters in
      record dead {
        mine = swap_remove (left.sessions.slots i).idx dead.mine;
        server = record left {
          counters = record c { disconnects = c.disconnects + 1 };
          sessions = release left.sessions i;
        };
      }

  -- `Disconnect`.
  unfoldable pub disconnect : ℕ → World Buf → World Buf
  unfolding cut
  disconnect i w = if (slot w i).dead then w else cut i w

module _ {Buf : Type 0} (r : Ring Buf) where
  -- `FlushSend` at an empty ring.
  unfoldable pub flush_done : ℕ → World Buf → World Buf
  unfolding update_write_interest
  flush_done i w = if (slot w i).want_write then update_write_interest i false w else w

  -- The count of a ring that wraps, in each round.
  unfoldable pub note_split : ℕ → World Buf → World Buf
  note_split i w =
      let q = (slot w i).send_q in
      if ltb (r.direct_read_size q) (r.data_size q)
      then count (λ c. record c { ring_split_send = c.ring_split_send + 1 }) w
      else w

  -- The bytes that a `write` takes, where it takes 1 + `more` if it can.
  unfoldable pub taken : ℕ → ℕ → World Buf → ℕ
  taken more i w =
      let direct = r.direct_read_size (slot w i).send_q in
      if ltb (more + 1) direct then more + 1 else direct

  -- `n` bytes have gone to the socket.
  unfoldable pub sent : ℕ → ℕ → World Buf → World Buf
  sent n i w =
      let s = slot w i in
      let log : World Buf = elim s.fd [
        | none ↦ w
        | some fd ↦
            with_kernel
              (λ k. record k {
                written = update k.written fd (k.written fd ++ take n (r.send_bytes s.send_q));
              })
              w
      ] in
      count (λ c. record c { send_bytes = c.send_bytes + n })
        (put i (record s { send_q = r.consume s.send_q n }) log)

  -- `FlushSend`, by the answers to `write`: each round takes one.
  unfoldable pub flush_on : List WriteAnswer → ℕ → World Buf → World Buf
  unfolding flush_done note_split sent taken update_write_interest disconnect
  flush_on [] i w =
      let more = update_write_interest i true (note_split i w) in
      if r.data_size (slot w i).send_q == 0 then flush_done i w else more
  flush_on (write_again ∷ rest) i w =
      let v = with_kernel (λ k. record k { writes = rest }) (note_split i w) in
      if r.data_size (slot w i).send_q == 0 then flush_done i w else update_write_interest i true v
  flush_on (write_interrupted ∷ rest) i w =
      let v = with_kernel (λ k. record k { writes = rest }) (note_split i w) in
      let more = flush_on rest i v in
      if r.data_size (slot w i).send_q == 0 then flush_done i w else more
  flush_on (write_failed ∷ rest) i w =
      let v = with_kernel (λ k. record k { writes = rest }) (note_split i w) in
      if r.data_size (slot w i).send_q == 0 then flush_done i w else disconnect i v
  flush_on (wrote k ∷ rest) i w =
      let v = with_kernel (λ k. record k { writes = rest }) (note_split i w) in
      let n = taken k i w in
      let u = sent n i v in
      let more = flush_on rest i u in
      if r.data_size (slot w i).send_q == 0
      then flush_done i w
      else if ltb n (r.direct_read_size (slot w i).send_q)
      then update_write_interest i true (note_partial u)
      else more

  -- `FlushSend`.
  unfoldable pub flush_send : ℕ → World Buf → World Buf
  unfolding flush_on
  flush_send i w = flush_on w.kernel.writes i w

  -- `SendBytes`.
  unfoldable pub send_bytes : ℕ → List ℕ → World Buf → World Buf
  unfolding flush_send disconnect
  send_bytes i msg w =
      let s = slot w i in
      let (n, q) = r.enqueue s.send_q msg in
      let v = put i (record s { send_q = q }) w in
      let full = count (λ c. record c { send_ring_full = c.send_ring_full + 1 }) v in
      if n == 0 then disconnect i full else flush_send i v
