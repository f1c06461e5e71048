-- ===== src/EpollWorker/Wire.antt =====
-- Which bytes of a session the steps of an epoll worker leave alone.
pub mod Stream
pub mod Parse
pub mod Arrival
pub mod Flush
use mo_belt.Prelude.{
  ℕ, ◌+◌, ◌≡◌, ◌∙◌, refl, ap, arith, Bool, true, false, not, if_cases, if◌then◌else◌, ltb, ◌==◌,
  Option, none, some, List, [], ◌∷◌, ◌++◌, update, update_self, length,
}
use mo_belt.Double.{Fpu}
use mo_belt.RingBuffer.{Ring}
use mo_belt.Protocol.{
  echo, c2s_join, c2s_input, c2s_ping, type_code, JoinFailReason, version_mismatch, no_capacity,
  already_joined, protocol_version, join_ok_msg, join_fail_msg, pong_msg, header_bytes,
  read_version, read_input, read_client_time,
}
use mo_belt.Session.{Session}
use mo_belt.Session.Pool.{SessionPool, release}
use mo_belt.Session.Link.{release-SameLink}
use mo_belt.RoomManager.{Server}
use mo_belt.RoomManager.Join.{on_session_leave, join}
use mo_belt.RoomManager.Join.Link.{on_session_leave-SameLink, join-SameLink, push_input-sessions}
use mo_belt.RoomManager.Input.{push_input}
use mo_belt.RoomManager.Ping.{get_ping_info}
use mo_belt.EpollWorker.{
  World, Kernel, WriteAnswer, wrote, write_again, write_interrupted, write_failed, next_ctl, slot,
  put, count, with_kernel, update_write_interest, close_fd, cut, disconnect, flush_done, note_split,
  taken, sent, note_partial, flush_on, flush_send, send_bytes,
}
use mo_belt.EpollWorker.Flushing.{update_write_interest_cases}
use mo_belt.EpollWorker.Dispatch.{refuse, reply_join, on_join, on_input, on_ping, dispatch}

module _ {Buf : Type 0} (i : ℕ) where
  -- The rings of session `i`, and what every descriptor has taken, are the same.
  pub record SameWire (w v : World Buf) : Type 0 where
    pub recv : (slot v i).recv_q ≡ (slot w i).recv_q
    pub send : (slot v i).send_q ≡ (slot w i).send_q
    pub written : v.kernel.written ≡ w.kernel.written

  pub SameWire-refl : (w : World Buf) → SameWire w w
  SameWire-refl w = record { recv = refl; send = refl; written = refl }

  pub SameWire-trans : {u v w : World Buf} → SameWire u v → SameWire v w → SameWire u w
  SameWire-trans g h = record {
    recv = h.recv ∙ g.recv;
    send = h.send ∙ g.send;
    written = h.written ∙ g.written;
  }

  -- A write to the session that leaves its rings.
  pub put-SameWire :
      (s : Session Buf) (w : World Buf)
      → s.recv_q ≡ (slot w i).recv_q
      → s.send_q ≡ (slot w i).send_q
      → SameWire w (put i s w)
  put-SameWire s w recv send =
      let at = update_self w.server.sessions.slots i s in
      record {
        recv = ap (λ t. t.recv_q) at ∙ recv;
        send = ap (λ t. t.send_q) at ∙ send;
        written = refl;
      }

  pub update_write_interest-SameWire :
      (want : Bool) (w : World Buf) → SameWire w (update_write_interest i want w)
  update_write_interest-SameWire want w =
      let p = put-SameWire (record (slot w i) { want_write = want }) w refl refl in
      update_write_interest_cases (SameWire w) i want w (λ e. SameWire-refl w)
        (λ e. record { recv = refl; send = refl; written = refl })
        (record { recv = p.recv; send = p.send; written = refl })
        (record { recv = p.recv; send = p.send; written = refl })

  close_fd-SameWire : (w : World Buf) → SameWire w (close_fd i w)
  unfolding close_fd
  close_fd-SameWire w = closing (slot w i).fd
    where
      closing :
          (fd : Option ℕ)
          → SameWire w (elim fd as (λ _. World Buf) [
            | none ↦ w
            | some fd ↦
                put i
                  (record (slot w i) { fd = none })
                  (record w {
                    kernel = record (w.kernel) { closed_fds = fd ∷ w.kernel.closed_fds };
                  })
          ])
      closing none = SameWire-refl w
      closing (some fd) =
          let p = put-SameWire (record (slot w i) { fd = none }) w refl refl in
          record { recv = p.recv; send = p.send; written = refl }

  -- The rings of a session that is cut stay as they are, until the slot is handed out again.
  pub disconnect-SameWire : (w : World Buf) → SameWire w (disconnect i w)
  unfolding disconnect cut
  disconnect-SameWire w =
      let v = put i (record (slot w i) { dead = true }) w in
      let p =
        SameWire-trans (put-SameWire (record (slot w i) { dead = true }) w refl refl)
          (close_fd-SameWire v) in
      let d = close_fd i v in
      let left = on_session_leave i d.server in
      let a = on_session_leave-SameLink i d.server in
      let b = release-SameLink left.sessions i in
      if_cases (SameWire w) (slot w i).dead w (cut i w) (λ e. SameWire-refl w)
        (λ e. record {
          recv = b.recv i ∙ a.recv i ∙ p.recv;
          send = b.send i ∙ a.send i ∙ p.send;
          written = p.written;
        })
