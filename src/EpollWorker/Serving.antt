-- ===== src/EpollWorker/Serving.antt =====
-- `Dispatch` of server/src/EpollWorker.cpp and what an epoll worker keeps.
use mo_belt.Prelude.{
  ℕ, ◌+◌, ◌≡◌, ◌≢◌, ◌∙◌, sym, false, not, if_cases, ◌==◌, Option, none, some, List, length, arith,
}
use mathlib.Core.Path.{subst}
use mo_belt.Double.{Fpu}
use mo_belt.RingBuffer.{Ring}
use mo_belt.Protocol.{
  echo, c2s_join, c2s_input, c2s_ping, type_code, JoinFailReason, version_mismatch, no_capacity,
  already_joined, protocol_version, join_fail_msg, pong_msg, header_bytes, read_version, read_input,
  read_client_time,
}
use mo_belt.Session.Link.{SameLink, SameLink-refl}
use mo_belt.RoomManager.{Server}
use mo_belt.RoomManager.Books.{BooksOk}
use mo_belt.RoomManager.Join.{join}
use mo_belt.RoomManager.Join.Books.{join-BooksOk}
use mo_belt.RoomManager.Join.Link.{join-SameLink, push_input-sessions}
use mo_belt.RoomManager.Input.{push_input}
use mo_belt.RoomManager.Input.Books.{push_input-BooksOk}
use mo_belt.RoomManager.Ping.{get_ping_info}
use mo_belt.EpollWorker.{World, slot, count, disconnect, send_bytes}
use mo_belt.EpollWorker.Dispatch.{refuse, reply_join, on_join, on_input, on_ping, dispatch}
use mo_belt.EpollWorker.NetOk.{NetOk}
use mo_belt.EpollWorker.Disconnecting.{disconnect-NetOk}
use mo_belt.EpollWorker.Sending.{send_bytes-NetOk}

module _ (f : Fpu) {Buf : Type 0} (r : Ring Buf) (elsewhere owned : ℕ → ℕ) (theirs : ℕ → ℕ → ℕ)
    (me : ℕ) (known : ℕ → Type 0) where
  abbrev Good : World Buf → Type 0
  Good = NetOk elsewhere owned theirs me known

  -- Another server with the same sessions cut, and books in order.
  served :
      (w : World Buf) (s : Server Buf)
      → Good w
      → BooksOk
          (λ j. elsewhere j + mo_belt.Session.Invariant.times j w.mine)
          owned
          s.rooms
          s.sessions
      → SameLink w.server.sessions s.sessions
      → Good (record w { server = s })
  served w s h books same = record {
    books = books;
    once = h.once;
    alive = λ j n. same.dead j ∙ h.alive j n;
    heard = λ j k d. h.heard j k (sym (same.dead j) ∙ d);
    bound = λ j o d e.
        h.bound j (sym (same.owner j) ∙ o) (sym (same.dead j) ∙ d) (λ n. e (same.fd j ∙ n));
    claims = λ j o d e.
        subst (λ k. theirs k j ≢ 0) (sym (same.owner j))
          (h.claims j (λ z. o (same.owner j ∙ z)) (sym (same.dead j) ∙ d) (λ n. e (same.fd j ∙ n)));
    number = h.number;
  }

  refuse-NetOk :
      (reason : JoinFailReason) (i : ℕ) (w : World Buf)
      → known i
      → Good w
      → Good (refuse r reason i w)
  unfolding refuse
  refuse-NetOk reason i w k h =
      let v = count (λ c. record c { join_fails = c.join_fails + 1 }) w in
      send_bytes-NetOk r elsewhere owned theirs me known i (join_fail_msg reason) v k (record {
        books = h.books;
        once = h.once;
        alive = h.alive;
        heard = h.heard;
        bound = h.bound;
        claims = h.claims;
        number = h.number;
      })

  reply_join-NetOk :
      (i : ℕ) (w : World Buf) (x : Option (ℕ × ℕ) × Server Buf)
      → known i
      → Good (record w { server = x.1 })
      → Good (reply_join r i w x)
  unfolding reply_join
  reply_join-NetOk i w (none, s) k h = refuse-NetOk no_capacity i (record w { server = s }) k h
  reply_join-NetOk i w (some (actor, room), s) k h =
      send_bytes-NetOk r elsewhere owned theirs me known i _ (record w { server = s }) k h

  -- A message to a session that lives.
  module _ (i : ℕ) (msg : List ℕ) (w : World Buf) (k : known i) (living : (slot w i).dead ≡ false)
      (h : Good w) where
    joined : Good (record w { server = (join f i w.server).1 })
    joined =
        served w (join f i w.server).1 h
          (join-BooksOk _ owned f i w.server h.books (λ z. h.heard i k living (omega arith)))
          (join-SameLink f i w.server)

    on_join-NetOk : Good (on_join f r i msg w)
    unfolding on_join
    on_join-NetOk =
        if_cases Good (not (length msg == 6)) (disconnect i w) _ (λ e. disconnect-NetOk i w k h)
          (λ e.
            if_cases Good (not (read_version msg == protocol_version))
              (refuse r version_mismatch i w) _ (λ e. refuse-NetOk version_mismatch i w k h)
              (λ e.
                if_cases Good (slot w i).in_room (refuse r already_joined i w)
                  (reply_join r i w (join f i w.server)) (λ e. refuse-NetOk already_joined i w k h)
                  (λ e. reply_join-NetOk i w (join f i w.server) k joined)))

    on_input-NetOk : Good (on_input i msg w)
    unfolding on_input
    on_input-NetOk =
        let m = read_input msg in
        let s = push_input i m.seq m.mx m.my m.attack m.skill w.server in
        if_cases Good (not (length msg == 12)) (disconnect i w) _ (λ e. disconnect-NetOk i w k h)
          (λ e.
            if_cases Good (not (slot w i).in_room) w (record w { server = s }) (λ e. h)
              (λ e.
                served w s h
                  (push_input-BooksOk i m.seq m.mx m.my m.attack m.skill w.server h.books)
                  (subst (SameLink w.server.sessions)
                    (sym (push_input-sessions i m.seq m.mx m.my m.attack m.skill w.server))
                    (SameLink-refl w.server.sessions))))

    on_ping-NetOk : Good (on_ping r i msg w)
    unfolding on_ping
    on_ping-NetOk =
        let x = get_ping_info w.now w.next_tick i w.server in
        let pong = pong_msg (read_client_time msg) x.0 x.1 in
        if_cases Good (not (length msg == 12)) (disconnect i w) (send_bytes r i pong w)
          (λ e. disconnect-NetOk i w k h)
          (λ e. send_bytes-NetOk r elsewhere owned theirs me known i pong w k h)

    -- Whatever the message is, an epoll worker keeps its books in dispatching it.
    pub dispatch-NetOk : Good (dispatch f r i msg w)
    unfolding dispatch
    dispatch-NetOk =
        let kind = (header_bytes msg).1 in
        if_cases Good (kind == type_code echo) (send_bytes r i msg w) _
          (λ e. send_bytes-NetOk r elsewhere owned theirs me known i msg w k h)
          (λ e.
            if_cases Good (kind == type_code c2s_join) (on_join f r i msg w) _ (λ e. on_join-NetOk)
              (λ e.
                if_cases Good (kind == type_code c2s_input) (on_input i msg w) _
                  (λ e. on_input-NetOk)
                  (λ e.
                    if_cases Good (kind == type_code c2s_ping) (on_ping r i msg w) (disconnect i w)
                      (λ e. on_ping-NetOk) (λ e. disconnect-NetOk i w k h))))
