-- ===== src/EpollWorker/Wire/Stream.antt =====
-- `ParseFrames` of server/src/EpollWorker.cpp against the messages of the byte stream.
use mo_belt.Prelude.{
  ℕ, ◌+◌, ◌≡◌, ◌∙◌, ap, arith, true, false, not, if_cases, if◌then◌else◌, ◌==◌, Option, none, some,
  List, update_self, length,
}
use mo_belt.Double.{Fpu}
use mo_belt.RingBuffer.{Ring}
use mo_belt.Protocol.{
  echo, c2s_join, c2s_input, c2s_ping, type_code, JoinFailReason, version_mismatch, no_capacity,
  already_joined, protocol_version, join_fail_msg, pong_msg, header_bytes, read_version, read_input,
  read_client_time,
}
use mo_belt.RoomManager.{Server}
use mo_belt.RoomManager.Join.{join}
use mo_belt.RoomManager.Join.Link.{join-SameLink, push_input-sessions}
use mo_belt.RoomManager.Input.{push_input}
use mo_belt.RoomManager.Ping.{get_ping_info}
use mo_belt.EpollWorker.{World, slot, put, count, disconnect, sent, flush_send, send_bytes}
use mo_belt.EpollWorker.Dispatch.{refuse, reply_join, on_join, on_input, on_ping, dispatch}
use mo_belt.EpollWorker.Flushing.{Sends, note_split-slot, flush_done_inv, flush_send_inv}
use mo_belt.EpollWorker.Wire.{update_write_interest-SameWire, disconnect-SameWire}

module _ {Buf : Type 0} (r : Ring Buf) (i : ℕ) (q : Buf) where
  -- What session `i` has received and not yet parsed.
  abbrev Unparsed : World Buf → Type 0
  Unparsed w = (slot w i).recv_q ≡ q

  sent-recv : (n : ℕ) (w : World Buf) → (slot (sent r n i w) i).recv_q ≡ (slot w i).recv_q
  unfolding sent
  sent-recv n w = ground arith

  Unparsed-Sends : Sends r Unparsed Unparsed i
  Unparsed-Sends = record {
    done = λ w z h.
        flush_done_inv r Unparsed i w h ((update_write_interest-SameWire i false w).recv ∙ h);
    waits = λ w h. (update_write_interest-SameWire i true w).recv ∙ h;
    split = λ w h. ap (λ s. s.recv_q) (note_split-slot r i w) ∙ h;
    answered = λ rest w h. h;
    moved = λ more w v same h. sent-recv _ v ∙ h;
    partial = λ w h. h;
    cut = λ w h. (disconnect-SameWire i w).recv ∙ h;
  }

  send_bytes-Unparsed :
      (msg : List ℕ) (w : World Buf) → Unparsed w → Unparsed (send_bytes r i msg w)
  unfolding send_bytes
  send_bytes-Unparsed msg w h =
      let s = slot w i in
      let x = r.enqueue s.send_q msg in
      let v = put i (record s { send_q = x.1 }) w in
      let full = count (λ c. record c { send_ring_full = c.send_ring_full + 1 }) v in
      let same : Unparsed v = ap (λ t. t.recv_q) (update_self w.server.sessions.slots i _) ∙ h in
      if_cases Unparsed (x.0 == 0) (disconnect i full) (flush_send r i v)
        (λ e. (disconnect-SameWire i full).recv ∙ same)
        (λ e. flush_send_inv r Unparsed Unparsed i Unparsed-Sends v same)

  cut-Unparsed : (w : World Buf) → Unparsed w → Unparsed (disconnect i w)
  cut-Unparsed w h = (disconnect-SameWire i w).recv ∙ h

  refuse-Unparsed :
      (reason : JoinFailReason) (w : World Buf) → Unparsed w → Unparsed (refuse r reason i w)
  unfolding refuse
  refuse-Unparsed reason w h =
      send_bytes-Unparsed (join_fail_msg reason)
        (count (λ c. record c { join_fails = c.join_fails + 1 }) w) h

  reply_join-Unparsed :
      (w : World Buf) (x : Option (ℕ × ℕ) × Server Buf)
      → (x.1.sessions.slots i).recv_q ≡ q
      → Unparsed (reply_join r i w x)
  unfolding reply_join
  reply_join-Unparsed w (none, s) h = refuse-Unparsed no_capacity (record w { server = s }) h
  reply_join-Unparsed w (some (actor, room), s) h =
      send_bytes-Unparsed _ (record w { server = s }) h

  on_input-Unparsed : (msg : List ℕ) (w : World Buf) → Unparsed w → Unparsed (on_input i msg w)
  unfolding on_input
  on_input-Unparsed msg w h =
      let m = read_input msg in
      let s = push_input i m.seq m.mx m.my m.attack m.skill w.server in
      if_cases Unparsed (not (length msg == 12)) (disconnect i w)
        (if not (slot w i).in_room then w else record w { server = s }) (λ e. cut-Unparsed w h)
        (λ e.
          if_cases Unparsed (not (slot w i).in_room) w (record w { server = s }) (λ e. h)
            (λ e.
              ap (λ p. (p.slots i).recv_q)
                (push_input-sessions i m.seq m.mx m.my m.attack m.skill w.server)
              ∙ h))

  on_ping-Unparsed : (msg : List ℕ) (w : World Buf) → Unparsed w → Unparsed (on_ping r i msg w)
  unfolding on_ping
  on_ping-Unparsed msg w h =
      let x = get_ping_info w.now w.next_tick i w.server in
      let pong = pong_msg (read_client_time msg) x.0 x.1 in
      if_cases Unparsed (not (length msg == 12)) (disconnect i w) (send_bytes r i pong w)
        (λ e. cut-Unparsed w h) (λ e. send_bytes-Unparsed pong w h)

  module _ (f : Fpu) (msg : List ℕ) (w : World Buf) (h : Unparsed w) where
    on_join-Unparsed : Unparsed (on_join f r i msg w)
    unfolding on_join
    on_join-Unparsed =
        if_cases Unparsed (not (length msg == 6)) (disconnect i w) _ (λ e. cut-Unparsed w h)
          (λ e.
            if_cases Unparsed (not (read_version msg == protocol_version))
              (refuse r version_mismatch i w) _ (λ e. refuse-Unparsed version_mismatch w h)
              (λ e.
                if_cases Unparsed (slot w i).in_room (refuse r already_joined i w)
                  (reply_join r i w (join f i w.server)) (λ e. refuse-Unparsed already_joined w h)
                  (λ e.
                    reply_join-Unparsed w (join f i w.server)
                      ((join-SameLink f i w.server).recv i ∙ h))))

    -- A message does not touch the bytes behind it.
    pub dispatch-Unparsed : Unparsed (dispatch f r i msg w)
    unfolding dispatch
    dispatch-Unparsed =
        let kind = (header_bytes msg).1 in
        if_cases Unparsed (kind == type_code echo) (send_bytes r i msg w) _
          (λ e. send_bytes-Unparsed msg w h)
          (λ e.
            if_cases Unparsed (kind == type_code c2s_join) (on_join f r i msg w) _
              (λ e. on_join-Unparsed)
              (λ e.
                if_cases Unparsed (kind == type_code c2s_input) (on_input i msg w) _
                  (λ e. on_input-Unparsed msg w h)
                  (λ e.
                    if_cases Unparsed (kind == type_code c2s_ping) (on_ping r i msg w)
                      (disconnect i w) (λ e. on_ping-Unparsed msg w h) (λ e. cut-Unparsed w h))))
