-- ===== src/EpollWorker/Dispatch.antt =====
-- `Dispatch` of EpollWorker.cpp: what a message of a client does.
use mo_belt.Prelude.{ℕ, ◌+◌, not, if◌then◌else◌, ◌==◌, Option, none, some, List, length}
use mo_belt.Double.{Fpu}
use mo_belt.RingBuffer.{Ring}
use mo_belt.Protocol.{
  echo, c2s_join, c2s_input, c2s_ping, type_code, JoinFailReason, version_mismatch, no_capacity,
  already_joined, protocol_version, join_ok_msg, join_fail_msg, pong_msg, header_bytes,
  read_version, read_input, read_client_time,
}
use mo_belt.RoomManager.{Server}
use mo_belt.RoomManager.Join.{join}
use mo_belt.RoomManager.Input.{push_input}
use mo_belt.RoomManager.Ping.{get_ping_info}
use mo_belt.EpollWorker.{World, slot, count, disconnect, send_bytes}

module _ {Buf : Type 0} where
  -- The case of C2S_INPUT.
  unfoldable pub on_input : ℕ → List ℕ → World Buf → World Buf
  unfolding disconnect push_input read_input
  on_input i msg w =
      let m = read_input msg in
      if not (length msg == 12)
      then disconnect i w
      else if not (slot w i).in_room
      then w
      else record w { server = push_input i m.seq m.mx m.my m.attack m.skill w.server }

module _ {Buf : Type 0} (r : Ring Buf) where
  -- A join that fails.
  unfoldable pub refuse : JoinFailReason → ℕ → World Buf → World Buf
  unfolding join_fail_msg send_bytes
  refuse reason i w =
      send_bytes r i (join_fail_msg reason)
        (count (λ c. record c { join_fails = c.join_fails + 1 }) w)

  -- The reply to `Join`.
  unfoldable pub reply_join : ℕ → World Buf → Option (ℕ × ℕ) × Server Buf → World Buf
  unfolding refuse join_ok_msg send_bytes
  reply_join i w (none, s) = refuse no_capacity i (record w { server = s })
  reply_join i w (some (actor, room), s) =
      send_bytes r i (join_ok_msg actor room 0) (record w { server = s })

  -- The case of C2S_PING.
  unfoldable pub on_ping : ℕ → List ℕ → World Buf → World Buf
  unfolding disconnect get_ping_info pong_msg send_bytes read_client_time
  on_ping i msg w =
      let (tick, remain) = get_ping_info w.now w.next_tick i w.server in
      if not (length msg == 12)
      then disconnect i w
      else send_bytes r i (pong_msg (read_client_time msg) tick remain) w

module _ (f : Fpu) {Buf : Type 0} (r : Ring Buf) where
  -- The case of C2S_JOIN.
  unfoldable pub on_join : ℕ → List ℕ → World Buf → World Buf
  unfolding refuse reply_join join disconnect read_version
  on_join i msg w =
      if not (length msg == 6)
      then disconnect i w
      else if not (read_version msg == protocol_version)
      then refuse r version_mismatch i w
      else if (slot w i).in_room
      then refuse r already_joined i w
      else reply_join r i w (join f i w.server)

  -- `Dispatch`, by the type in the header.
  unfoldable pub dispatch : ℕ → List ℕ → World Buf → World Buf
  unfolding on_join on_input on_ping disconnect send_bytes header_bytes type_code
  dispatch i msg w =
      let kind = (header_bytes msg).1 in
      if kind == type_code echo
      then send_bytes r i msg w
      else if kind == type_code c2s_join
      then on_join i msg w
      else if kind == type_code c2s_input
      then on_input i msg w
      else if kind == type_code c2s_ping
      then on_ping r i msg w
      else disconnect i w
