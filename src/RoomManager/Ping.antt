-- ===== src/RoomManager/Ping.antt =====
-- `GetPingInfo` of RoomManager.cpp.
use mo_belt.Prelude.{ℕ, ◌-◌, ◌/◌, ◌%◌, ◌^◌, not, ◌||◌, if◌then◌else◌, ltb, leb}
use mo_belt.RoomManager.{Server}

module _ {Buf : Type 0} where
  -- The tick of the session's room, and the microseconds until its worker's next tick. `now` is the
  -- clock, and `next_tick` what the game workers publish.
  unfoldable pub get_ping_info : (now : ℕ) (next_tick : ℕ → ℕ) → ℕ → Server Buf → ℕ × ℕ
  get_ping_info now next_tick i s =
      let session = s.sessions.slots i in
      let r = session.room_idx in
      let room = s.rooms.slots r in
      let next = next_tick room.game_worker in
      if not session.in_room || leb s.rooms.cap r
      then (0, 0)
      else (room.tick_atomic, if ltb now next then ((next - now) / 1000) % 2 ^ 32 else 0)
