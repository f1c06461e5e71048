-- ===== src/RoomManager/Tick.antt =====
-- `RoomTick` and `ExitCheckAndMaybeTransfer` of RoomManager.cpp.
pub mod Players
pub mod Books
use mo_belt.Prelude.{ℕ, ◌%◌, Bool, not, ◌&&◌, ◌||◌, if◌then◌else◌, ◌==◌, Option, none, []}
use mo_belt.Double.{Fpu}
use mo_belt.RingBuffer.{Ring}
use mo_belt.Room.{Room}
use mo_belt.Sim.{sim_step, exit_zone_x}
use mo_belt.RoomManager.{Server, put_room}
use mo_belt.RoomManager.Alloc.{inc_u32}
use mo_belt.RoomManager.Input.{Routing, route_all, consume_all, sim_inputs}
use mo_belt.RoomManager.Snapshot.{send_snapshots}
use mo_belt.RoomManager.Transfer.{transfer_room}

module _ (f : Fpu) where
  -- The member at seat `i`, if any, stands in the exit zone.
  unfoldable pub has_arrived : Room → ℕ → Bool
  has_arrived room i =
      let a = room.world.actors i in
      not (room.members i).used || (a.present && not (f.lt a.x (exit_zone_x f)))

  -- The condition for the next room.
  unfoldable pub all_arrived : Room → Bool
  unfolding has_arrived
  all_arrived room =
      not (room.member_count == 0)
      && (has_arrived room 0 && (has_arrived room 1 && (has_arrived room 2 && has_arrived room 3)))

  -- The room after its inputs and one step of its world.
  unfoldable pub advance : Room → Routing → Room
  advance room t = record room {
    in_q = [];
    members = t.members;
    world = record (sim_step f room.world (sim_inputs t.members)) {
      tick = inc_u32 room.world.tick;
    };
    tick_atomic = inc_u32 room.world.tick;
  }

  module _ {Buf : Type 0} (r : Ring Buf) where
    -- `ExitCheckAndMaybeTransfer`.
    unfoldable pub exit_check : ℕ → Server Buf → Option ℕ × Server Buf
    unfolding all_arrived transfer_room
    exit_check i s =
        let stay : Option ℕ × Server Buf = (none, s) in
        let go = transfer_room f r i s in if all_arrived (s.rooms.slots i) then go else stay

    -- The tick up to the exit check.
    unfoldable pub tick_body : ℕ → Server Buf → Server Buf
    unfolding advance route_all consume_all sim_inputs send_snapshots
    tick_body i s =
        let room = s.rooms.slots i in
        let taken =
          consume_all
            (route_all room.in_q (record { members = room.members; counters = s.counters })) in
        let next = advance room taken in
        let t = record s { rooms = put_room s.rooms i next; counters = taken.counters } in
        let sent = send_snapshots r f next t in
        if not (next.world.tick % 3 == 0) || next.member_count == 0 then t else sent

    -- `RoomTick`: the slot of the new room, if the members moved on.
    unfoldable pub room_tick : ℕ → Server Buf → Option ℕ × Server Buf
    unfolding exit_check tick_body
    room_tick i s = exit_check i (tick_body i s)
