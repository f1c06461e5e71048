-- ===== src/RoomManager/Join.antt =====
-- `Join` and `OnSessionLeave` of RoomManager.cpp.
pub mod Seek
pub mod Books
pub mod Leave
pub mod Link
use mo_belt.Prelude.{
  ℕ, ◌+◌, Bool, true, false, not, ◌||◌, if◌then◌else◌, leb, ◌==◌, Option, none, some, List, [], ◌∷◌,
  ◌++◌, update,
}
use mo_belt.Double.{Fpu}
use mo_belt.Room.{Room, RoomJoinEntry, RoomLeaveEntry, room_members}
use mo_belt.Session.Pool.{add_ref, put_slot}
use mo_belt.RoomManager.{Server, put_room}
use mo_belt.RoomManager.Alloc.{alloc_slot}

-- The first free seat.
unfoldable pub free_seat : (ℕ → Bool) → Option ℕ
free_seat used =
    if not (used 0)
    then some 0
    else if not (used 1)
    then some 1
    else if not (used 2)
    then some 2
    else if not (used 3)
    then some 3
    else none

-- The walk over the open rooms from the back: the room and seat found, and the list that is left,
-- with the found room on top.
unfoldable pub seek_room : (ℕ → Room) → List ℕ → Option (ℕ × ℕ) × List ℕ
seek_room slots [] = (none, [])
seek_room slots (r ∷ rest) = elim (if (slots r).dead then none else free_seat (slots r).seat_used) [
  | some seat ↦ (some (r, seat), r ∷ rest)
  | none ↦ seek_room slots rest
]

-- `_openRooms.pop_back()`.
abbrev pub drop_back : List ℕ → List ℕ
drop_back [] = []
drop_back (r ∷ rest) = rest

-- A seat in the ledger.
unfoldable pub reserve : ℕ → Room → Room
reserve seat r = record r {
  seat_used = update r.seat_used seat true;
  ever_reserved = true;
  reserved_seats = r.reserved_seats + 1;
}

module _ {Buf : Type 0} where
  -- Seat 0 of a new room.
  unfoldable pub found_room : Option ℕ × Server Buf → Option (ℕ × ℕ) × Server Buf
  found_room (none, t) = (none, t)
  found_room (some r, t) =
      let room = t.rooms.slots r in
      (
        some (r, 0),
        record t {
          rooms = record (t.rooms) {
            slots = update t.rooms.slots r (record room {
              seat_used = update room.seat_used 0 true;
              ever_reserved = true;
              reserved_seats = 1;
            });
            open_rooms = room.idx ∷ t.rooms.open_rooms;
          };
        },
      )

  -- The session's reference and join entry, and its own note of the seat.
  unfoldable pub admit : ℕ → Option (ℕ × ℕ) × Server Buf → Option (ℕ × ℕ) × Server Buf
  admit i (none, t) = (none, t)
  admit i (some (r, seat), t) =
      let pool = add_ref t.sessions i in
      let session = pool.slots i in
      let room = t.rooms.slots r in
      let entry : RoomJoinEntry = record {
        sess_idx = session.idx;
        sess_gen = session.gen;
        actor_id = seat;
      } in
      (
        some (seat, room.idx),
        record t {
          rooms =
              put_room t.rooms r (record room { pending_join = room.pending_join ++ entry ∷ [] });
          sessions =
              put_slot pool i
                (record session { in_room = true; room_idx = room.idx; actor_id = seat });
          counters = record (t.counters) { joins = t.counters.joins + 1 };
        },
      )

  -- `OnSessionLeave`: only the entry; the game worker does the rest.
  unfoldable pub on_session_leave : ℕ → Server Buf → Server Buf
  on_session_leave i s =
      let session = s.sessions.slots i in
      let r = session.room_idx in
      let room = s.rooms.slots r in
      let entry : RoomLeaveEntry = record { sess_idx = session.idx; sess_gen = session.gen } in
      if not session.in_room || leb s.rooms.cap r then s else record s {
        rooms =
            put_room s.rooms r (record room { pending_leave = room.pending_leave ++ entry ∷ [] });
        sessions = put_slot s.sessions i (record session { in_room = false });
      }

module _ (f : Fpu) {Buf : Type 0} where
  -- The room and seat for a newcomer, reserved: what the walk found, or a new room.
  unfoldable pub sit : Server Buf → Option (ℕ × ℕ) × List ℕ → Option (ℕ × ℕ) × Server Buf
  unfolding reserve found_room alloc_slot
  sit s (some (r, seat), left) =
      let room = reserve seat (s.rooms.slots r) in
      (
        some (r, seat),
        record s {
          rooms = record (s.rooms) {
            slots = update s.rooms.slots r room;
            open_rooms = if room.reserved_seats == room_members then drop_back left else left;
          };
        },
      )
  sit s (none, left) =
      found_room (alloc_slot f 0 true (record s { rooms = record (s.rooms) { open_rooms = left } }))

  unfoldable pub find_seat : Server Buf → Option (ℕ × ℕ) × Server Buf
  unfolding seek_room sit
  find_seat s = sit s (seek_room s.rooms.slots s.rooms.open_rooms)

  -- `Join`: the actor id and the room number that go to the client, or none.
  unfoldable pub join : ℕ → Server Buf → Option (ℕ × ℕ) × Server Buf
  unfolding find_seat admit
  join i s = if s.rooms.worker_count == 0 then (none, s) else admit i (find_seat s)
