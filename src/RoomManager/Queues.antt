-- ===== src/RoomManager/Queues.antt =====
-- `ProcessRoomQueues` of RoomManager.cpp: the joins first, then the leaves, then the death of a
-- room that has emptied.
pub mod Seats
pub mod References
pub mod Process
use mo_belt.Prelude.{
  ℕ, ◌+◌, ◌-◌, Bool, true, false, not, ◌&&◌, ◌||◌, if◌then◌else◌, ◌==◌, Option, none, some, List,
  [], ◌∷◌, update,
}
use mo_belt.Double.{Fpu}
use mo_belt.Room.{Room, Member, RoomJoinEntry, RoomLeaveEntry, no_member, spawn_player}
use mo_belt.Session.Pool.{SessionPool, release}
use mo_belt.RoomManager.{Server, put_room}
use mo_belt.RoomManager.Alloc.{free_room, dec_u32}

-- What the handlers of an entry change: the room and the sessions.
pub record Work (Buf : Type 0) : Type 0 where
  pub room : Room
  pub sessions : SessionPool Buf

-- A seat given back to the ledger. `reservedSeats` is at least 1 there (`SeatsOk`).
unfoldable pub give_back : ℕ → Room → Room
give_back seat r = record r {
  seat_used = update r.seat_used seat false;
  reserved_seats = r.reserved_seats - 1;
}

-- A new member at its seat, with its actor on the spawn point.
unfoldable pub seat_member : Fpu → RoomJoinEntry → ℕ → Room → Room
seat_member f e owner r = record r {
  members = update r.members e.actor_id (record no_member {
    used = true;
    sess_idx = e.sess_idx;
    sess_gen = e.sess_gen;
    sess_owner = owner;
  });
  member_count = r.member_count + 1;
  world = record (r.world) {
    actors = update r.world.actors e.actor_id (spawn_player f e.actor_id);
  };
}

-- Whether a member is the session that an entry names.
unfoldable pub is_member : RoomLeaveEntry → Member → Bool
is_member e m = m.used && m.sess_idx == e.sess_idx && m.sess_gen == e.sess_gen

-- The first seat of the session that leaves.
unfoldable pub find_member : RoomLeaveEntry → (ℕ → Member) → Option ℕ
unfolding is_member
find_member e m =
    if is_member e (m 0)
    then some 0
    else if is_member e (m 1)
    then some 1
    else if is_member e (m 2)
    then some 2
    else if is_member e (m 3)
    then some 3
    else none

-- A member and its actor taken out.
unfoldable pub unseat : ℕ → Room → Room
unseat i r = record r {
  members = update r.members i (record (r.members i) { used = false });
  member_count = r.member_count - 1;
  world = record (r.world) {
    actors = update r.world.actors i (record (r.world.actors i) { present = false });
  };
}

module _ {Buf : Type 0} where
  -- Whether the session of an entry is gone: recycled, or cut already.
  unfoldable pub is_stale : SessionPool Buf → RoomJoinEntry → Bool
  is_stale p e = let s = p.slots e.sess_idx in not (s.gen == e.sess_gen) || s.dead

  -- One round of the loop over `joins`.
  unfoldable pub apply_join : Fpu → RoomJoinEntry → Work Buf → Work Buf
  unfolding give_back seat_member is_stale
  apply_join f e w =
      if is_stale w.sessions e
      then record { room = give_back e.actor_id w.room; sessions = release w.sessions e.sess_idx }
      else record w { room = seat_member f e (w.sessions.slots e.sess_idx).owner w.room }

  unfoldable pub apply_joins : Fpu → List RoomJoinEntry → Work Buf → Work Buf
  apply_joins f [] w = w
  apply_joins f (e ∷ es) w = apply_joins f es (apply_join f e w)

  -- One round of the loop over `leaves`.
  unfoldable pub apply_leave : RoomLeaveEntry → Work Buf → Work Buf
  unfolding find_member unseat give_back
  apply_leave e w = elim (find_member e w.room.members) [
    | none ↦ w
    | some i ↦ record {
      room = give_back i (unseat i w.room);
      sessions = release w.sessions e.sess_idx;
    }
  ]

  unfoldable pub apply_leaves : List RoomLeaveEntry → Work Buf → Work Buf
  apply_leaves [] w = w
  apply_leaves (e ∷ es) w = apply_leaves es (apply_leave e w)

  -- The entries of both queues, taken out and applied.
  unfoldable pub drain_queues : Fpu → Work Buf → Work Buf
  unfolding apply_joins apply_leaves
  drain_queues f w = apply_leaves w.room.pending_leave (
      apply_joins f w.room.pending_join
        (record w { room = record (w.room) { pending_join = []; pending_leave = [] } }))

abbrev pub is_empty {ℓ} : {A : Type ℓ} → List A → Bool
is_empty [] = true
is_empty (_ ∷ _) = false

-- The test for the death of a room.
unfoldable pub is_drained : Room → Bool
is_drained r = not r.dead && r.ever_reserved && r.reserved_seats == 0 && is_empty r.pending_join

-- `v[i] = v.back(); v.pop_back();` at the first `x` from the front. The list holds the vector from
-- the back, `b` is its back, and the result is what stands below `b`.
unfoldable pub fill_gap : ℕ → ℕ → List ℕ → Option (List ℕ)
fill_gap x b [] = none
fill_gap x b (y ∷ ys) = elim (fill_gap x b ys) [
  | some filled ↦ some (y ∷ filled)
  | none ↦ if y == x then some (b ∷ ys) else none
]

unfoldable pub swap_remove : ℕ → List ℕ → List ℕ
unfolding fill_gap
swap_remove x [] = []
swap_remove x (b ∷ rest) = elim (fill_gap x b rest) [
  | some filled ↦ filled
  | none ↦ if b == x then rest else b ∷ rest
]

module _ {Buf : Type 0} where
  -- The end of a drained room in the books of the manager.
  unfoldable pub retire : ℕ → Server Buf → Server Buf
  unfolding swap_remove
  retire i s =
      let m = s.rooms in
      let r = m.slots i in
      record s {
        rooms = record m {
          slots = update m.slots i (record r { dead = true });
          rooms_per_worker =
              update m.rooms_per_worker r.game_worker (dec_u32 (m.rooms_per_worker r.game_worker));
          open_rooms = swap_remove r.idx m.open_rooms;
        };
      }

  -- `ProcessRoomQueues`: whether the room died, and the server afterwards.
  unfoldable pub process_room_queues : Fpu → ℕ → Server Buf → Bool × Server Buf
  unfolding drain_queues is_drained retire free_room
  process_room_queues f i s =
      let w = drain_queues f (record { room = s.rooms.slots i; sessions = s.sessions }) in
      let t = record s { rooms = put_room s.rooms i w.room; sessions = w.sessions } in
      if is_drained w.room then (true, free_room i (retire i t)) else (false, t)
