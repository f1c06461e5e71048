-- ===== src/RoomManager/Transfer.antt =====
-- `TransferRoom` of RoomManager.cpp: the members, the seats and both queues of a room move to a new
-- one of the same worker, and the old slot returns to the pool.
pub mod Moves
pub mod MovedIn
pub mod Whole
pub mod Books
use mo_belt.Prelude.{
  ℕ, ◌+◌, true, false, not, ◌||◌, if◌then◌else◌, ltb, ◌==◌, Option, none, some, List, [], ◌∷◌, ◌++◌,
  update, for_below,
}
use mo_belt.Double.{Fpu}
use mo_belt.Protocol.{RoomEvent, room_move, room_event_msg}
use mo_belt.Protocol.Quant.{quant_pos}
use mo_belt.Prelude.Int.{pos}
use mo_belt.RingBuffer.{Ring}
use mo_belt.Room.{Room, Member, RoomJoinEntry, room_members, spawn_player, player_spawn}
use mo_belt.Session.Pool.{SessionPool, put_slot}
use mo_belt.RoomManager.{Server}
use mo_belt.RoomManager.Alloc.{alloc_slot, free_room, dec_u32}
use mo_belt.RoomManager.Queues.{swap_remove}
use mo_belt.RoomManager.Snapshot.{mark, is_gone, enqueue_to}

-- `sizeof(MSG_S2C_ROOM_EVENT)`.
abbrev pub room_event_size : ℕ
room_event_size = 14

-- What the loops of the move change.
pub record Moving (Buf : Type 0) : Type 0 where
  pub old_members : ℕ → Member
  pub room : Room
  pub sessions : SessionPool Buf
  pub moved : ℕ

-- The seats of the members that moved.
unfoldable pub reserve_seat : ℕ → Room → Room
reserve_seat i r =
    if (r.members i).used
    then record r { seat_used = update r.seat_used i true; reserved_seats = r.reserved_seats + 1 }
    else r

module _ {Buf : Type 0} where
  -- `roomIdx` of a session, if its generation is the one that the room knows.
  unfoldable pub redirect : ℕ → ℕ → ℕ → SessionPool Buf → SessionPool Buf
  redirect i gen room p =
      if (p.slots i).gen == gen then put_slot p i (record (p.slots i) { room_idx = room }) else p

  -- A member of the old room sits down in the new one; its actor starts from the spawn point.
  unfoldable pub move_one : Fpu → ℕ → Moving Buf → Moving Buf
  unfolding redirect
  move_one f i t =
      let m = t.old_members i in
      record {
        old_members = update t.old_members i (record m { used = false });
        room = record (t.room) {
          members = update t.room.members i m;
          world = record (t.room.world) {
            actors = update t.room.world.actors i (spawn_player f i);
          };
        };
        sessions = redirect m.sess_idx m.sess_gen t.room.idx t.sessions;
        moved = t.moved + 1;
      }

  -- One round of the loop over the members.
  unfoldable pub move_member : Fpu → ℕ → Moving Buf → Moving Buf
  unfolding move_one
  move_member f i t = if (t.old_members i).used then move_one f i t else t

  -- One round of the loop over the joins that are carried over.
  unfoldable pub carry_join : RoomJoinEntry → Moving Buf → Moving Buf
  unfolding redirect
  carry_join e t =
      let r = t.room in
      let seated = if r.seat_used e.actor_id then r else record r {
        seat_used = update r.seat_used e.actor_id true;
        reserved_seats = r.reserved_seats + 1;
      } in
      record t {
        room = record seated { pending_join = r.pending_join ++ e ∷ [] };
        sessions = redirect e.sess_idx e.sess_gen r.idx t.sessions;
      }

  unfoldable pub carry_joins : List RoomJoinEntry → Moving Buf → Moving Buf
  unfolding carry_join
  carry_joins [] t = t
  carry_joins (e ∷ es) t = carry_joins es (carry_join e t)

  -- The new room from the old one and the recycled slot.
  unfoldable pub move_in : Fpu → Room → Room → SessionPool Buf → Moving Buf
  unfolding move_member reserve_seat carry_joins
  move_in f old new p =
      let a =
        for_below room_members (move_member f)
          (record { old_members = old.members; room = new; sessions = p; moved = 0 }) in
      let b = record (a.room) {
        world = record (a.room.world) { tick = old.world.tick };
        tick_atomic = old.world.tick;
        ever_reserved = true;
      } in
      let c =
        carry_joins old.pending_join (record a { room = for_below room_members reserve_seat b }) in
      record c {
        room = record (c.room) {
          pending_leave = c.room.pending_leave ++ old.pending_leave;
          member_count = c.moved;
        };
      }

-- The old room when its members have left.
unfoldable pub vacate : (ℕ → Member) → Room → Room
vacate members r = record r {
  dead = true;
  pending_join = [];
  pending_leave = [];
  seat_used = λ _. false;
  reserved_seats = 0;
  members = members;
  member_count = 0;
}

module _ (f : Fpu) {Buf : Type 0} (r : Ring Buf) where
  -- The event for the member at seat `i`.
  unfoldable pub move_event : ℕ → ℕ → RoomEvent
  move_event room i = record {
    kind = room_move;
    actor_id = i;
    room_id = room;
    spawn_qx = quant_pos f (f.of_int (pos (player_spawn i).0));
    spawn_qy = quant_pos f (f.of_int (pos (player_spawn i).1));
  }

  unfoldable pub notify : Room → ℕ → Server Buf → Server Buf
  unfolding move_event is_gone enqueue_to
  notify room i s =
      let m = room.members i in
      let (n, t) = enqueue_to r m (room_event_msg (move_event room.idx i)) s in
      if not m.used || is_gone r m s
      then s
      else if n == room_event_size
      then record t { dirty = mark m.sess_owner m.sess_idx t.dirty }
      else t

  -- The books after the move from slot `i` to slot `n`.
  unfoldable pub settle : ℕ → ℕ → Server Buf → Server Buf
  unfolding move_in vacate swap_remove free_room
  settle i n s =
      let m = s.rooms in
      let old = m.slots i in
      let t = move_in f old (m.slots n) s.sessions in
      let left = swap_remove old.idx m.open_rooms in
      let c = s.counters in
      free_room i (record s {
        rooms = record m {
          slots = update (update m.slots n t.room) i (vacate t.old_members old);
          open_rooms = if ltb t.room.reserved_seats room_members then t.room.idx ∷ left else left;
          rooms_per_worker =
              update m.rooms_per_worker old.game_worker
                (dec_u32 (m.rooms_per_worker old.game_worker));
        };
        sessions = t.sessions;
        counters = record c { room_moves = c.room_moves + 1 };
      })

  unfoldable pub transfer_to : ℕ → Option ℕ × Server Buf → Option ℕ × Server Buf
  unfolding settle notify
  transfer_to i (none, t) = (none, t)
  transfer_to i (some n, t) =
      let u = settle i n t in (some n, for_below room_members (notify (u.rooms.slots n)) u)

  -- `TransferRoom`: the slot of the new room; none when the pool is empty.
  unfoldable pub transfer_room : ℕ → Server Buf → Option ℕ × Server Buf
  unfolding alloc_slot transfer_to
  transfer_room i s = transfer_to i (alloc_slot f (s.rooms.slots i).game_worker false s)
