-- ===== src/RoomManager/Input.antt =====
-- `PushInput` of RoomManager.cpp, and the first two parts of `RoomTick`: inputs go from the room's
-- queue to the rings of the members, and each member takes one.
pub mod Fifo
pub mod Held
pub mod Books
use mo_belt.Prelude.{
  ℕ, ◌+◌, ◌-◌, ◌%◌, Bool, true, false, not, ◌&&◌, ◌||◌, if◌then◌else◌, ltb, leb, ◌==◌, List, [],
  ◌∷◌, ◌++◌, update, for_below,
}
use mo_belt.Prelude.Int.{ℤ, pos}
use mo_belt.Metrics.{Counters}
use mo_belt.Room.{Room, Member, InputCmd, input_ring_depth, room_members}
use mo_belt.Sim.{SimInput, nonzero}
use mo_belt.RoomManager.{Server, put_room}

module _ {Buf : Type 0} where
  -- `PushInput`: what session `i` sends is queued at its room, or dropped outside of one.
  unfoldable pub push_input : (i seq : ℕ) (mx my : ℤ) (attack skill : ℕ) → Server Buf → Server Buf
  push_input i seq mx my attack skill s =
      let session = s.sessions.slots i in
      let r = session.room_idx in
      let room = s.rooms.slots r in
      let cmd : InputCmd = record {
        sess_idx = session.idx;
        sess_gen = session.gen;
        actor_id = session.actor_id;
        seq = seq;
        mx = mx;
        my = my;
        attack = attack;
        skill = skill;
      } in
      if not session.in_room || leb s.rooms.cap r then s else record s {
        rooms = put_room s.rooms r (record room { in_q = room.in_q ++ cmd ∷ [] });
        counters = record (s.counters) { inputs_queued = s.counters.inputs_queued + 1 };
      }

-- The oldest input of a full ring is dropped.
unfoldable pub make_space : Member → Member
make_space m =
    if m.ring_count == input_ring_depth
    then record m {
      ring_head = (m.ring_head + 1) % input_ring_depth;
      ring_count = m.ring_count - 1;
    }
    else m

unfoldable pub store : InputCmd → Member → Member
store c m = record m {
  ring = update m.ring ((m.ring_head + m.ring_count) % input_ring_depth) c;
  ring_count = m.ring_count + 1;
}

unfoldable pub push_ring : InputCmd → Member → Member
unfolding make_space store
push_ring c m = store c (make_space m)

-- Whether an input belongs to the member at its seat, and not to an earlier one.
unfoldable pub is_for : InputCmd → Member → Bool
is_for c m = m.used && m.sess_idx == c.sess_idx && m.sess_gen == c.sess_gen

-- The members and the counters, which the tick of a room changes.
pub record Routing : Type 0 where
  pub members : ℕ → Member
  pub counters : Counters

-- One round of the routing loop.
unfoldable pub route : InputCmd → Routing → Routing
unfolding push_ring is_for
route c t =
    let m = t.members c.actor_id in
    if leb room_members c.actor_id || not (is_for c m) then t else record {
      members = update t.members c.actor_id (push_ring c m);
      counters =
          if m.ring_count == input_ring_depth
          then record (t.counters) { input_ring_drops = t.counters.input_ring_drops + 1 }
          else t.counters;
    }

unfoldable pub route_all : List InputCmd → Routing → Routing
unfolding route
route_all [] t = t
route_all (c ∷ cs) t = route_all cs (route c t)

-- Whether a held input does something.
unfoldable pub is_active : InputCmd → Bool
is_active c = nonzero c.mx || nonzero c.my || not (c.attack == 0) || not (c.skill == 0)

unfoldable pub neutral : InputCmd → InputCmd
neutral c = record c { mx = pos 0; my = pos 0; attack = 0; skill = 0 }

-- What a member takes in one tick: the oldest input of its ring; else the held one, for ten ticks;
-- then none.
unfoldable pub take_input : Member → Member
unfolding neutral
take_input m =
    let c = m.ring m.ring_head in
    if ltb 0 m.ring_count
    then record m {
      held = c;
      ring_head = (m.ring_head + 1) % input_ring_depth;
      ring_count = m.ring_count - 1;
      last_input_seq = c.seq;
      empty_streak = 0;
    }
    else if ltb 10 (m.empty_streak + 1)
    then record m { empty_streak = m.empty_streak + 1; held = neutral m.held }
    else record m { empty_streak = m.empty_streak + 1 }

-- The counters of that.
unfoldable pub count_input : Member → Counters → Counters
unfolding is_active
count_input m c =
    let occ = if leb m.ring_count 8 then m.ring_count else 8 in
    record c {
      input_ring_occ = update c.input_ring_occ occ (c.input_ring_occ occ + 1);
      input_neutralized =
          if ltb 0 m.ring_count
          then c.input_neutralized
          else if ltb 10 (m.empty_streak + 1) && is_active m.held
          then c.input_neutralized + 1
          else c.input_neutralized;
    }

-- One round of the consuming loop.
unfoldable pub consume : ℕ → Routing → Routing
unfolding take_input count_input
consume i t =
    let m = t.members i in
    if m.used
    then record { members = update t.members i (take_input m); counters = count_input m t.counters }
    else t

unfoldable pub consume_all : Routing → Routing
unfolding consume
consume_all = for_below room_members consume

-- The inputs that the world is stepped with; those of empty seats are zero.
unfoldable pub sim_inputs : (ℕ → Member) → ℕ → SimInput
sim_inputs members i =
    let m = members i in
    if m.used then record { mx = m.held.mx; my = m.held.my } else record { mx = pos 0; my = pos 0 }
