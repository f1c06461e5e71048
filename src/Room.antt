-- ===== src/Room.antt =====
-- server/src/Room.h: the data of a room. Its methods are in RoomManager.
pub mod Seats
pub mod Holds
use mo_belt.Prelude.{ℕ, Bool, true, false, List, if◌then◌else◌, ◌==◌}
use mo_belt.Prelude.Int.{ℤ, pos, negsuc}
use mo_belt.Double.{Fpu}

-- `kRoomMembers`, `kSnapActors`, `kInputRingDepth`.
abbrev pub room_members : ℕ
room_members = 4

abbrev pub snap_actors : ℕ
snap_actors = 14

abbrev pub input_ring_depth : ℕ
input_ring_depth = 8

-- `x` and `y` are the bit patterns of doubles.
pub record SimActor : Type 0 where
  pub present : Bool
  pub kind : ℕ
  pub state : ℕ
  pub face : ℤ
  pub x : ℕ
  pub y : ℕ
  pub hp : ℕ

pub record SimWorld : Type 0 where
  pub tick : ℕ
  pub actors : ℕ → SimActor

pub record InputCmd : Type 0 where
  pub sess_idx : ℕ
  pub sess_gen : ℕ
  pub actor_id : ℕ
  pub seq : ℕ
  pub mx : ℤ
  pub my : ℤ
  pub attack : ℕ
  pub skill : ℕ

pub record RoomJoinEntry : Type 0 where
  pub sess_idx : ℕ
  pub sess_gen : ℕ
  pub actor_id : ℕ

pub record RoomLeaveEntry : Type 0 where
  pub sess_idx : ℕ
  pub sess_gen : ℕ

-- `Room::Member`. The slots of `ring` from `ring_head` on, `ring_count` of them, are the queue.
pub record Member : Type 0 where
  pub used : Bool
  pub sess_idx : ℕ
  pub sess_gen : ℕ
  pub sess_owner : ℕ
  pub ring : ℕ → InputCmd
  pub ring_head : ℕ
  pub ring_count : ℕ
  pub held : InputCmd
  pub last_input_seq : ℕ
  pub empty_streak : ℕ

-- `struct Room`. The locks are left out: a method is one step. A vector keeps its order.
pub record Room : Type 0 where
  pub idx : ℕ
  pub gen : ℕ
  pub game_worker : ℕ
  pub dead : Bool
  pub ever_reserved : Bool
  pub seat_used : ℕ → Bool
  pub reserved_seats : ℕ
  pub pending_join : List RoomJoinEntry
  pub pending_leave : List RoomLeaveEntry
  pub in_q : List InputCmd
  pub members : ℕ → Member
  pub member_count : ℕ
  pub world : SimWorld
  pub tick_atomic : ℕ

-- `InputCmd{}`.
abbrev pub no_input : InputCmd
no_input = record {
  sess_idx = 0;
  sess_gen = 0;
  actor_id = 0;
  seq = 0;
  mx = pos 0;
  my = pos 0;
  attack = 0;
  skill = 0;
}

-- `Member{}`.
unfoldable pub no_member : Member
no_member = record {
  used = false;
  sess_idx = 0;
  sess_gen = 0;
  sess_owner = 0;
  ring = λ _. no_input;
  ring_head = 0;
  ring_count = 0;
  held = no_input;
  last_input_seq = 0;
  empty_streak = 0;
}

-- A `{x, y}` row of the spawn tables, in whole pixels.
abbrev pub Point : Type 0
Point = ℕ × ℕ

-- `kPlayerSpawn`.
unfoldable pub player_spawn : ℕ → Point
player_spawn i =
    if i == 0
    then (180, 100)
    else if i == 1
    then (140, 60)
    else if i == 2
    then (220, 140)
    else (100, 120)

-- `kOrcSpawn`.
unfoldable pub orc_spawn : ℕ → Point
orc_spawn i =
    if i == 0
    then (520, 40)
    else if i == 1
    then (700, 120)
    else if i == 2
    then (980, 70)
    else if i == 3
    then (1180, 140)
    else if i == 4
    then (1330, 55)
    else if i == 5
    then (620, 150)
    else if i == 6
    then (840, 30)
    else if i == 7
    then (1060, 110)
    else if i == 8
    then (1240, 20)
    else (1450, 125)

module _ (f : Fpu) where
  -- `SimActor{}`.
  unfoldable pub no_actor : SimActor
  no_actor = record {
    present = false;
    kind = 0;
    state = 0;
    face = pos 1;
    x = f.of_int (pos 0);
    y = f.of_int (pos 0);
    hp = 0;
  }

  -- The fields that a player gets on entering a room at seat `i`: ProcessRoomQueues and TransferRoom.
  unfoldable pub spawn_player : ℕ → SimActor
  unfolding player_spawn
  spawn_player i = record {
    present = true;
    kind = 0;
    state = 0;
    face = pos 1;
    x = f.of_int (pos (player_spawn i).0);
    y = f.of_int (pos (player_spawn i).1);
    hp = 10;
  }

  -- The orc of row `i` in `ResetWorld`.
  unfoldable pub spawn_orc : ℕ → SimActor
  unfolding orc_spawn
  spawn_orc i = record {
    present = true;
    kind = 1;
    state = 0;
    face = negsuc 0;
    x = f.of_int (pos (orc_spawn i).0);
    y = f.of_int (pos (orc_spawn i).1);
    hp = 3;
  }
