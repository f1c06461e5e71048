-- ===== src/Protocol.antt =====
-- server/src/Protocol.h: message types, limits, and the structures with their packed layout.
pub mod Bytes
pub mod Quant
pub mod Layout
use mo_belt.Prelude.{ℕ, ◌+◌, Option, none, some, List, [], ◌∷◌, ◌++◌, if◌then◌else◌, ◌==◌, skip}
use mo_belt.Prelude.Int.{ℤ}
use Bytes.{le, read_le, le_array, byte_of_int8, int8_of_byte}

-- `MsgType`.
pub data MsgType : Type 0 where
  echo c2s_join c2s_input c2s_ping s2c_join_ok s2c_join_fail s2c_snapshot s2c_pong : MsgType
  s2c_room_event : MsgType

unfoldable pub type_code : MsgType → ℕ
type_code echo = 1
type_code c2s_join = 10
type_code c2s_input = 11
type_code c2s_ping = 12
type_code s2c_join_ok = 100
type_code s2c_join_fail = 101
type_code s2c_snapshot = 102
type_code s2c_pong = 103
type_code s2c_room_event = 104

-- `kProtocolVersion`, `MAX_PACKET_SIZE`, `sizeof(MsgHeader)`.
abbrev pub protocol_version : ℕ
protocol_version = 1

abbrev pub max_packet_size : ℕ
max_packet_size = 1024

abbrev pub header_size : ℕ
header_size = 4

-- `JoinFailReason`.
pub data JoinFailReason : Type 0 where
  version_mismatch no_capacity already_joined : JoinFailReason

unfoldable pub reason_code : JoinFailReason → ℕ
reason_code version_mismatch = 1
reason_code no_capacity = 2
reason_code already_joined = 3

-- `RoomEventKind::RoomMove`.
abbrev pub room_move : ℕ
room_move = 3

-- `MSG_C2S_INPUT` behind its header.
pub record InputMsg : Type 0 where
  pub seq : ℕ
  pub mx : ℤ
  pub my : ℤ
  pub attack : ℕ
  pub skill : ℕ

-- `SnapActor`. `hp` is never negative here.
pub record SnapActor : Type 0 where
  pub id : ℕ
  pub kind : ℕ
  pub state : ℕ
  pub face : ℤ
  pub qx : ℕ
  pub qy : ℕ
  pub hp : ℕ

-- `MSG_S2C_SNAPSHOT` behind its header.
pub record Snapshot : Type 0 where
  pub server_tick : ℕ
  pub actor_count : ℕ
  pub last_input_seq : ℕ → ℕ
  pub actors : ℕ → SnapActor

-- `MSG_S2C_ROOM_EVENT` behind its header.
pub record RoomEvent : Type 0 where
  pub kind : ℕ
  pub actor_id : ℕ
  pub room_id : ℕ
  pub spawn_qx : ℕ
  pub spawn_qy : ℕ

-- `MsgHeader`.
unfoldable pub header : MsgType → ℕ → List ℕ
unfolding type_code
header t size = le 2 size ++ le 2 (type_code t)

unfoldable pub join_msg : ℕ → List ℕ
unfolding header
join_msg version = header c2s_join 6 ++ le 2 version

unfoldable pub input_msg : InputMsg → List ℕ
unfolding header
input_msg m =
    header c2s_input 12
    ++ (le 4 m.seq
        ++ (le 1 (byte_of_int8 m.mx)
            ++ (le 1 (byte_of_int8 m.my) ++ (le 1 m.attack ++ le 1 m.skill))))

unfoldable pub ping_msg : ℕ → List ℕ
unfolding header
ping_msg client_time = header c2s_ping 12 ++ le 8 client_time

unfoldable pub join_ok_msg : (actor_id room_id server_tick : ℕ) → List ℕ
unfolding header
join_ok_msg actor room tick = header s2c_join_ok 13 ++ (le 1 actor ++ (le 4 room ++ le 4 tick))

unfoldable pub join_fail_msg : JoinFailReason → List ℕ
unfolding header reason_code
join_fail_msg reason = header s2c_join_fail 5 ++ le 1 (reason_code reason)

unfoldable pub pong_msg : (client_time server_tick tick_remain : ℕ) → List ℕ
unfolding header
pong_msg time tick remain = header s2c_pong 20 ++ (le 8 time ++ (le 4 tick ++ le 4 remain))

unfoldable pub snap_actor_bytes : SnapActor → List ℕ
snap_actor_bytes a =
    le 1 a.id
    ++ (le 1 a.kind
        ++ (le 1 a.state
            ++ (le 1 (byte_of_int8 a.face) ++ (le 2 a.qx ++ (le 2 a.qy ++ le 2 a.hp)))))

unfoldable pub snapshot_msg : Snapshot → List ℕ
unfolding header snap_actor_bytes
snapshot_msg s =
    header s2c_snapshot 165
    ++ (le 4 s.server_tick
        ++ (le 1 s.actor_count
            ++ (le_array 4 (λ i. le 4 (s.last_input_seq i))
                ++ le_array 14 (λ i. snap_actor_bytes (s.actors i)))))

unfoldable pub room_event_msg : RoomEvent → List ℕ
unfolding header
room_event_msg e =
    header s2c_room_event 14
    ++ (le 1 e.kind
        ++ (le 1 e.actor_id ++ (le 4 e.room_id ++ (le 2 e.spawn_qx ++ le 2 e.spawn_qy))))

-- What the server reads through a cast of the bytes of a message: the header's fields, and those of
-- the three messages that a client sends.
unfoldable pub header_bytes : List ℕ → ℕ × ℕ
header_bytes msg = (read_le 2 msg, read_le 2 (skip 2 msg))

unfoldable pub read_version : List ℕ → ℕ
read_version msg = read_le 2 (skip 4 msg)

unfoldable pub read_input : List ℕ → InputMsg
read_input msg = record {
  seq = read_le 4 (skip 4 msg);
  mx = int8_of_byte (read_le 1 (skip 8 msg));
  my = int8_of_byte (read_le 1 (skip 9 msg));
  attack = read_le 1 (skip 10 msg);
  skill = read_le 1 (skip 11 msg);
}

unfoldable pub read_client_time : List ℕ → ℕ
read_client_time msg = read_le 8 (skip 4 msg)
