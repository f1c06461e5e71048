-- ===== src/Protocol/Layout.antt =====
-- The messages of server/src/Protocol.h: their sizes, and what the other side reads.
use mo_belt.Prelude.{ℕ, ◌^◌, ◌<◌, ◌≡◌, refl, List, [], ◌++◌, arith, length}
use mo_belt.Prelude.Int.{pos, negsuc, ◌≤ℤ◌}
use mo_belt.Protocol.{
  MsgType, echo, c2s_join, c2s_input, c2s_ping, s2c_join_ok, s2c_join_fail, s2c_snapshot, s2c_pong,
  s2c_room_event, type_code, JoinFailReason, InputMsg, SnapActor, Snapshot, RoomEvent, header,
  join_msg, input_msg, ping_msg, join_ok_msg, join_fail_msg, pong_msg, snap_actor_bytes,
  snapshot_msg, room_event_msg, header_bytes, read_version, read_input, read_client_time,
}
use mo_belt.Protocol.Bytes.{read_le-append, int8_of_byte-byte_of_int8}

length-header : (t : MsgType) (size : ℕ) → length (header t size) ≡ 4
unfolding header
length-header t size = refl

length-snap_actor_bytes : (a : SnapActor) → length (snap_actor_bytes a) ≡ 10
unfolding snap_actor_bytes
length-snap_actor_bytes a = refl

-- The number of bytes of each message.
pub record Sizes : Type 0 where
  pub join : (v : ℕ) → length (join_msg v) ≡ 6
  pub input : (m : InputMsg) → length (input_msg m) ≡ 12
  pub ping : (t : ℕ) → length (ping_msg t) ≡ 12
  pub join_ok : (a r t : ℕ) → length (join_ok_msg a r t) ≡ 13
  pub join_fail : (r : JoinFailReason) → length (join_fail_msg r) ≡ 5
  pub pong : (c t u : ℕ) → length (pong_msg c t u) ≡ 20
  pub snapshot : (s : Snapshot) → length (snapshot_msg s) ≡ 165
  pub room_event : (e : RoomEvent) → length (room_event_msg e) ≡ 14

length-snapshot_msg : (s : Snapshot) → length (snapshot_msg s) ≡ 165
unfolding snapshot_msg
length-snapshot_msg s = refl

-- The sizes that Protocol.h asserts, for every content of the messages.
pub message-Sizes : Sizes
unfolding join_msg input_msg ping_msg join_ok_msg join_fail_msg pong_msg room_event_msg header
message-Sizes = record {
  join = λ v. refl;
  input = λ m. refl;
  ping = λ t. refl;
  join_ok = λ a r t. refl;
  join_fail = λ r. refl;
  pong = λ c t u. refl;
  snapshot = length-snapshot_msg;
  room_event = λ e. refl;
}

type_code-small : (t : MsgType) → type_code t < 2 ^ 16
unfolding type_code
type_code-small echo = omega arith
type_code-small c2s_join = omega arith
type_code-small c2s_input = omega arith
type_code-small c2s_ping = omega arith
type_code-small s2c_join_ok = omega arith
type_code-small s2c_join_fail = omega arith
type_code-small s2c_snapshot = omega arith
type_code-small s2c_pong = omega arith
type_code-small s2c_room_event = omega arith

-- Whatever follows a header, its type and its size, below 2^16, are read back.
pub header_bytes-header :
    (t : MsgType) (size : ℕ) (rest : List ℕ)
    → size < 2 ^ 16
    → header_bytes (header t size ++ rest) ≡ (size, type_code t)
unfolding header_bytes header
header_bytes-header t size rest lt = ground (arith, lt, type_code-small t)

-- The values that the fields of an input message can hold.
pub record InRange (m : InputMsg) : Type 0 where
  pub seq : m.seq < 2 ^ 32
  pub mx : (negsuc 127 ≤ℤ m.mx) × (m.mx ≤ℤ pos 127)
  pub my : (negsuc 127 ≤ℤ m.my) × (m.my ≤ℤ pos 127)
  pub attack : m.attack < 256
  pub skill : m.skill < 256

pub read_version-join_msg : (v : ℕ) → v < 2 ^ 16 → read_version (join_msg v) ≡ v
unfolding read_version join_msg header
read_version-join_msg v lt = omega arith

pub read_client_time-ping_msg : (t : ℕ) → t < 2 ^ 64 → read_client_time (ping_msg t) ≡ t
unfolding read_client_time ping_msg header
read_client_time-ping_msg t lt = read_le-append 8 t [] lt

inputs :
    {a b : InputMsg}
    → a.seq ≡ b.seq
    → a.mx ≡ b.mx
    → a.my ≡ b.my
    → a.attack ≡ b.attack
    → a.skill ≡ b.skill
    → a ≡ b
inputs seq mx my attack skill =
    λ i. record { seq = seq i; mx = mx i; my = my i; attack = attack i; skill = skill i }

-- The server reads from an input message what the client wrote, for all values that its fields hold.
pub read_input-input_msg : (m : InputMsg) → InRange m → read_input (input_msg m) ≡ m
unfolding read_input input_msg header
read_input-input_msg m h =
    inputs (omega (arith, h.seq)) (ground (arith, int8_of_byte-byte_of_int8 m.mx h.mx.0 h.mx.1))
      (ground (arith, int8_of_byte-byte_of_int8 m.my h.my.0 h.my.1)) (omega (arith, h.attack))
      (omega (arith, h.skill))
