-- ===== src/Session.antt =====
-- server/src/Session.h: a session, its slot pool and the reference count that keeps a slot.
pub mod Pool
pub mod Invariant
pub mod Noted
pub mod Link
use mo_belt.Prelude.{ℕ, Bool, false, Option, none}
use mo_belt.RingBuffer.{Ring}

-- `struct Session`. The sockets are the kernel's; `fd` is none for -1.
pub record Session (Buf : Type 0) : Type 0 where
  pub refs : ℕ
  pub dead : Bool
  pub gen : ℕ
  pub idx : ℕ
  pub fd : Option ℕ
  pub owner : ℕ
  pub want_write : Bool
  pub recv_q : Buf
  pub send_q : Buf
  pub in_room : Bool
  pub room_idx : ℕ
  pub actor_id : ℕ

-- `kRecvRingSize` and `kSendRingSize`.
abbrev pub recv_ring_size : ℕ
recv_ring_size = 8192

abbrev pub send_ring_size : ℕ
send_ring_size = 16384

-- `Session()`, with the members' initialisers.
unfoldable pub blank_session : {Buf : Type 0} → Ring Buf → Session Buf
blank_session r = record {
  refs = 0;
  dead = false;
  gen = 0;
  idx = 0;
  fd = none;
  owner = 0;
  want_write = false;
  recv_q = r.blank;
  send_q = r.blank;
  in_room = false;
  room_idx = 0;
  actor_id = 0;
}
