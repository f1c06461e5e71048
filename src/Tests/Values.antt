-- ===== src/Tests/Values.antt =====
-- A processor, a ring and a server to run the code on.
use mo_belt.Prelude.{
  ℕ, ◌+◌, ◌-◌, ◌*◌, ◌/◌, ◌^◌, refl, true, false, ltb, leb, ◌==◌, to_ℕ, List, [], ◌++◌, arith,
  length, take, skip,
}
use mo_belt.Prelude.Int.{ℤ, pos, negsuc}
use mo_belt.Double.{Fpu, IsIeee}
use mo_belt.RingBuffer.{Ring}
use mo_belt.Metrics.{no_counts}
use mo_belt.Room.{no_member}
use mo_belt.Session.{blank_session}
use mo_belt.Session.Pool.{SessionPool, fill_free, ready_rings, fresh, alloc, alloc_top}
use mo_belt.Session.Invariant.{init-PoolOk, alloc-PoolOk}
use mo_belt.RoomManager.{Server, RoomManager}
use mo_belt.RoomManager.Books.{BooksOk, mailed-none}
use mo_belt.RoomManager.Alloc.{fill_rooms, blank_room}

abbrev whole_of : ℤ → ℕ
whole_of (pos n) = n
whole_of (negsuc n) = 0

-- Whole numbers stand for themselves.
abbrev pub whole_fpu : Fpu
whole_fpu = record {
  add = λ a b. a + b;
  sub = λ a b. a - b;
  mul = λ a b. a * b;
  div = λ a b. a / b;
  fabs = λ a. a;
  lt = ltb;
  le = leb;
  of_int = whole_of;
  literal = λ m k. m / 10 ^ k;
  to_u16 = λ a. a;
}

pub whole_fpu-IsIeee : IsIeee whole_fpu
whole_fpu-IsIeee = record {
  lt_irrefl = λ a. ground arith;
  lt_exact = λ m n le le'. refl;
  sub_exact = λ m n le le'. refl;
}

-- A ring that never fills.
abbrev pub list_ring : Ring (List ℕ)
list_ring = record {
  blank = [];
  is_valid = λ b. true;
  init = λ b n. (true, b);
  clear = λ b. [];
  enqueue = λ b d. (length d, b ++ d);
  peek = λ b n. take n b;
  dequeue = λ b n. (take n b, skip n b);
  data_size = length;
  direct_read_size = length;
  direct_write_size = λ b. 8192;
  append_direct = λ b d. b ++ d;
  send_bytes = λ b. b;
  consume = λ b n. skip n b;
}

-- Two session slots, of which slot 0 is in use.
abbrev pub two_sessions : SessionPool (List ℕ)
two_sessions = mo_belt.Session.Pool.init list_ring 2

abbrev pub one_session : SessionPool (List ℕ)
one_session = (alloc list_ring two_sessions).1

abbrev pub empty_server : Server (List ℕ)
empty_server = record {
  rooms = mo_belt.RoomManager.Alloc.init whole_fpu 2 1;
  sessions = one_session;
  dirty = λ w i. false;
  counters = no_counts;
}

abbrev pub live_one : ℕ → ℕ
live_one j = to_ℕ (0 == j)

abbrev pub nowhere : ℕ → ℕ
nowhere k = 0

pub empty_server-BooksOk : BooksOk live_one nowhere empty_server.rooms empty_server.sessions
unfolding mo_belt.Session.Pool.init fill_free alloc alloc_top ready_rings fresh blank_session
    mo_belt.RoomManager.Alloc.init fill_rooms blank_room no_member
empty_server-BooksOk = record {
  workers = omega arith;
  pool = alloc-PoolOk list_ring two_sessions (init-PoolOk list_ring 2);
  balance = λ j. ground arith;
  tagged = λ i lt. (λ k b on. ground arith, ground arith);
  seats = λ i lt. record {
    each = λ k b. ground arith;
    seated = ground arith;
    reserved = ground arith;
    counted = ground arith;
  };
  room_idx = λ i lt. ground arith;
  one_place = λ i. ground (arith, mailed-none i);
  vacant = λ i n. ground arith;
  opened = λ i. ground arith;
}
