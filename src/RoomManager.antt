-- ===== src/RoomManager.antt =====
-- `RoomManager` of server/src/Room.h and RoomManager.cpp: its books, and the server state that its
-- methods read and write. A method runs as one step; a `Room*` is the room's slot number.
pub mod Books
pub mod Alloc
pub mod Join
pub mod Queues
pub mod Input
pub mod Snapshot
pub mod Transfer
pub mod Tick
pub mod Ping
use mo_belt.Prelude.{ℕ, Bool, List, update}
use mo_belt.Metrics.{Counters}
use mo_belt.Room.{Room}
use mo_belt.Session.Pool.{SessionPool}

-- `_slots`, `_cap`, the books under `_lock`, and the mailboxes `_mail[w].addQ`. The head of
-- `free_rooms` and of `open_rooms` is the back of the vector.
pub record RoomManager : Type 0 where
  pub slots : ℕ → Room
  pub cap : ℕ
  pub free_rooms : List ℕ
  pub open_rooms : List ℕ
  pub worker_count : ℕ
  pub rooms_per_worker : ℕ → ℕ
  pub mail : ℕ → List ℕ

-- What `main` owns and lends out: the manager, the sessions, the dirty bits by worker and session,
-- and the counters.
pub record Server (Buf : Type 0) : Type 0 where
  pub rooms : RoomManager
  pub sessions : SessionPool Buf
  pub dirty : ℕ → ℕ → Bool
  pub counters : Counters

-- A write through `Room& r = _slots[i]`.
abbrev pub put_room : RoomManager → ℕ → Room → RoomManager
put_room m i r = record m { slots = update m.slots i r }
