-- ===== src/RoomManager/Transfer/Books/Carries.antt =====
-- TransferRoom of server/src/RoomManager.cpp on the whole server: the books, and what the new room has of the
-- old one.
use mo_belt.Prelude.{ℕ, ◌≡◌, true, Option, none, some}
use mo_belt.Room.{Room}
use mo_belt.Session.Invariant.{times}
use mo_belt.RoomManager.{Server}
use mo_belt.RoomManager.Transfer.Whole.{Whole}

module _ {Buf : Type 0} where
  -- What becomes of room `i` of `s`: nothing, where the pool is empty; or the room `n` of `t` has all that it
  -- had, and the old slot is dead, without members, and back in the pool.
  abbrev pub Carries : ℕ → Server Buf → Option ℕ × Server Buf → Type 0
  Carries i s (none, t) = t ≡ s
  Carries i s (some n, t) =
      Whole (s.rooms.slots i) (t.rooms.slots n) s.sessions t.sessions
      × ((t.rooms.slots i).dead ≡ true)
      × (times i t.rooms.free_rooms ≡ 1)
