-- ===== src/RoomManager/Alloc.antt =====
-- `Init`, `ResetWorld`, `AllocRoomSlotLocked` and `FreeRoomIfDrained` of RoomManager.cpp.
pub mod Load
pub mod Fresh
use mo_belt.Prelude.{
  ℕ, zero, suc, ◌+◌, ◌-◌, ◌%◌, ◌^◌, Bool, false, if◌then◌else◌, ltb, Option, none, some, List, [],
  ◌∷◌, ◌++◌, update, for_below,
}
use mo_belt.Double.{Fpu}
use mo_belt.Room.{Room, SimWorld, room_members, no_member, no_actor, spawn_orc}
use mo_belt.RoomManager.{RoomManager, Server}

-- The loop of `Init`, from `i` down to 1.
unfoldable pub fill_rooms : ℕ → RoomManager → RoomManager
fill_rooms zero m = m
fill_rooms (suc i) m = fill_rooms i (record m {
  slots = update m.slots i (record (m.slots i) { idx = i });
  free_rooms = i ∷ m.free_rooms;
})

-- `_roomsPerWorker[w] - 1` of a uint32_t.
abbrev pub dec_u32 : ℕ → ℕ
dec_u32 n = (n + 2 ^ 32 - 1) % 2 ^ 32

abbrev pub inc_u32 : ℕ → ℕ
inc_u32 n = (n + 1) % 2 ^ 32

-- The least loaded worker, the first of them on a tie.
unfoldable pub least_loaded : (ℕ → ℕ) → ℕ → ℕ
least_loaded load workers =
    for_below (workers - 1) (λ k best. if ltb (load (k + 1)) (load best) then k + 1 else best) 0

module _ (f : Fpu) where
  unfoldable pub reset_world : SimWorld
  reset_world = record {
    tick = 0;
    actors =
        for_below 10 (λ i actors. update actors (room_members + i) (spawn_orc f i))
          (λ _. no_actor f);
  }

  -- `Room` as `new Room[]` makes it, and the manager after `Init`.
  unfoldable pub blank_room : Room
  blank_room = record {
    idx = 0;
    gen = 0;
    game_worker = 0;
    dead = false;
    ever_reserved = false;
    seat_used = λ _. false;
    reserved_seats = 0;
    pending_join = [];
    pending_leave = [];
    in_q = [];
    members = λ _. no_member;
    member_count = 0;
    world = record { tick = 0; actors = λ _. no_actor f };
    tick_atomic = 0;
  }

  unfoldable pub init : ℕ → ℕ → RoomManager
  unfolding fill_rooms blank_room
  init capacity workers = fill_rooms capacity (record {
    slots = λ _. blank_room;
    cap = capacity;
    free_rooms = [];
    open_rooms = [];
    worker_count = workers;
    rooms_per_worker = λ _. 0;
    mail = λ _. [];
  })

  -- A recycled slot: all but the slot's number and generation starts afresh.
  unfoldable pub recycle : Room → ℕ → Room
  recycle r worker = record r {
    dead = false;
    ever_reserved = false;
    reserved_seats = 0;
    seat_used = λ _. false;
    pending_join = [];
    pending_leave = [];
    members = λ _. no_member;
    member_count = 0;
    in_q = [];
    world = reset_world;
    tick_atomic = 0;
    game_worker = worker;
  }

  module _ {Buf : Type 0} where
    -- `AllocRoomSlotLocked`, by the free list, for the worker `best`.
    unfoldable pub alloc_from : ℕ → Bool → Server Buf → List ℕ → Option ℕ × Server Buf
    unfolding recycle
    alloc_from best use_mailbox s [] = (none, s)
    alloc_from best use_mailbox s (idx ∷ rest) =
        let m = s.rooms in
        let c = s.counters in
        (
          some idx,
          record s {
            rooms = record m {
              slots = update m.slots idx (recycle (m.slots idx) (best % 2 ^ 8));
              free_rooms = rest;
              rooms_per_worker = update m.rooms_per_worker best (inc_u32 (m.rooms_per_worker best));
              mail = if use_mailbox then update m.mail best (m.mail best ++ idx ∷ []) else m.mail;
            };
            counters = record c {
              rooms_created = c.rooms_created + 1;
              rooms_active = c.rooms_active + 1;
            };
          },
        )

    -- The slot, or none when the pool is empty.
    unfoldable pub alloc_slot : ℕ → Bool → Server Buf → Option ℕ × Server Buf
    unfolding alloc_from
    alloc_slot force_worker use_mailbox s =
        let m = s.rooms in
        let best =
          if use_mailbox then least_loaded m.rooms_per_worker m.worker_count else force_worker in
        alloc_from best use_mailbox s m.free_rooms

module _ {Buf : Type 0} where
  -- `FreeRoomIfDrained`: the slot returns to the pool under its next generation.
  unfoldable pub free_room : ℕ → Server Buf → Server Buf
  free_room i s =
      let m = s.rooms in
      let r = m.slots i in
      let c = s.counters in
      record s {
        rooms = record m {
          slots = update m.slots i (record r { gen = inc_u32 r.gen });
          free_rooms = r.idx ∷ m.free_rooms;
        };
        counters = record c { rooms_active = c.rooms_active - 1 };
      }
