-- ===== src/RoomManager/Alloc/Fresh.antt =====
-- The books of the manager that `Init` makes and of the sessions of `SessionPool::Init`.
use mo_belt.Prelude.{
  ℕ, zero, suc, ◌+◌, ◌≤◌, ◌<◌, ◌≡◌, ◌∙◌, refl, sym, ap, arith, ltb, if◌then◌else◌, to_ℕ,
  sum_below_none, [], ◌∷◌, update, update_ne,
}
use mathlib.Core.Path.{subst}
use mo_belt.Room.Seats.{SeatsOk}
use mo_belt.Room.Holds.{MembersTagged, AllTagged}
use native.Mathlib.Decide.{ℕ_discrete}
use mo_belt.Double.{Fpu}
use mo_belt.RingBuffer.{Ring}
use mo_belt.Room.{Room, no_member}
use mo_belt.Session.Pool.{SessionPool}
use mo_belt.Session.Invariant.{times, init-PoolOk, init-refs}
use mo_belt.RoomManager.{RoomManager}
use mo_belt.RoomManager.Alloc.{fill_rooms, blank_room, init}
use mo_belt.RoomManager.Books.{BooksOk, held_by, mailed, mailed-none, max_game_workers}

-- What the loop of `Init` does: the slots get their numbers and stand in the free list.
record Filled (n : ℕ) (m t : RoomManager) : Type 0 where
  cap : t.cap ≡ m.cap
  open_rooms : t.open_rooms ≡ m.open_rooms
  worker_count : t.worker_count ≡ m.worker_count
  mail : t.mail ≡ m.mail
  slot : (k : ℕ) → t.slots k ≡ (if ltb k n then record (m.slots k) { idx = k } else m.slots k)
  free : (k : ℕ) → times k t.free_rooms ≡ to_ℕ (ltb k n) + times k m.free_rooms

-- One round of the loop.
abbrev number : ℕ → RoomManager → RoomManager
number i m = record m {
  slots = update m.slots i (record (m.slots i) { idx = i });
  free_rooms = i ∷ m.free_rooms;
}

number-slot :
    (i k : ℕ) (m : RoomManager) (x : Room)
    → x ≡ (if ltb k i then record ((number i m).slots k) { idx = k } else (number i m).slots k)
    → x ≡ (if ltb k (suc i) then record (m.slots k) { idx = k } else m.slots k)
number-slot i k m x e = elim (ℕ_discrete k i) [
  | yes same ↦ ground (arith, e, same)
  | no ne ↦ ground (arith, e, update_ne m.slots i (record (m.slots i) { idx = i }) k ne)
]

fill_rooms-Filled : (n : ℕ) (m : RoomManager) → Filled n m (fill_rooms n m)
unfolding fill_rooms
fill_rooms-Filled zero m = record {
  cap = refl;
  open_rooms = refl;
  worker_count = refl;
  mail = refl;
  slot = λ k. ground arith;
  free = λ k. ground arith;
}
fill_rooms-Filled (suc i) m =
    let h = fill_rooms-Filled i (number i m) in
    record {
      cap = h.cap;
      open_rooms = h.open_rooms;
      worker_count = h.worker_count;
      mail = h.mail;
      slot = λ k. number-slot i k m _ (h.slot k);
      free = λ k. h.free k ∙ ground arith;
    }

-- A room that nobody has used, with its number.
module _ (f : Fpu) where
  abbrev numbered : ℕ → Room
  numbered k = record (blank_room f) { idx = k }

  numbered-held_by : (j k : ℕ) → held_by j (numbered k) ≡ 0
  unfolding blank_room no_member
  numbered-held_by j k = ground arith

  numbered-Tagged :
      {Buf : Type 0} (p : SessionPool Buf) (k : ℕ)
      → MembersTagged p (numbered k).members × AllTagged p (numbered k).pending_join
  unfolding blank_room no_member
  numbered-Tagged p k = (λ i b on. ground arith, tt)

  numbered-SeatsOk : (k : ℕ) → SeatsOk (numbered k)
  unfolding blank_room no_member
  numbered-SeatsOk k = record {
    each = λ k b. ground arith;
    seated = ground arith;
    reserved = ground arith;
    counted = ground arith;
  }

  numbered-reserved_seats : (k : ℕ) → (numbered k).reserved_seats ≡ 0
  unfolding blank_room
  numbered-reserved_seats k = refl

-- A server on which nobody has connected has its books in order, for any capacity of rooms and of
-- sessions and at most 16 game workers.
pub init-BooksOk :
    (f : Fpu) {Buf : Type 0} (r : Ring Buf) (rooms workers sessions : ℕ)
    → workers ≤ max_game_workers
    → BooksOk (λ j. 0) (λ i. 0) (init f rooms workers) (mo_belt.Session.Pool.init r sessions)
unfolding init
init-BooksOk f r rooms workers sessions le =
    let start : RoomManager = record {
      slots = λ _. blank_room f;
      cap = rooms;
      free_rooms = [];
      open_rooms = [];
      worker_count = workers;
      rooms_per_worker = λ _. 0;
      mail = λ _. [];
    } in
    let h = fill_rooms-Filled rooms start in
    let m = fill_rooms rooms start in
    let p = mo_belt.Session.Pool.init r sessions in
    let at : (k : ℕ) → k < m.cap → m.slots k ≡ numbered f k =
      λ k lt. ground (arith, h.slot k, h.cap) in
    record {
      workers = ground (arith, h.worker_count, le);
      pool = init-PoolOk r sessions;
      balance = λ j. omega (
        arith,
        init-refs r sessions j,
        sum_below_none m.cap (λ k. held_by j (m.slots k))
            (λ k lt. ap (held_by j) (at k lt) ∙ numbered-held_by f j k),
      );
      tagged = λ i lt.
          subst (λ u. MembersTagged p u.members × AllTagged p u.pending_join) (sym (at i lt))
            (numbered-Tagged f p i);
      seats = λ i lt. subst SeatsOk (sym (at i lt)) (numbered-SeatsOk f i);
      room_idx = λ i lt. ap (λ u. u.idx) (at i lt);
      one_place = λ i. ground (arith, h.free i, h.cap, ap (mailed i) h.mail, mailed-none i);
      vacant = λ i n.
          ap (λ u. u.reserved_seats) (at i (ground (arith, n, h.free i, h.cap)))
          ∙ numbered-reserved_seats f i;
      opened = λ i. ground (arith, h.free i, h.cap, ap (times i) h.open_rooms);
    }
