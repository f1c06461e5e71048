-- ===== src/RoomManager/Transfer/Books.antt =====
-- TransferRoom of server/src/RoomManager.cpp and the books: the old slot and the new one.
pub mod Settle
pub mod Carries
use mo_belt.Prelude.{
  ℕ, ◌+◌, ◌<◌, ◌≤◌, ◌≡◌, ◌≢◌, ◌∙◌, refl, sym, ap, inl, inr, true, false, ◌&&◌, ◌||◌, not,
  if◌then◌else◌, Option, none, some, List, [], ◌∷◌, arith, ltb, ◌==◌, update, update_ne,
  update_self, to_ℕ, Bool-cases,
}
use mathlib.Core.Path.{subst}
use native.Mathlib.Decide.{ℕ_discrete}
use mo_belt.Room.{Room}
use mo_belt.Room.Seats.{SeatsOk}
use mo_belt.Room.Holds.{Held, Kept, MembersTagged, AllTagged}
use mo_belt.Session.Pool.{SessionPool}
use mo_belt.Session.Invariant.{times}
use mo_belt.Session.Noted.{Noted, Noted-PoolOk}
use mo_belt.RoomManager.{RoomManager}
use mo_belt.RoomManager.Books.{
  AgreeOff, BooksOk, BooksOk-Held, change-BooksOk, held_by, others, others-AgreeOff, holdings-split,
}

module _ {Buf : Type 0} where
  -- A room of slot `i` that holds nothing.
  pub record Vacated (i : ℕ) (p : SessionPool Buf) (v : Room) : Type 0 where
    pub idx : v.idx ≡ i
    pub seats : SeatsOk v
    pub holds_none : (j : ℕ) → held_by j v ≡ 0
    pub tagged : MembersTagged p v.members × AllTagged p v.pending_join
    pub reserved : v.reserved_seats ≡ 0

  -- A room of slot `n` that holds what `old` held.
  pub record Arrived (n : ℕ) (q : SessionPool Buf) (old new : Room) : Type 0 where
    pub idx : new.idx ≡ n
    pub seats : SeatsOk new
    pub holds_all : (j : ℕ) → held_by j new ≡ held_by j old
    pub tagged : MembersTagged q new.members × AllTagged q new.pending_join

module _ {Buf : Type 0} {live owned : ℕ → ℕ} {m : RoomManager} {p : SessionPool Buf} where
  -- Room `i` empties, and its slot returns to the pool. What it held is in the hands of the worker.
  leave-BooksOk :
      (i x : ℕ) (v : Room) (left : List ℕ) (load : ℕ → ℕ)
      → BooksOk live owned m p
      → owned i ≡ 1
      → Vacated i p v
      → x ≡ i
      → ((k : ℕ) → times k left ≡ (if k == i then 0 else times k m.open_rooms))
      → BooksOk
          (λ j. live j + held_by j (m.slots i))
          (update owned i 0)
          (record m {
            slots = update m.slots i v;
            free_rooms = x ∷ m.free_rooms;
            open_rooms = left;
            rooms_per_worker = load;
          })
          p
  leave-BooksOk i x v left load h mine e at gone =
      let lt : i < m.cap = ground (arith, h.one_place i) in
      let held = BooksOk-Held i lt h in
      change-BooksOk i v (update m.slots i v) (x ∷ m.free_rooms) left load m.mail p h lt
        (λ k ne. update_ne m.slots i v k ne) (update_self m.slots i v) e.idx e.seats
        (record {
          pool = h.pool;
          balance = λ j. omega (arith, held.balance j, e.holds_none j);
          members_tagged = e.tagged.0;
          joins_tagged = e.tagged.1;
        })
        (λ j pos. refl) (λ k. ground (arith, h.one_place k)) (λ z. e.reserved)
        (λ k ne z n. z (ground (arith, n))) (λ k. ground (arith, h.opened k, h.one_place k, gone k))

  -- What the worker holds arrives in the vacant slot `n`.
  arrive-BooksOk :
      (n : ℕ) (old new : Room) (t : ℕ → Room) (open_list : List ℕ) (q : SessionPool Buf)
      → BooksOk (λ j. live j + held_by j old) owned m p
      → n < m.cap
      → times n m.free_rooms ≡ 0
      → ((j : ℕ) → held_by j (m.slots n) ≡ 0)
      → AgreeOff n t m.slots
      → t n ≡ new
      → Arrived n q old new
      → Noted p q
      → ((k : ℕ) → times k open_list + times k m.free_rooms ≤ to_ℕ (ltb k m.cap))
      → BooksOk live owned (record m { slots = t; open_rooms = open_list }) q
  arrive-BooksOk n old new t open_list q h lt busy bare off at e noted opened =
      let held = BooksOk-Held n lt h in
      change-BooksOk n new t m.free_rooms open_list m.rooms_per_worker m.mail q h lt off at e.idx
        e.seats
        (record {
          pool = Noted-PoolOk noted h.pool;
          balance = λ j. omega (arith, held.balance j, bare j, e.holds_all j, noted.refs j);
          members_tagged = e.tagged.0;
          joins_tagged = e.tagged.1;
        })
        (λ j pos. noted.gen j) h.one_place (λ z. absurd (z busy)) (λ k ne z. z) opened

-- Both: the room of slot `i` moves to slot `n`.
pub move-BooksOk :
    {Buf : Type 0} {live owned : ℕ → ℕ} {m : RoomManager} {p : SessionPool Buf} (i n x : ℕ)
    (v new : Room) (t : ℕ → Room) (left open_list : List ℕ) (load : ℕ → ℕ) (q : SessionPool Buf)
    → BooksOk live owned m p
    → owned i ≡ 1
    → n ≢ i
    → n < m.cap
    → times n m.free_rooms ≡ 0
    → times n m.open_rooms ≡ 0
    → ((j : ℕ) → held_by j (m.slots n) ≡ 0)
    → Vacated i p v
    → Arrived n q (m.slots i) new
    → Noted p q
    → x ≡ i
    → AgreeOff n t (update m.slots i v)
    → t n ≡ new
    → ((k : ℕ) → times k left ≡ (if k == i then 0 else times k m.open_rooms))
    → ((k : ℕ) → times k open_list ≤ times k left + to_ℕ (n == k))
    → BooksOk live
        (update owned i 0)
        (record m {
          slots = t;
          free_rooms = x ∷ m.free_rooms;
          open_rooms = open_list;
          rooms_per_worker = load;
        })
        q
move-BooksOk {m = m} i n x v new t left open_list load q h mine ne lt busy shut bare gone came noted
      e off at less more =
    arrive-BooksOk n (m.slots i) new t open_list q
      (leave-BooksOk i x v left load h mine gone e less) lt (ground (arith, busy))
      (λ j. ap (held_by j) (update_ne m.slots i v n ne) ∙ bare j) off at came noted
      (λ k. ground (arith, h.opened k, h.one_place k, less k, more k, busy, shut))
