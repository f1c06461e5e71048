-- ===== src/RoomManager/Queues/Process.antt =====
-- ProcessRoomQueues of server/src/RoomManager.cpp as a whole, and the books.
use mo_belt.Prelude.{
  ℕ, ◌+◌, ◌≤◌, ◌<◌, ◌≡◌, refl, sym, ap, ◌∙◌, ◌⊎◌, inl, inr, true, if◌then◌else◌, none, some, List,
  [], ◌∷◌, arith, ◌==◌, update, update_ne, update_self, to_ℕ, Bool-cases, Option-cases,
}
use mathlib.Core.Path.{subst}
use mo_belt.Double.{Fpu}
use mo_belt.Room.{Room, RoomJoinEntry, RoomLeaveEntry}
use mo_belt.Room.Seats.{Seats, SeatsOk}
use mo_belt.Room.Holds.{Held, Kept}
use mo_belt.Session.Pool.{SessionPool}
use mo_belt.Session.Invariant.{times}
use mo_belt.RoomManager.{Server, put_room}
use mo_belt.RoomManager.Alloc.{free_room, inc_u32}
use mo_belt.RoomManager.Books.{others, BooksOk, BooksOk-Held, change-BooksOk, replace-BooksOk}
use mo_belt.RoomManager.Queues.{
  Work, find_member, is_stale, apply_join, apply_joins, apply_leave, apply_leaves, drain_queues,
  is_drained, fill_gap, swap_remove, retire, process_room_queues,
}
use mo_belt.RoomManager.Queues.Seats.{apply_joins-Seats, apply_leaves-Seats}
use mo_belt.RoomManager.Queues.References.{
  apply_joins-Held, apply_leaves-Held, apply_joins-Kept, apply_leaves-Kept,
}

-- What the handlers of the entries leave alone.
abbrev SameFrame : Room → Room → Type 0
SameFrame r t =
    (t.idx ≡ r.idx)
    × (t.pending_join ≡ r.pending_join)
    × (t.game_worker ≡ r.game_worker)
    × (t.dead ≡ r.dead)

SameFrame-trans : (a b c : Room) → SameFrame a b → SameFrame b c → SameFrame a c
SameFrame-trans a b c g h = (h.0 ∙ g.0, h.1 ∙ g.1, h.2 ∙ g.2, h.3 ∙ g.3)

module _ {Buf : Type 0} where
  apply_join-frame :
      (f : Fpu) (e : RoomJoinEntry) (w : Work Buf) → SameFrame w.room (apply_join f e w).room
  unfolding apply_join
  apply_join-frame f e w = elim (Bool-cases (is_stale w.sessions e)) [
    | inl stale ↦ rw (stale, apply_join) (refl, refl, refl, refl)
    | inr fresh ↦ rw (fresh, apply_join) (refl, refl, refl, refl)
  ]

  apply_joins-frame :
      (f : Fpu) (es : List RoomJoinEntry) (w : Work Buf)
      → SameFrame w.room (apply_joins f es w).room
  unfolding apply_joins
  apply_joins-frame f [] w = (refl, refl, refl, refl)
  apply_joins-frame f (e ∷ es) w =
      SameFrame-trans w.room (apply_join f e w).room (apply_joins f (e ∷ es) w).room
        (apply_join-frame f e w) (apply_joins-frame f es (apply_join f e w))

  apply_leave-frame : (e : RoomLeaveEntry) (w : Work Buf) → SameFrame w.room (apply_leave e w).room
  unfolding apply_leave
  apply_leave-frame e w = elim (Option-cases (find_member e w.room.members)) [
    | inl missing ↦ rw (missing, apply_leave) (refl, refl, refl, refl)
    | inr (i, found) ↦ rw (found, apply_leave) (refl, refl, refl, refl)
  ]

  apply_leaves-frame :
      (es : List RoomLeaveEntry) (w : Work Buf) → SameFrame w.room (apply_leaves es w).room
  unfolding apply_leaves
  apply_leaves-frame [] w = (refl, refl, refl, refl)
  apply_leaves-frame (e ∷ es) w =
      SameFrame-trans w.room (apply_leave e w).room (apply_leaves (e ∷ es) w).room
        (apply_leave-frame e w) (apply_leaves-frame es (apply_leave e w))

-- The gap left by `x` is filled by the back `b`.
fill_gap_lem :
    (x b : ℕ) (ys : List ℕ)
    → ((fill_gap x b ys ≡ none) × (times x ys ≡ 0))
      ⊎ ((zs : List ℕ) × (fill_gap x b ys ≡ some zs)
          × ((j : ℕ) → times j zs + to_ℕ (x == j) ≡ times j ys + to_ℕ (b == j)))
unfolding fill_gap
fill_gap_lem x b [] = inl (refl, refl)
fill_gap_lem x b (y ∷ ys) = elim (fill_gap_lem x b ys) [
  | inl (stuck, absent) ↦ elim (Bool-cases (y == x)) [
    | inl hit ↦ inr (b ∷ ys, rw (stuck, hit), λ j. ground arith)
    | inr miss ↦ inl (rw (stuck, miss), ground arith)
  ]
  | inr (zs, e, h) ↦ inr (y ∷ zs, rw e, λ j. omega (arith, h j))
]

-- Where `x` stands at most once, `swap_remove` takes it out and leaves every other one as often as
-- it was.
pub times-swap_remove :
    (x j : ℕ) (l : List ℕ)
    → times x l ≤ 1
    → times j (swap_remove x l) ≡ (if j == x then 0 else times j l)
unfolding swap_remove
times-swap_remove x j [] h = ground arith
times-swap_remove x j (b ∷ rest) h = elim (fill_gap_lem x b rest) [
  | inl (stuck, absent) ↦
      rw (stuck, swap_remove)
        (elim (Bool-cases (b == x)) [
          | inl hit ↦ rw hit (ground arith)
          | inr miss ↦ rw miss (ground arith)
        ])
  | inr (zs, e, g) ↦ rw (e, swap_remove) (ground (arith, g j, g x))
]

module _ {Buf : Type 0} {live owned : ℕ → ℕ} where
  -- A room that is in use, off the open list and without reservations may go back to the pool.
  pub free_room-BooksOk :
      (s : Server Buf) (i : ℕ)
      → BooksOk live owned s.rooms s.sessions
      → owned i ≡ 1
      → (s.rooms.slots i).reserved_seats ≡ 0
      → times i s.rooms.open_rooms ≡ 0
      → BooksOk live (update owned i 0) (free_room i s).rooms (free_room i s).sessions
  unfolding free_room
  free_room-BooksOk s i h mine empty shut =
      let m = s.rooms in
      let lt : i < m.cap = ground (arith, h.one_place i) in
      let own = h.room_idx i lt in
      let freed : Room = record (m.slots i) { gen = inc_u32 (m.slots i).gen } in
      let ok = h.seats i lt in
      change-BooksOk i freed (update m.slots i freed) (freed.idx ∷ m.free_rooms) m.open_rooms
        m.rooms_per_worker m.mail s.sessions h lt (λ k ne. update_ne m.slots i freed k ne)
        (update_self m.slots i freed) own
        (record {
          each = ok.each;
          seated = ok.seated;
          reserved = ok.reserved;
          counted = ok.counted;
        })
        (BooksOk-Held i lt h) (λ j pos. refl) (λ k. ground (arith, h.one_place k, own)) (λ n. empty)
        (λ k ne n e. n (ground (arith, own))) (λ k. ground (arith, h.opened k, h.one_place k, own))

  retire-BooksOk :
      (s : Server Buf) (i : ℕ)
      → BooksOk live owned s.rooms s.sessions
      → owned i ≡ 1
      → BooksOk live owned (retire i s).rooms (retire i s).sessions
        × (times i (retire i s).rooms.open_rooms ≡ 0)
        × (((retire i s).rooms.slots i).reserved_seats ≡ (s.rooms.slots i).reserved_seats)
  unfolding retire
  retire-BooksOk s i h mine =
      let m = s.rooms in
      let lt : i < m.cap = ground (arith, h.one_place i) in
      let own = h.room_idx i lt in
      let dead : Room = record (m.slots i) { dead = true } in
      let ok = h.seats i lt in
      let once : times dead.idx m.open_rooms ≤ 1 = ground (arith, h.opened dead.idx) in
      (
        change-BooksOk i dead (update m.slots i dead) m.free_rooms
            (swap_remove dead.idx m.open_rooms) _ m.mail s.sessions h lt
            (λ k ne. update_ne m.slots i dead k ne) (update_self m.slots i dead) own
            (record {
              each = ok.each;
              seated = ok.seated;
              reserved = ok.reserved;
              counted = ok.counted;
            })
            (BooksOk-Held i lt h) (λ j pos. refl) h.one_place (λ n. h.vacant i n) (λ k ne n. n)
            (λ k. ground (arith, h.opened k, times-swap_remove dead.idx k m.open_rooms once)),
        ground (arith, times-swap_remove dead.idx i m.open_rooms once, own),
        ap (λ (r : Room). r.reserved_seats) (update_self m.slots i dead),
      )

-- What the queues of a room come to.
record Drained {Buf : Type 0} (c : ℕ → ℕ) (r : Room) (p : SessionPool Buf) (w : Work Buf)
    : Type 0 where
  idx : w.room.idx ≡ r.idx
  no_joins : w.room.pending_join ≡ []
  seats : Seats w.room []
  held : Held c w.sessions w.room.members []
  kept : Kept c p w.sessions

drain_queues-Drained :
    {Buf : Type 0} (f : Fpu) (c : ℕ → ℕ) (r : Room) (p : SessionPool Buf)
    → SeatsOk r
    → Held c p r.members r.pending_join
    → Drained c r p (drain_queues f (record { room = r; sessions = p }))
unfolding drain_queues
drain_queues-Drained {Buf} f c r p s h =
    let w : Work Buf = record {
      room = record r { pending_join = []; pending_leave = [] };
      sessions = p;
    } in
    let s' : Seats w.room r.pending_join = record {
      each = s.each;
      seated = s.seated;
      reserved = s.reserved;
      counted = s.counted;
    } in
    let v = apply_joins f r.pending_join w in
    let vs = apply_joins-Seats f r.pending_join w s' in
    let vh = apply_joins-Held c f r.pending_join w s' h in
    let (i1, j1, g1, d1) = apply_joins-frame f r.pending_join w in
    let (i2, j2, g2, d2) = apply_leaves-frame r.pending_leave v in
    record {
      idx = i2 ∙ i1;
      no_joins = j2 ∙ j1;
      seats = apply_leaves-Seats r.pending_leave v vs;
      held = apply_leaves-Held c r.pending_leave v [] vh;
      kept = λ j pos.
          apply_leaves-Kept c r.pending_leave v [] vh j pos
          ∙ apply_joins-Kept c f r.pending_join w s' h j pos;
    }

is_drained-reserved : (r : Room) → is_drained r ≡ true → r.reserved_seats ≡ 0
unfolding is_drained
is_drained-reserved r e = ground arith

-- The owner of room `i` may process its queues at any time: the books stay right, and the room is
-- then in the pool if it died, and still the worker's if not.
pub process_room_queues-BooksOk :
    {Buf : Type 0} {live owned : ℕ → ℕ} (f : Fpu) (s : Server Buf) (i : ℕ)
    → BooksOk live owned s.rooms s.sessions
    → owned i ≡ 1
    → let (died, t) = process_room_queues f i s in
      BooksOk live (if died then update owned i 0 else owned) t.rooms t.sessions
unfolding process_room_queues
process_room_queues-BooksOk {Buf} {live} {owned} f s i h mine =
    elim (Bool-cases (is_drained w.room)) [
      | inl over ↦ rw over (
          let (ok, shut, seats) = retire-BooksOk t i now mine in
          free_room-BooksOk (retire i t) i ok mine
            (seats
              ∙ ap (λ (r : Room). r.reserved_seats) (update_self s.rooms.slots i w.room)
              ∙ is_drained-reserved w.room over)
            shut)
      | inr going ↦ rw going now
    ]
  where
    lt : i < s.rooms.cap
    lt = ground (arith, h.one_place i)

    w : Work Buf
    w = drain_queues f (record { room = s.rooms.slots i; sessions = s.sessions })

    d : Drained (λ j. live j + others i j s.rooms) (s.rooms.slots i) s.sessions w
    d = drain_queues-Drained f _ (s.rooms.slots i) s.sessions (h.seats i lt) (BooksOk-Held i lt h)

    t : Server Buf
    t = record s { rooms = put_room s.rooms i w.room; sessions = w.sessions }

    now : BooksOk live owned t.rooms t.sessions
    now =
        replace-BooksOk i w.room w.sessions h lt (ground (arith, h.one_place i))
          (d.idx ∙ h.room_idx i lt) (subst (Seats w.room) (sym d.no_joins) d.seats)
          (subst (Held (λ j. live j + others i j s.rooms) w.sessions w.room.members)
            (sym d.no_joins) d.held)
          (λ j pos. d.kept j (ground arith))
