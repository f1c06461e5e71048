-- ===== src/Room/Seats.antt =====
-- The seat ledger of a room: its invariant, and what it says.
use mo_belt.Prelude.{
  ℕ, ◌+◌, ◌<◌, ◌≡◌, List, [], ◌∷◌, arith, ◌==◌, to_ℕ, sum_below, count_by, length,
}
use mo_belt.Room.{Room, RoomJoinEntry, room_members}

-- The joins that wait for seat `i`.
abbrev pub waiting : ℕ → List RoomJoinEntry → ℕ
waiting i = count_by (λ e. e.actor_id == i)

abbrev pub AllSeated : List RoomJoinEntry → Type 0
AllSeated [] = Unit {0}
AllSeated (e ∷ es) = (e.actor_id < room_members) × AllSeated es

-- A seat is reserved exactly for one member or one of the joins `es`, and both counters count.
pub record Seats (r : Room) (es : List RoomJoinEntry) : Type 0 where
  pub each :
      (i : ℕ) → i < room_members → to_ℕ (r.seat_used i) ≡ to_ℕ (r.members i).used + waiting i es
  pub seated : AllSeated es
  pub reserved : r.reserved_seats ≡ sum_below room_members (λ i. to_ℕ (r.seat_used i))
  pub counted : r.member_count ≡ sum_below room_members (λ i. to_ℕ (r.members i).used)

-- The ledger agrees with the room's own queue.
abbrev pub SeatsOk : Room → Type 0
SeatsOk r = Seats r r.pending_join

total_waiting :
    (es : List RoomJoinEntry)
    → AllSeated es
    → length es ≡ waiting 0 es + waiting 1 es + waiting 2 es + waiting 3 es
total_waiting [] h = omega arith
total_waiting (e ∷ es) h = ground (arith, total_waiting es h.1)

-- Where the seat ledger is right, the reserved seats are as many as the members and the joins.
pub reserved-eq-members-add-waiting :
    {r : Room} {es : List RoomJoinEntry}
    → Seats r es
    → r.reserved_seats ≡ r.member_count + length es
reserved-eq-members-add-waiting {es = es} h = omega (
  arith,
  h.reserved,
  h.counted,
  total_waiting es h.seated,
  h.each 0 (omega arith),
  h.each 1 (omega arith),
  h.each 2 (omega arith),
  h.each 3 (omega arith),
)
