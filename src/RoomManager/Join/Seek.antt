-- ===== src/RoomManager/Join/Seek.antt =====
-- How Join finds a seat: the walk over the open rooms, and the reservation.
use mo_belt.Prelude.{
  ℕ, ◌≤◌, ◌<◌, ◌≡◌, ◌≢◌, refl, inl, inr, Bool, true, false, if◌then◌else◌, Option, none, some, List,
  [], ◌∷◌, ◌++◌, arith, ◌==◌, to_ℕ, sum_below-update, count_by-append, Option-cases,
}
use mo_belt.Room.{Room, RoomJoinEntry, room_members}
use mo_belt.Room.Seats.{Seats, AllSeated}
use mo_belt.Session.Invariant.{times}
use mo_belt.RoomManager.Join.{free_seat, seek_room, drop_back, reserve}

pub free_seat-some :
    (used : ℕ → Bool) (i : ℕ) → free_seat used ≡ some i → (i < room_members) × (used i ≡ false)
unfolding free_seat
free_seat-some used i h = ground arith

-- A room without a free seat has all four taken.
pub free_seat-none :
    (used : ℕ → Bool)
    → free_seat used ≡ none
    → (used 0 ≡ true) × (used 1 ≡ true) × (used 2 ≡ true) × (used 3 ≡ true)
unfolding free_seat
free_seat-none used h = ground arith

-- What the walk finds: a free seat of a living room on the list, and the rest of the list below it;
-- or nothing, and then the list is used up.
abbrev pub Sought : (ℕ → Room) → List ℕ → Option (ℕ × ℕ) × List ℕ → Type 0
Sought slots l (none, left) = left ≡ []
Sought slots l (some (r, seat), left) =
    (seat < room_members)
    × ((slots r).seat_used seat ≡ false)
    × ((slots r).dead ≡ false)
    × (times r left ≢ 0)
    × ((k : ℕ) → times k left ≤ times k l)

Sought-cons :
    (slots : ℕ → Room) (r : ℕ) (l : List ℕ) (x : Option (ℕ × ℕ) × List ℕ)
    → Sought slots l x
    → Sought slots (r ∷ l) x
Sought-cons slots r l (none, left) h = h
Sought-cons slots r l (some (q, seat), left) h = (h.0, h.1, h.2, h.3, λ k. omega (arith, h.4 k))

pub seek_room-Sought : (slots : ℕ → Room) (l : List ℕ) → Sought slots l (seek_room slots l)
unfolding seek_room
seek_room-Sought slots [] = refl
seek_room-Sought slots (r ∷ l) =
    elim (Option-cases (if (slots r).dead then none else free_seat (slots r).seat_used)) [
      | inl miss ↦
          rw (miss, seek_room)
            (Sought-cons slots r l (seek_room slots l) (seek_room-Sought slots l))
      | inr (seat, hit) ↦
          rw (hit, seek_room)
            (let alive : (slots r).dead ≡ false = ground arith in
              let found : free_seat (slots r).seat_used ≡ some seat = ground arith in
              let (lt, free) = free_seat-some (slots r).seat_used seat found in
              (lt, free, alive, ground arith, λ k. omega arith))
    ]

pub times-drop_back : (k : ℕ) (l : List ℕ) → times k (drop_back l) ≤ times k l
times-drop_back k [] = omega arith
times-drop_back k (r ∷ l) = omega arith

AllSeated-append :
    (es : List RoomJoinEntry) (e : RoomJoinEntry)
    → AllSeated es
    → e.actor_id < room_members
    → AllSeated (es ++ e ∷ [])
AllSeated-append [] e h lt = (lt, tt)
AllSeated-append (x ∷ es) e h lt = (h.0, AllSeated-append es e h.1 lt)

-- A free seat is reserved for one more join.
pub reserve-Seats :
    {r : Room} {es : List RoomJoinEntry} (e : RoomJoinEntry) (seat : ℕ)
    → Seats r es
    → seat < room_members
    → r.seat_used seat ≡ false
    → e.actor_id ≡ seat
    → Seats (reserve seat r) (es ++ e ∷ [])
unfolding reserve
reserve-Seats {r} {es} e seat h lt free at = record {
  each = λ i b. ground (
    arith,
    h.each i b,
    h.each seat lt,
    count_by-append (λ (x : RoomJoinEntry). x.actor_id == i) es (e ∷ []),
  );
  seated = AllSeated-append es e h.seated (omega arith);
  reserved =
      ground (arith, h.reserved, sum_below-update to_ℕ room_members r.seat_used seat true lt);
  counted = h.counted;
}
