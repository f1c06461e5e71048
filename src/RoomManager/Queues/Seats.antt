-- ===== src/RoomManager/Queues/Seats.antt =====
-- ProcessRoomQueues of server/src/RoomManager.cpp and the seat ledger.
use mo_belt.Prelude.{
  ℕ, ◌<◌, ◌≡◌, inl, inr, true, false, some, List, [], ◌∷◌, arith, to_ℕ, sum_below-update,
  Bool-cases, Option-cases,
}
use mo_belt.Double.{Fpu}
use mo_belt.Room.{Room, Member, RoomJoinEntry, RoomLeaveEntry, room_members, no_member}
use mo_belt.Room.Seats.{Seats, waiting}
use mo_belt.RoomManager.Queues.{
  Work, give_back, seat_member, unseat, is_member, find_member, is_stale, apply_join, apply_joins,
  apply_leave, apply_leaves,
}

module _ {r : Room} {e : RoomJoinEntry} {es : List RoomJoinEntry} (h : Seats r (e ∷ es)) where
  -- The seat of a join in hand is reserved and empty, and no other join waits for it.
  pub seat_of_join :
      (r.seat_used e.actor_id ≡ true)
      × ((r.members e.actor_id).used ≡ false)
      × (waiting e.actor_id es ≡ 0)
  seat_of_join = ground (arith, h.each e.actor_id h.seated.0)

  -- Skipping a join frees its seat.
  pub give_back-Seats : Seats (give_back e.actor_id r) es
  unfolding give_back
  give_back-Seats = record {
    each = λ i lt. ground (arith, h.each i lt, seat_of_join);
    seated = h.seated.1;
    reserved = ground (
      arith,
      h.reserved,
      seat_of_join,
      sum_below-update to_ℕ room_members r.seat_used e.actor_id false h.seated.0,
    );
    counted = h.counted;
  }

  -- A join that is taken turns its reservation into a member.
  pub seat_member-Seats : (f : Fpu) (owner : ℕ) → Seats (seat_member f e owner r) es
  unfolding seat_member no_member
  seat_member-Seats f owner = record {
    each = λ i lt. ground (arith, h.each i lt, seat_of_join);
    seated = h.seated.1;
    reserved = h.reserved;
    counted = ground (
      arith,
      h.counted,
      seat_of_join,
      sum_below-update (λ (m : Member). to_ℕ m.used) room_members r.members e.actor_id
          (record no_member {
            used = true;
            sess_idx = e.sess_idx;
            sess_gen = e.sess_gen;
            sess_owner = owner;
          })
          h.seated.0,
    );
  }

-- A seat found for a leave holds that member.
pub find_member-some :
    (e : RoomLeaveEntry) (m : ℕ → Member) (i : ℕ)
    → find_member e m ≡ some i
    → (i < room_members) × (is_member e (m i) ≡ true)
unfolding find_member
find_member-some e m i h = ground arith

-- A member that leaves frees its seat.
pub unseat-Seats :
    {r : Room} {es : List RoomJoinEntry} (i : ℕ)
    → i < room_members
    → (r.members i).used ≡ true
    → Seats r es
    → Seats (give_back i (unseat i r)) es
unfolding give_back unseat
unseat-Seats {r} {es} i lt used h = record {
  each = λ j b. ground (arith, h.each j b, h.each i lt);
  seated = h.seated;
  reserved =
      ground
        (arith, h.reserved, h.each i lt, sum_below-update to_ℕ room_members r.seat_used i false lt);
  counted = ground (
    arith,
    h.counted,
    sum_below-update (λ (m : Member). to_ℕ m.used) room_members r.members i
        (record (r.members i) { used = false }) lt,
  );
}

module _ {Buf : Type 0} where
  pub apply_join-Seats :
      (f : Fpu) (e : RoomJoinEntry) (es : List RoomJoinEntry) (w : Work Buf)
      → Seats w.room (e ∷ es)
      → Seats (apply_join f e w).room es
  unfolding apply_join
  apply_join-Seats f e es w h = elim (Bool-cases (is_stale w.sessions e)) [
    | inl stale ↦ rw stale (give_back-Seats h)
    | inr fresh ↦ rw fresh (seat_member-Seats h f _)
  ]

  pub apply_joins-Seats :
      (f : Fpu) (es : List RoomJoinEntry) (w : Work Buf)
      → Seats w.room es
      → Seats (apply_joins f es w).room []
  unfolding apply_joins
  apply_joins-Seats f [] w h = h
  apply_joins-Seats f (e ∷ es) w h =
      apply_joins-Seats f es (apply_join f e w) (apply_join-Seats f e es w h)

  apply_leave-Seats :
      (e : RoomLeaveEntry) (w : Work Buf) {es : List RoomJoinEntry}
      → Seats w.room es
      → Seats (apply_leave e w).room es
  unfolding apply_leave is_member
  apply_leave-Seats e w h = elim (Option-cases (find_member e w.room.members)) [
    | inl missing ↦ rw (missing, apply_leave) h
    | inr (i, found) ↦
        let (lt, hit) = find_member-some e w.room.members i found in
        rw (found, apply_leave) (unseat-Seats i lt (ground arith) h)
  ]

  pub apply_leaves-Seats :
      (es : List RoomLeaveEntry) (w : Work Buf) {js : List RoomJoinEntry}
      → Seats w.room js
      → Seats (apply_leaves es w).room js
  unfolding apply_leaves
  apply_leaves-Seats [] w h = h
  apply_leaves-Seats (e ∷ es) w h =
      apply_leaves-Seats es (apply_leave e w) (apply_leave-Seats e w h)
