-- ===== src/RoomManager/Transfer/Moves.antt =====
-- The loops of TransferRoom (server/src/RoomManager.cpp) over the members, the seats and the joins.
use mo_belt.Prelude.{
  ℕ, zero, suc, ◌+◌, ◌<◌, ◌≤◌, ◌≡◌, ◌∙◌, refl, sym, ap, inl, inr, Bool, true, false, ◌&&◌,
  if◌then◌else◌, ltb, ◌==◌, List, [], ◌∷◌, ◌++◌, arith, update, for_below, to_ℕ, sum_below,
  Bool-cases, fill_round, skip_round, if_cases, append-one, append-nil, count_by-append,
}
use mo_belt.Double.{Fpu}
use mo_belt.Room.{Room, Member, RoomJoinEntry, room_members}
use mo_belt.Room.Seats.{Seats, AllSeated, waiting}
use mo_belt.Session.Pool.{SessionPool}
use mo_belt.Session.Noted.{Noted, Noted-refl, Noted-trans, put_slot-Noted}
use mo_belt.RoomManager.Join.{reserve}
use mo_belt.RoomManager.Join.Seek.{reserve-Seats}
use mo_belt.RoomManager.Transfer.{
  Moving, reserve_seat, redirect, move_one, move_member, carry_join, carry_joins,
}

module _ {Buf : Type 0} where
  pub redirect-Noted : (i gen room : ℕ) (p : SessionPool Buf) → Noted p (redirect i gen room p)
  unfolding redirect
  redirect-Noted i gen room p = elim (Bool-cases ((p.slots i).gen == gen)) [
    | inl same ↦ rw same (put_slot-Noted p i _ refl refl refl)
    | inr other ↦ rw other (Noted-refl p)
  ]

  -- The state after `n` rounds of the loop over the members, from `a`.
  pub record MovedUpTo (n : ℕ) (a t : Moving Buf) : Type 0 where
    pub members :
        (k : ℕ)
        → t.room.members k
          ≡ (if ltb k n && (a.old_members k).used then a.old_members k else a.room.members k)
    pub left :
        (k : ℕ)
        → t.old_members k ≡ (
            if ltb k n && (a.old_members k).used
            then record (a.old_members k) { used = false }
            else a.old_members k)
    pub moved : t.moved ≡ a.moved + sum_below n (λ k. to_ℕ (a.old_members k).used)
    pub idx : t.room.idx ≡ a.room.idx
    pub seat_used : t.room.seat_used ≡ a.room.seat_used
    pub reserved : t.room.reserved_seats ≡ a.room.reserved_seats
    pub joins : t.room.pending_join ≡ a.room.pending_join
    pub sessions : Noted a.sessions t.sessions

  at_place : (n : ℕ) (a t : Moving Buf) → MovedUpTo n a t → t.old_members n ≡ a.old_members n
  at_place n a t h = h.left n ∙ ground arith

  moved_on :
      (f : Fpu) (n : ℕ) (a t : Moving Buf)
      → MovedUpTo n a t
      → (t.old_members n).used ≡ true
      → MovedUpTo (suc n) a (move_one f n t)
  unfolding move_one
  moved_on f n a t h on =
      let at = at_place n a t h in
      let used : (a.old_members n).used ≡ true = sym (ap (λ (m : Member). m.used) at) ∙ on in
      let test : ℕ → Bool = λ k. (a.old_members k).used in
      let free : ℕ → Member = λ k. record (a.old_members k) { used = false } in
      record {
        members = λ k.
            ap (λ v. update t.room.members n v k) at
            ∙ fill_round test a.old_members a.room.members t.room.members n h.members used k;
        left = λ k.
            ap (λ (v : Member). update t.old_members n (record v { used = false }) k) at
            ∙ fill_round test free a.old_members t.old_members n h.left used k;
        moved = omega (arith, h.moved, ap to_ℕ used);
        idx = h.idx;
        seat_used = h.seat_used;
        reserved = h.reserved;
        joins = h.joins;
        sessions = Noted-trans h.sessions (redirect-Noted _ _ _ t.sessions);
      }

  moved_off :
      (n : ℕ) (a t : Moving Buf)
      → MovedUpTo n a t
      → (t.old_members n).used ≡ false
      → MovedUpTo (suc n) a t
  moved_off n a t h off =
      let used : (a.old_members n).used ≡ false =
        sym (ap (λ (m : Member). m.used) (at_place n a t h)) ∙ off in
      let test : ℕ → Bool = λ k. (a.old_members k).used in
      record {
        members = skip_round test a.old_members a.room.members t.room.members n h.members used;
        left = skip_round test _ a.old_members t.old_members n h.left used;
        moved = omega (arith, h.moved, ap to_ℕ used);
        idx = h.idx;
        seat_used = h.seat_used;
        reserved = h.reserved;
        joins = h.joins;
        sessions = h.sessions;
      }

  pub move_member-MovedUpTo :
      (f : Fpu) (n : ℕ) (a : Moving Buf) → MovedUpTo n a (for_below n (move_member f) a)
  unfolding move_member
  move_member-MovedUpTo f zero a = record {
    members = λ k. ground arith;
    left = λ k. ground arith;
    moved = omega arith;
    idx = refl;
    seat_used = refl;
    reserved = refl;
    joins = refl;
    sessions = Noted-refl a.sessions;
  }
  move_member-MovedUpTo f (suc n) a =
      let t = for_below n (move_member f) a in
      let h = move_member-MovedUpTo f n a in
      if_cases (MovedUpTo (suc n) a) (t.old_members n).used (move_one f n t) t (moved_on f n a t h)
        (moved_off n a t h)

-- The seats of the members: `n` rounds of the loop.
pub record ReservedUpTo (n : ℕ) (r t : Room) : Type 0 where
  pub seat_used :
      (k : ℕ) → t.seat_used k ≡ (if ltb k n && (r.members k).used then true else r.seat_used k)
  pub reserved : t.reserved_seats ≡ r.reserved_seats + sum_below n (λ k. to_ℕ (r.members k).used)
  pub members : t.members ≡ r.members
  pub idx : t.idx ≡ r.idx
  pub joins : t.pending_join ≡ r.pending_join

pub reserve_seat-ReservedUpTo : (n : ℕ) (r : Room) → ReservedUpTo n r (for_below n reserve_seat r)
unfolding reserve_seat
reserve_seat-ReservedUpTo zero r = record {
  seat_used = λ k. ground arith;
  reserved = omega arith;
  members = refl;
  idx = refl;
  joins = refl;
}
reserve_seat-ReservedUpTo (suc n) r =
    let t = for_below n reserve_seat r in
    let h = reserve_seat-ReservedUpTo n r in
    let at : (t.members n).used ≡ (r.members n).used = ap (λ m. (m n).used) h.members in
    let test : ℕ → Bool = λ k. (r.members k).used in
    let taken : ℕ → Bool = λ k. true in
    if_cases (ReservedUpTo (suc n) r) (t.members n).used
      (record t { seat_used = update t.seat_used n true; reserved_seats = t.reserved_seats + 1 }) t
      (λ on. record {
        seat_used = fill_round test taken r.seat_used t.seat_used n h.seat_used (sym at ∙ on);
        reserved = omega (arith, h.reserved, ap to_ℕ (sym at ∙ on));
        members = h.members;
        idx = h.idx;
        joins = h.joins;
      })
      (λ off. record {
        seat_used = skip_round test taken r.seat_used t.seat_used n h.seat_used (sym at ∙ off);
        reserved = omega (arith, h.reserved, ap to_ℕ (sym at ∙ off));
        members = h.members;
        idx = h.idx;
        joins = h.joins;
      })

-- Whether a join may still take its seat: each seat is for one member or one join.
abbrev pub OneEach : Room → List RoomJoinEntry → Type 0
OneEach r es =
    (i : ℕ)
    → i < room_members
    → to_ℕ (r.members i).used + waiting i r.pending_join + waiting i es ≤ 1

module _ {Buf : Type 0} where
  -- The joins come over with their seats.
  pub record Carried (es : List RoomJoinEntry) (a t : Moving Buf) : Type 0 where
    pub seats : Seats (record (t.room) { member_count = a.moved }) t.room.pending_join
    pub members : t.room.members ≡ a.room.members
    pub joins : t.room.pending_join ≡ a.room.pending_join ++ es
    pub idx : t.room.idx ≡ a.room.idx
    pub old_members : t.old_members ≡ a.old_members
    pub moved : t.moved ≡ a.moved
    pub sessions : Noted a.sessions t.sessions

  carry_join-Carried :
      (e : RoomJoinEntry) (a : Moving Buf)
      → e.actor_id < room_members
      → Seats (record (a.room) { member_count = a.moved }) a.room.pending_join
      → a.room.seat_used e.actor_id ≡ false
      → Carried (e ∷ []) a (carry_join e a)
  unfolding carry_join reserve
  carry_join-Carried e a lt s free =
      let h = reserve-Seats e e.actor_id s lt free refl in
      rw free (record {
        seats = record {
          each = h.each;
          seated = h.seated;
          reserved = h.reserved;
          counted = h.counted;
        };
        members = refl;
        joins = refl;
        idx = refl;
        old_members = refl;
        moved = refl;
        sessions = redirect-Noted e.sess_idx e.sess_gen a.room.idx a.sessions;
      })

  Carried-trans :
      (e : RoomJoinEntry) (es : List RoomJoinEntry) (a b t : Moving Buf)
      → Carried (e ∷ []) a b
      → Carried es b t
      → Carried (e ∷ es) a t
  Carried-trans e es a b t g h = record {
    seats = record {
      each = h.seats.each;
      seated = h.seats.seated;
      reserved = h.seats.reserved;
      counted = sym g.moved ∙ h.seats.counted;
    };
    members = h.members ∙ g.members;
    joins = h.joins ∙ ap (λ l. l ++ es) g.joins ∙ append-one a.room.pending_join e es;
    idx = h.idx ∙ g.idx;
    old_members = h.old_members ∙ g.old_members;
    moved = h.moved ∙ g.moved;
    sessions = Noted-trans g.sessions h.sessions;
  }

  pub carry_joins-Carried :
      (es : List RoomJoinEntry) (a : Moving Buf)
      → AllSeated es
      → Seats (record (a.room) { member_count = a.moved }) a.room.pending_join
      → OneEach a.room es
      → Carried es a (carry_joins es a)
  unfolding carry_joins
  carry_joins-Carried [] a on s one = record {
    seats = s;
    members = refl;
    joins = ground (arith, append-nil a.room.pending_join);
    idx = refl;
    old_members = refl;
    moved = refl;
    sessions = Noted-refl a.sessions;
  }
  carry_joins-Carried (e ∷ es) a on s one =
      let b = carry_join e a in
      let c =
        carry_join-Carried e a on.0 s (ground (arith, s.each e.actor_id, one e.actor_id, on.0)) in
      Carried-trans e es a b (carry_joins es b) c (
        carry_joins-Carried es b on.1
          (record {
            each = c.seats.each;
            seated = c.seats.seated;
            reserved = c.seats.reserved;
            counted = c.moved ∙ c.seats.counted;
          })
          (λ i lt. ground (
            arith,
            one i lt,
            ap (λ m. m i) c.members,
            ap (waiting i) c.joins,
            count_by-append (λ (x : RoomJoinEntry). x.actor_id == i) a.room.pending_join (e ∷ []),
          )))
