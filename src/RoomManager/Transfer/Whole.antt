-- ===== src/RoomManager/Transfer/Whole.antt =====
-- What TransferRoom of server/src/RoomManager.cpp carries over: the new room against the old one, and where
-- the sessions are told that they are.
use mo_belt.Prelude.{
  ℕ, zero, suc, ◌+◌, ◌<◌, ◌≡◌, ◌∙◌, refl, sym, ap, arith, Bool, true, if_cases, List, [], ◌∷◌, ◌++◌,
  update, to_ℕ, for_below, for_below_inv,
}
use mathlib.Core.Path.{subst}
use native.Mathlib.Decide.{ℕ_discrete}
use mo_belt.Double.{Fpu}
use mo_belt.Room.{Room, Member, RoomJoinEntry, RoomLeaveEntry, room_members}
use mo_belt.Room.Holds.{MembersTagged, AllTagged, AllTagged-same}
use mo_belt.Room.Seats.{SeatsOk}
use mo_belt.Session.Pool.{SessionPool}
use mo_belt.Session.Noted.{Noted}
use mo_belt.RoomManager.Alloc.{recycle}
use mo_belt.RoomManager.Transfer.{
  Moving, reserve_seat, redirect, move_one, move_member, carry_join, carry_joins, move_in,
}
use mo_belt.RoomManager.Transfer.Moves.{
  redirect-Noted, move_member-MovedUpTo, reserve_seat-ReservedUpTo,
}
use mo_belt.RoomManager.Transfer.MovedIn.{MovedIn, move_in-MovedIn}

-- The leaves and the clock of a room, which the loops leave alone.
abbrev Leaves : List RoomLeaveEntry → ℕ → Room → Type 0
Leaves l n r = (r.pending_leave ≡ l) × (r.world.tick ≡ n)

reserve_seat-Leaves :
    (i : ℕ) (l : List RoomLeaveEntry) (n : ℕ) (r : Room)
    → Leaves l n r
    → Leaves l n (reserve_seat i r)
unfolding reserve_seat
reserve_seat-Leaves i l n r h =
    if_cases (Leaves l n) (r.members i).used
      (record r { seat_used = update r.seat_used i true; reserved_seats = r.reserved_seats + 1 }) r
      (λ e. h) (λ e. h)

module _ {Buf : Type 0} where
  -- The sessions of the joins are told that they are in room `n`.
  abbrev pub AllTold : SessionPool Buf → ℕ → List RoomJoinEntry → Type 0
  AllTold p n [] = Unit {0}
  AllTold p n (e ∷ es) = ((p.slots e.sess_idx).room_idx ≡ n) × AllTold p n es

  -- The room `new` has all that `old` had, and the sessions `p` have become `q`.
  pub record Whole (old new : Room) (p q : SessionPool Buf) : Type 0 where
    pub members :
        (i : ℕ) → i < room_members → (old.members i).used ≡ true → new.members i ≡ old.members i
    pub used : (i : ℕ) → i < room_members → (new.members i).used ≡ (old.members i).used
    pub joins : new.pending_join ≡ old.pending_join
    pub leaves : new.pending_leave ≡ old.pending_leave
    pub clock : new.world.tick ≡ old.world.tick
    pub told :
        (i : ℕ)
        → i < room_members
        → (old.members i).used ≡ true
        → (q.slots (old.members i).sess_idx).room_idx ≡ new.idx
    pub joins_told : AllTold q new.idx old.pending_join
    pub sessions : Noted p q

  redirect_told :
      (i gen n : ℕ) (p : SessionPool Buf)
      → (p.slots i).gen ≡ gen
      → ((redirect i gen n p).slots i).room_idx ≡ n
  unfolding redirect
  redirect_told i gen n p e = ground (arith, e)

  redirect_keeps :
      (i gen n j : ℕ) (p : SessionPool Buf)
      → (p.slots j).room_idx ≡ n
      → ((redirect i gen n p).slots j).room_idx ≡ n
  unfolding redirect
  redirect_keeps i gen n j p e = ground (arith, e)

  abbrev ToldAt : ℕ → ℕ → Moving Buf → Type 0
  ToldAt n j t = (t.sessions.slots j).room_idx ≡ n

  -- A round of the loop tells its member, and the others stay told.
  round_keeps :
      (f : Fpu) (i n j : ℕ) (t : Moving Buf)
      → t.room.idx ≡ n
      → ToldAt n j t
      → ToldAt n j (move_member f i t)
  unfolding move_member move_one
  round_keeps f i n j t here e =
      let m = t.old_members i in
      if_cases (ToldAt n j) m.used (move_one f i t) t
        (λ on. redirect_keeps m.sess_idx m.sess_gen t.room.idx j t.sessions (e ∙ sym here) ∙ here)
        (λ off. e)

  round_tells :
      (f : Fpu) (i n : ℕ) (t : Moving Buf)
      → t.room.idx ≡ n
      → (t.old_members i).used ≡ true
      → (t.sessions.slots (t.old_members i).sess_idx).gen ≡ (t.old_members i).sess_gen
      → ToldAt n (t.old_members i).sess_idx (move_member f i t)
  unfolding move_member move_one
  round_tells f i n t here on tag =
      let m = t.old_members i in
      if_cases (ToldAt n m.sess_idx) m.used (move_one f i t) t
        (λ z. redirect_told m.sess_idx m.sess_gen t.room.idx t.sessions tag ∙ here)
        (λ off. absurd ground (arith, on, off))

  members_told :
      (f : Fpu) (n : ℕ) (a : Moving Buf) (k : ℕ)
      → k < n
      → (a.old_members k).used ≡ true
      → (a.sessions.slots (a.old_members k).sess_idx).gen ≡ (a.old_members k).sess_gen
      → ToldAt a.room.idx (a.old_members k).sess_idx (for_below n (move_member f) a)
  members_told f zero a k lt on tag = elim lt [ ]
  members_told f (suc n) a k lt on tag =
      let t = for_below n (move_member f) a in
      let h = move_member-MovedUpTo f n a in
      elim (ℕ_discrete k n) [
        | yes e ↦
            let same : t.old_members n ≡ a.old_members k =
              h.left n ∙ ground arith ∙ ap a.old_members (sym e) in
            let tagged : (t.sessions.slots (t.old_members n).sess_idx).gen
                ≡ (t.old_members n).sess_gen =
              h.sessions.gen (t.old_members n).sess_idx
              ∙ ap (λ (m : Member). (a.sessions.slots m.sess_idx).gen) same
              ∙ tag
              ∙ sym (ap (λ (m : Member). m.sess_gen) same) in
            subst (λ (m : Member). ToldAt a.room.idx m.sess_idx (move_member f n t)) same
              (round_tells f n a.room.idx t h.idx (ap (λ (m : Member). m.used) same ∙ on) tagged)
        | no ne ↦
            round_keeps f n a.room.idx (a.old_members k).sess_idx t h.idx
              (members_told f n a k (omega (arith, lt, ne)) on tag)
      ]

  carry_join-idx : (e : RoomJoinEntry) (a : Moving Buf) → (carry_join e a).room.idx ≡ a.room.idx
  unfolding carry_join
  carry_join-idx e a = ground arith

  carry_keeps :
      (es : List RoomJoinEntry) (a : Moving Buf) (n j : ℕ)
      → a.room.idx ≡ n
      → ToldAt n j a
      → ToldAt n j (carry_joins es a)
  unfolding carry_joins carry_join
  carry_keeps [] a n j here e = e
  carry_keeps (x ∷ es) a n j here e =
      carry_keeps es (carry_join x a) n j (carry_join-idx x a ∙ here)
        (redirect_keeps x.sess_idx x.sess_gen a.room.idx j a.sessions (e ∙ sym here) ∙ here)

  joins_told :
      (es : List RoomJoinEntry) (a : Moving Buf) (n : ℕ)
      → a.room.idx ≡ n
      → AllTagged a.sessions es
      → AllTold (carry_joins es a).sessions n es
  unfolding carry_joins carry_join
  joins_told [] a n here t = tt
  joins_told (x ∷ es) a n here t =
      let b = carry_join x a in
      (
        carry_keeps es b n x.sess_idx (carry_join-idx x a ∙ here)
            (redirect_told x.sess_idx x.sess_gen a.room.idx a.sessions t.0 ∙ here),
        joins_told es b n (carry_join-idx x a ∙ here) (
            AllTagged-same a.sessions b.sessions es
              (redirect-Noted x.sess_idx x.sess_gen a.room.idx a.sessions).gen t.1),
      )

  move_member-Leaves :
      (f : Fpu) (i : ℕ) (l : List RoomLeaveEntry) (n : ℕ) (t : Moving Buf)
      → Leaves l n t.room
      → Leaves l n (move_member f i t).room
  unfolding move_member move_one
  move_member-Leaves f i l n t h =
      if_cases (λ (u : Moving Buf). Leaves l n u.room) (t.old_members i).used (move_one f i t) t
        (λ e. h) (λ e. h)

  carry_joins-Leaves :
      (es : List RoomJoinEntry) (l : List RoomLeaveEntry) (n : ℕ) (a : Moving Buf)
      → Leaves l n a.room
      → Leaves l n (carry_joins es a).room
  unfolding carry_joins carry_join
  carry_joins-Leaves [] l n a h = h
  carry_joins-Leaves (e ∷ es) l n a h =
      carry_joins-Leaves es l n (carry_join e a) (ground (arith, h.0), ground (arith, h.1))

same_flag : (a b : Bool) → to_ℕ a ≡ to_ℕ b → a ≡ b
same_flag a b e = ground (arith, e)

module _ {Buf : Type 0} (f : Fpu) (old r : Room) (w : ℕ) (p : SessionPool Buf) (seats : SeatsOk old)
    (mt : MembersTagged p old.members) (jt : AllTagged p old.pending_join) where
  pub move_in-Whole :
      let new = recycle f r w in let t = move_in f old new p in Whole old t.room p t.sessions
  unfolding move_in recycle
  move_in-Whole =
      let start : Moving Buf = record {
        old_members = old.members;
        room = recycle f r w;
        sessions = p;
        moved = 0;
      } in
      let a = for_below room_members (move_member f) start in
      let b : Room = record (a.room) {
        world = record (a.room.world) { tick = old.world.tick };
        tick_atomic = old.world.tick;
        ever_reserved = true;
      } in
      let u = for_below room_members reserve_seat b in
      let v : Moving Buf = record a { room = u } in
      let h : MovedIn old (recycle f r w) p (move_in f old (recycle f r w) p) =
        move_in-MovedIn f old r w p seats in
      let g = move_member-MovedUpTo f room_members start in
      let here : u.idx ≡ r.idx = (reserve_seat-ReservedUpTo room_members b).idx ∙ g.idx in
      let empty : a.room.pending_leave ≡ [] =
        (for_below_inv (λ (t : Moving Buf). Leaves [] (recycle f r w).world.tick t.room)
          (move_member f) room_members start
          (λ i t lt k. move_member-Leaves f i [] (recycle f r w).world.tick t k) (refl, refl)).0 in
      let kept : Leaves [] old.world.tick (carry_joins old.pending_join v).room =
        carry_joins-Leaves old.pending_join [] old.world.tick v (
          for_below_inv (Leaves [] old.world.tick) reserve_seat room_members b
            (λ i s lt k. reserve_seat-Leaves i [] old.world.tick s k) (empty, refl)) in
      record {
        members = h.same;
        used = λ i lt. same_flag _ _ (h.used i lt);
        joins = h.joins;
        leaves = ap (λ l. l ++ old.pending_leave) kept.0;
        clock = kept.1;
        told = λ i lt on.
            carry_keeps old.pending_join v r.idx (old.members i).sess_idx here
              (members_told f room_members start i lt on (mt i lt on))
            ∙ sym h.idx;
        joins_told =
            subst (λ n. AllTold (carry_joins old.pending_join v).sessions n old.pending_join)
              (sym h.idx)
              (joins_told old.pending_join v r.idx here
                (AllTagged-same p a.sessions old.pending_join g.sessions.gen jt));
        sessions = h.sessions;
      }
