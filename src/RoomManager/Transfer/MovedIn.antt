-- ===== src/RoomManager/Transfer/MovedIn.antt =====
-- The new room of TransferRoom, once everybody has moved in.
use mo_belt.Prelude.{
  ℕ, ◌<◌, ◌≡◌, ◌∙◌, refl, sym, ap, true, false, ◌&&◌, if◌then◌else◌, ltb, ◌++◌, arith, for_below,
  to_ℕ, inl, inr, Bool-cases,
}
use mathlib.Core.Path.{subst}
use mo_belt.Double.{Fpu}
use mo_belt.Room.{Room, Member, room_members, no_member}
use mo_belt.Room.Seats.{SeatsOk, AllSeated, waiting}
use mo_belt.Session.Pool.{SessionPool}
use mo_belt.Session.Noted.{Noted, Noted-trans}
use mo_belt.RoomManager.Alloc.{recycle}
use mo_belt.RoomManager.Transfer.{Moving, reserve_seat, move_member, carry_joins, move_in}
use mo_belt.RoomManager.Transfer.Moves.{
  MovedUpTo, move_member-MovedUpTo, ReservedUpTo, reserve_seat-ReservedUpTo, carry_joins-Carried,
  OneEach,
}

module _ {Buf : Type 0} where
  pub record MovedIn (old new : Room) (p : SessionPool Buf) (t : Moving Buf) : Type 0 where
    pub idx : t.room.idx ≡ new.idx
    pub seats : SeatsOk t.room
    pub joins : t.room.pending_join ≡ old.pending_join
    pub used : (i : ℕ) → i < room_members → to_ℕ (t.room.members i).used ≡ to_ℕ (old.members i).used
    pub same :
        (i : ℕ) → i < room_members → (old.members i).used ≡ true → t.room.members i ≡ old.members i
    pub left : (i : ℕ) → i < room_members → (t.old_members i).used ≡ false
    pub sessions : Noted p t.sessions

no_member-free : no_member.used ≡ false
unfolding no_member
no_member-free = refl

-- What the loop leaves at one place.
picked :
    (i : ℕ) (m b c : Member)
    → i < room_members
    → m ≡ (if ltb i 4 && b.used then b else c)
    → c.used ≡ false
    → (m.used ≡ b.used) × (b.used ≡ true → m ≡ b)
picked i m b c lt e free = elim (Bool-cases b.used) [
  | inl on ↦
      let test : (ltb i 4 && b.used) ≡ true = ground (arith, on) in
      let same : m ≡ b = e ∙ ap (λ x. if x then b else c) test in
      (ap (λ (m : Member). m.used) same, λ u. same)
  | inr off ↦
      let test : (ltb i 4 && b.used) ≡ false = ground (arith, off) in
      let same : m ≡ c = e ∙ ap (λ x. if x then b else c) test in
      (ap (λ (m : Member). m.used) same ∙ free ∙ sym off, λ u. cc)
]

left_free :
    (i : ℕ) (m b : Member)
    → i < room_members
    → m ≡ (if ltb i 4 && b.used then record b { used = false } else b)
    → m.used ≡ false
left_free i m b lt e = elim (Bool-cases b.used) [
  | inl on ↦
      let test : (ltb i 4 && b.used) ≡ true = ground (arith, on) in
      ap (λ (m : Member). m.used) (e ∙ ap (λ x. if x then record b { used = false } else b) test)
  | inr off ↦
      let test : (ltb i 4 && b.used) ≡ false = ground (arith, off) in
      ap (λ (m : Member). m.used) (e ∙ ap (λ x. if x then record b { used = false } else b) test)
      ∙ off
]

module _ {Buf : Type 0} (f : Fpu) (old r : Room) (w : ℕ) (p : SessionPool Buf) where
  abbrev start : Moving Buf
  start = record { old_members = old.members; room = recycle f r w; sessions = p; moved = 0 }

  -- The members have moved; the clock goes on.
  abbrev timed : Moving Buf → Room
  timed a = record (a.room) {
    world = record (a.room.world) { tick = old.world.tick };
    tick_atomic = old.world.tick;
    ever_reserved = true;
  }

  of_old :
      (a : Moving Buf)
      → MovedUpTo 4 start a
      → (i : ℕ) → i < room_members
      → to_ℕ (a.room.members i).used ≡ to_ℕ (old.members i).used
  unfolding recycle
  of_old a h i lt = ap to_ℕ (picked i _ _ no_member lt (h.members i) no_member-free).0

  -- The seats of the members, before the joins.
  seats_taken :
      (a : Moving Buf) (u : Room)
      → MovedUpTo 4 start a
      → ReservedUpTo 4 (timed a) u
      → SeatsOk (record u { member_count = a.moved })
  unfolding recycle no_member
  seats_taken a u h g =
      let used : (i : ℕ) → u.members i ≡ a.room.members i = λ i. ap (λ m. m i) g.members in
      record {
        each = λ i lt. ground (
          arith,
          g.seat_used i,
          used i,
          ap (waiting i) (g.joins ∙ h.joins),
          ap (λ s. s i) h.seat_used,
        );
        seated = subst AllSeated (sym (g.joins ∙ h.joins)) tt;
        reserved = ground (
          arith,
          g.reserved,
          h.reserved,
          g.seat_used 0,
          g.seat_used 1,
          g.seat_used 2,
          g.seat_used 3,
          ap (λ s. s 0) h.seat_used,
          ap (λ s. s 1) h.seat_used,
          ap (λ s. s 2) h.seat_used,
          ap (λ s. s 3) h.seat_used,
        );
        counted = omega (
          arith,
          h.moved,
          of_old a h 0 (omega arith),
          of_old a h 1 (omega arith),
          of_old a h 2 (omega arith),
          of_old a h 3 (omega arith),
          ap (λ (m : Member). to_ℕ m.used) (used 0),
          ap (λ (m : Member). to_ℕ m.used) (used 1),
          ap (λ (m : Member). to_ℕ m.used) (used 2),
          ap (λ (m : Member). to_ℕ m.used) (used 3),
        );
      }

  -- Each seat of the old room was for one, so each is in the new one.
  one_each :
      (a : Moving Buf) (u : Room)
      → MovedUpTo 4 start a
      → ReservedUpTo 4 (timed a) u
      → SeatsOk old
      → OneEach u old.pending_join
  unfolding recycle
  one_each a u h g s i lt = ground (
    arith,
    s.each i lt,
    of_old a h i lt,
    ap (λ m. m i) g.members,
    ap (waiting i) (g.joins ∙ h.joins),
  )

  -- The room that results, from what the loops over the members and the seats leave.
  assembled :
      (a : Moving Buf) (u : Room)
      → MovedUpTo 4 start a
      → ReservedUpTo 4 (timed a) u
      → SeatsOk old
      → let c = carry_joins old.pending_join (record a { room = u }) in
        MovedIn old (recycle f r w) p (record c {
          room = record (c.room) {
            pending_leave = c.room.pending_leave ++ old.pending_leave;
            member_count = c.moved;
          };
        })
  unfolding recycle
  assembled a u h g s =
      let b : Moving Buf = record a { room = u } in
      let c =
        carry_joins-Carried old.pending_join b s.seated (seats_taken a u h g)
          (one_each a u h g s) in
      let at : (i : ℕ) → (carry_joins old.pending_join b).room.members i ≡ a.room.members i =
        λ i. ap (λ m. m i) (c.members ∙ g.members) in
      record {
        idx = c.idx ∙ g.idx ∙ h.idx;
        seats = record {
          each = c.seats.each;
          seated = c.seats.seated;
          reserved = c.seats.reserved;
          counted = c.moved ∙ c.seats.counted;
        };
        joins = c.joins ∙ ap (λ l. l ++ old.pending_join) (g.joins ∙ h.joins);
        used = λ i lt. ap (λ (m : Member). to_ℕ m.used) (at i) ∙ of_old a h i lt;
        same = λ i lt on. at i ∙ (picked i _ _ no_member lt (h.members i) no_member-free).1 on;
        left = λ i lt. ap (λ m. (m i).used) c.old_members ∙ left_free i _ _ lt (h.left i);
        sessions = Noted-trans h.sessions c.sessions;
      }

  pub move_in-MovedIn :
      SeatsOk old → MovedIn old (recycle f r w) p (move_in f old (recycle f r w) p)
  unfolding move_in
  move_in-MovedIn =
      assembled (for_below room_members (move_member f) start)
        (for_below room_members reserve_seat (timed (for_below room_members (move_member f) start)))
        (move_member-MovedUpTo f room_members start)
        (reserve_seat-ReservedUpTo room_members
          (timed (for_below room_members (move_member f) start)))
