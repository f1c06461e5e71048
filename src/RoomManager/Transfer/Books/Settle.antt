-- ===== src/RoomManager/Transfer/Books/Settle.antt =====
-- The books before and after TransferRoom.
use mo_belt.Prelude.{
  ℕ, ◌+◌, ◌%◌, ◌^◌, ◌<◌, ◌≡◌, ◌≢◌, ◌∙◌, refl, sym, ap, inl, inr, true, false, ◌||◌, not,
  if◌then◌else◌, if_cases, Option, none, some, ◌∷◌, arith, ltb, ◌==◌, update, update_ne,
  update_self, to_ℕ, Bool-cases, for_below, for_below_inv,
}
use mathlib.Core.Path.{subst, fun_ext}
use native.Mathlib.Decide.{ℕ_discrete}
use mo_belt.Double.{Fpu}
use mo_belt.RingBuffer.{Ring}
use mo_belt.Room.{Room, Member, room_members}
use mo_belt.Room.Holds.{MembersTagged, AllTagged, AllTagged-same, refers}
use mo_belt.Session.Pool.{SessionPool}
use mo_belt.Session.Invariant.{times}
use mo_belt.Session.Noted.{Noted, Noted-refl, Noted-trans, put_slot-Noted}
use mo_belt.RoomManager.{Server}
use mo_belt.RoomManager.Alloc.{alloc_slot, inc_u32, recycle, free_room}
use mo_belt.RoomManager.Alloc.Load.{AllocOk, alloc_from-AllocOk, holds-recycle}
use mo_belt.RoomManager.Books.{AgreeOff, BooksOk, held_by}
use mo_belt.RoomManager.Queues.{swap_remove}
use mo_belt.RoomManager.Queues.Process.{times-swap_remove}
use mo_belt.RoomManager.Join.Leave.{Noted-BooksOk}
use mo_belt.Protocol.{room_event_msg}
use mo_belt.RoomManager.Snapshot.{enqueue_to, is_gone, mark}
use mo_belt.RoomManager.Transfer.{
  Moving, room_event_size, move_event, vacate, move_in, settle, notify, transfer_to, transfer_room,
}
use mo_belt.RoomManager.Transfer.MovedIn.{MovedIn, move_in-MovedIn}
use mo_belt.RoomManager.Transfer.Books.{Vacated, Arrived, move-BooksOk}

module _ {Buf : Type 0} {old new : Room} {p : SessionPool Buf} {t : Moving Buf}
    (h : MovedIn old new p t) where
  same_refers :
      (j i : ℕ) → i < room_members → refers j (t.room.members i) ≡ refers j (old.members i)
  same_refers j i lt = elim (Bool-cases (old.members i).used) [
    | inl on ↦ ap (refers j) (h.same i lt on)
    | inr off ↦ ground (arith, off, h.used i lt)
  ]

  MovedIn-holds : (j : ℕ) → held_by j t.room ≡ held_by j old
  MovedIn-holds j = ground (
    arith,
    same_refers j 0 (omega arith),
    same_refers j 1 (omega arith),
    same_refers j 2 (omega arith),
    same_refers j 3 (omega arith),
    h.joins,
  )

  MovedIn-Arrived :
      (n : ℕ)
      → new.idx ≡ n
      → MembersTagged p old.members
      → AllTagged p old.pending_join
      → Arrived n t.sessions old t.room
  MovedIn-Arrived n e mt jt = record {
    idx = h.idx ∙ e;
    seats = h.seats;
    holds_all = MovedIn-holds;
    tagged = (
      λ i lt on.
          let was : (old.members i).used ≡ true = ground (arith, h.used i lt) in
          let at = h.same i lt was in
          h.sessions.gen (t.room.members i).sess_idx
          ∙ ap (λ (x : Member). (p.slots x.sess_idx).gen) at
          ∙ mt i lt was
          ∙ sym (ap (λ (x : Member). x.sess_gen) at),
      subst (AllTagged t.sessions) (sym h.joins)
          (AllTagged-same p t.sessions old.pending_join h.sessions.gen jt),
    );
  }

  vacate-Vacated :
      (i : ℕ)
      → old.idx ≡ i
      → Vacated i p (record (vacate t.old_members old) { gen = inc_u32 old.gen })
  unfolding vacate
  vacate-Vacated i e = record {
    idx = e;
    seats = record {
      each = λ k lt. ground (arith, h.left k lt);
      seated = tt;
      reserved = refl;
      counted = ground (
        arith,
        h.left 0 (omega arith),
        h.left 1 (omega arith),
        h.left 2 (omega arith),
        h.left 3 (omega arith),
      );
    };
    holds_none = λ j. ground (
      arith,
      h.left 0 (omega arith),
      h.left 1 (omega arith),
      h.left 2 (omega arith),
      h.left 3 (omega arith),
    );
    tagged = (λ k lt on. ground (arith, h.left k lt), tt);
    reserved = refl;
  }

-- The three writes to the room slots.
pub settled :
    (s : ℕ → Room) (i n : ℕ) (new v : Room)
    → n ≢ i
    → let x = update (update s n new) i v in
      let t = update x i (record (x i) { gen = inc_u32 (x i).gen }) in
      AgreeOff n t (update s i (record v { gen = inc_u32 v.gen }))
      × (t n ≡ new)
      × ((x i).idx ≡ v.idx)
settled s i n new v ne =
    let x = update (update s n new) i v in
    let w : Room = record v { gen = inc_u32 v.gen } in
    let add : Room → Room = λ u. record u { gen = inc_u32 u.gen } in
    let at : x i ≡ v = update_self (update s n new) i v in
    (
      λ k off. elim (ℕ_discrete k i) [
        | yes e ↦
            ap (update x i (add (x i))) e
            ∙ update_self x i (add (x i))
            ∙ ap add at
            ∙ sym (ap (update s i w) e ∙ update_self s i w)
        | no other ↦
            update_ne x i (add (x i)) k other
            ∙ update_ne (update s n new) i v k other
            ∙ update_ne s n new k off
            ∙ sym (update_ne s i w k other)
      ],
      update_ne x i (add (x i)) n ne ∙ update_ne (update s n new) i v n ne ∙ update_self s n new,
      ap (λ (u : Room). u.idx) at,
    )

-- A recycled slot holds nothing.
bare_slot : (f : Fpu) (r slot : Room) (w : ℕ) → slot ≡ recycle f r w → (j : ℕ) → held_by j slot ≡ 0
bare_slot f r slot w at j = ap (held_by j) at ∙ holds-recycle f r w j

module _ {Buf : Type 0} (live owned : ℕ → ℕ) (f : Fpu) (g : Ring Buf) where
  settle-BooksOk :
      (i n w : ℕ) (r : Room) (s : Server Buf)
      → BooksOk live owned s.rooms s.sessions
      → owned i ≡ 1
      → n ≢ i
      → n < s.rooms.cap
      → times n s.rooms.free_rooms ≡ 0
      → times n s.rooms.open_rooms ≡ 0
      → s.rooms.slots n ≡ recycle f r w
      → let u = settle f g i n s in BooksOk live (update owned i 0) u.rooms u.sessions
  unfolding settle free_room
  settle-BooksOk i n w r s h mine ne lt busy shut at =
      let m = s.rooms in
      let old = m.slots i in
      let here : i < m.cap = ground (arith, h.one_place i) in
      let own = h.room_idx i here in
      let p = s.sessions in
      let t = move_in f old (m.slots n) p in
      let moved : MovedIn old (m.slots n) p t =
        subst (λ z. MovedIn old z p (move_in f old z p)) (sym at)
          (move_in-MovedIn f old r w p (h.seats i here)) in
      let (off, on, same) = settled m.slots i n t.room (vacate t.old_members old) ne in
      let left = swap_remove old.idx m.open_rooms in
      let less : (k : ℕ) → times k left ≡ (if k == i then 0 else times k m.open_rooms) = λ k.
        ground (
          arith,
          own,
          h.opened i,
          times-swap_remove old.idx k m.open_rooms (ground (arith, own, h.opened i)),
        ) in
      move-BooksOk i n _ (record (vacate t.old_members old) { gen = inc_u32 old.gen }) t.room _ left
        (if ltb t.room.reserved_seats room_members then t.room.idx ∷ left else left) _ t.sessions h
        mine ne lt busy shut (bare_slot f r (m.slots n) w at) (vacate-Vacated moved i own)
        (MovedIn-Arrived moved n (h.room_idx n lt) (h.tagged i here).0 (h.tagged i here).1)
        moved.sessions (same ∙ own) off on less (λ k. ground (arith, moved.idx, h.room_idx n lt))

module _ {Buf : Type 0} (f : Fpu) (g : Ring Buf) where
  -- The event changes the send rings and the dirty bits only.
  notify-Noted :
      (room : Room) (i : ℕ) (s : Server Buf)
      → let t = notify f g room i s in (t.rooms ≡ s.rooms) × Noted s.sessions t.sessions
  unfolding notify enqueue_to
  notify-Noted room i s =
      let m = room.members i in
      let x = enqueue_to g m (room_event_msg (move_event f g room.idx i)) s in
      let marked : Server Buf = record (x.1) { dirty = mark m.sess_owner m.sess_idx x.1.dirty } in
      let kept : Noted s.sessions x.1.sessions =
        put_slot-Noted s.sessions m.sess_idx _ refl refl refl in
      if_cases Fine (not m.used || is_gone g m s) s (if x.0 == room_event_size then marked else x.1)
        (λ e. (refl, Noted-refl s.sessions))
        (λ e.
          if_cases Fine (x.0 == room_event_size) marked x.1 (λ e. (refl, kept)) (λ e. (refl, kept)))
    where
      Fine : Server Buf → Type 0
      Fine t = (t.rooms ≡ s.rooms) × Noted s.sessions t.sessions

  pub notified :
      (room : Room) (s : Server Buf)
      → let t = for_below room_members (notify f g room) s in
        (t.rooms ≡ s.rooms) × Noted s.sessions t.sessions
  notified room s =
      for_below_inv (λ t. (t.rooms ≡ s.rooms) × Noted s.sessions t.sessions) (notify f g room)
        room_members s
        (λ i t lt h. let (e, n) = notify-Noted room i t in (e ∙ h.0, Noted-trans h.1 n))
        (refl, Noted-refl s.sessions)

-- The rooms of the worker when room `i` may have moved.
abbrev pub after_move : (ℕ → ℕ) → ℕ → Option ℕ → ℕ → ℕ
after_move owned i none k = owned k
after_move owned i (some n) k = update owned i 0 k + to_ℕ (n == k)

module _ {Buf : Type 0} (live owned : ℕ → ℕ) (f : Fpu) (g : Ring Buf) where
  transfer_to-BooksOk :
      (i w : ℕ) (s : Server Buf) (x : Option ℕ × Server Buf)
      → BooksOk live owned s.rooms s.sessions
      → owned i ≡ 1
      → AllocOk live owned f w false s x
      → let (got, t) = transfer_to f g i x in
        BooksOk live (after_move owned i got) t.rooms t.sessions
  unfolding transfer_to
  transfer_to-BooksOk i w s (none, t) h mine (same, e) =
      subst (λ (u : Server Buf). BooksOk live owned u.rooms u.sessions) (sym same) h
  transfer_to-BooksOk i w s (some n, t) h mine k =
      let ne : n ≢ i =
        λ e. ground (arith, h.one_place i, k.was_free, ap (λ z. times z s.rooms.free_rooms) e) in
      let u = settle f g i n t in
      let ok =
        settle-BooksOk live (λ z. owned z + to_ℕ (n == z)) f g i n (w % 2 ^ 8) (s.rooms.slots n) t
          k.ok (ground (arith, mine, ne)) ne k.fits k.busy k.shut k.at in
      let (rooms, noted) = notified f g (u.rooms.slots n) u in
      Noted-BooksOk
        (subst (λ z. BooksOk live (after_move owned i (some n)) z u.sessions) (sym rooms)
          (subst (λ o. BooksOk live o u.rooms u.sessions) (fun_ext (λ z. ground (arith, ne))) ok))
        noted

  -- The worker of room `i` may move it at any time: where the pool has a slot the worker then owns
  -- the new room in place of the old one, and the books stay right.
  pub transfer_room-BooksOk :
      (i : ℕ) (s : Server Buf)
      → BooksOk live owned s.rooms s.sessions
      → owned i ≡ 1
      → let (got, t) = transfer_room f g i s in
        BooksOk live (after_move owned i got) t.rooms t.sessions
  unfolding transfer_room alloc_slot
  transfer_room-BooksOk i s h mine =
      let w = (s.rooms.slots i).game_worker in
      transfer_to-BooksOk i w s _ h mine
        (alloc_from-AllocOk live owned f w false s s.rooms.free_rooms refl (λ e. cc) h)
