-- ===== src/RoomManager/Tick/Books.antt =====
-- RoomTick of server/src/RoomManager.cpp and the books.
use mo_belt.Prelude.{
  ℕ, ◌+◌, ◌%◌, ◌<◌, ◌≡◌, ◌∙◌, refl, sym, ap, not, ◌||◌, ◌==◌, if◌then◌else◌, if_cases, Option, none,
  List, arith, for_below_inv,
}
use mathlib.Core.Path.{subst}
use mo_belt.Double.{Fpu}
use mo_belt.RingBuffer.{Ring}
use mo_belt.Protocol.{snapshot_msg}
use mo_belt.Room.{Room, Member, room_members}
use mo_belt.Room.Seats.{SeatsOk}
use mo_belt.Room.Holds.{Held, refers}
use mo_belt.Session.Pool.{SessionPool}
use mo_belt.Session.Noted.{Noted, Noted-refl, Noted-trans, put_slot-Noted}
use mo_belt.RoomManager.{Server, put_room}
use mo_belt.RoomManager.Books.{BooksOk, BooksOk-Held, replace-BooksOk}
use mo_belt.RoomManager.Input.{Routing, route_all, consume_all}
use mo_belt.RoomManager.Join.Leave.{Noted-BooksOk}
use mo_belt.RoomManager.Snapshot.{
  snapshot, snapshot_size, is_gone, enqueue_to, mark, offer_snapshot, send_snapshots,
}
use mo_belt.RoomManager.Transfer.Books.Settle.{after_move, transfer_room-BooksOk}
use mo_belt.RoomManager.Transfer.{transfer_room}
use mo_belt.RoomManager.Tick.{all_arrived, advance, exit_check, tick_body, room_tick}
use mo_belt.RoomManager.Tick.Players.{SamePlayers, inputs-SamePlayers}

module _ (f : Fpu) (room : Room) (t : Routing) (same : SamePlayers room.members t.members) where
  advance-SeatsOk : SeatsOk room → SeatsOk (advance f room t)
  unfolding advance
  advance-SeatsOk s = record {
    each = λ i lt. ground (arith, s.each i lt, (same i).used);
    seated = s.seated;
    reserved = s.reserved;
    counted = ground (arith, s.counted, (same 0).used, (same 1).used, (same 2).used, (same 3).used);
  }

  same_refers : (j i : ℕ) → refers j (t.members i) ≡ refers j (room.members i)
  same_refers j i = ground (arith, (same i).used, (same i).idx)

  advance-Held :
      {Buf : Type 0} {c : ℕ → ℕ} {p : SessionPool Buf}
      → Held c p room.members room.pending_join
      → Held c p (advance f room t).members (advance f room t).pending_join
  unfolding advance
  advance-Held {p = p} h = record {
    pool = h.pool;
    balance = λ j.
        omega
          (arith, h.balance j, same_refers j 0, same_refers j 1, same_refers j 2, same_refers j 3);
    members_tagged = λ i lt on.
        ap (λ z. (p.slots z).gen) (same i).idx
        ∙ h.members_tagged i lt (sym (same i).used ∙ on)
        ∙ sym (same i).gen;
    joins_tagged = h.joins_tagged;
  }

module _ {Buf : Type 0} (g : Ring Buf) where
  offer_snapshot-Noted :
      (bytes : List ℕ) (m : Member) (s : Server Buf)
      → let t = offer_snapshot g bytes m s in (t.rooms ≡ s.rooms) × Noted s.sessions t.sessions
  unfolding offer_snapshot enqueue_to
  offer_snapshot-Noted bytes m s =
      let x = enqueue_to g m bytes s in
      let kept : Noted s.sessions x.1.sessions =
        put_slot-Noted s.sessions m.sess_idx _ refl refl refl in
      let c = x.1.counters in
      let sent : Server Buf = record (x.1) {
        counters = record c { snapshots_sent = c.snapshots_sent + 1 };
        dirty = mark m.sess_owner m.sess_idx x.1.dirty;
      } in
      let dropped : Server Buf = record (x.1) {
        counters = record c { snapshots_dropped = c.snapshots_dropped + 1 };
      } in
      if_cases Fine (not m.used || is_gone g m s) s (if x.0 == snapshot_size then sent else dropped)
        (λ e. (refl, Noted-refl s.sessions))
        (λ e.
          if_cases Fine (x.0 == snapshot_size) sent dropped (λ e. (refl, kept)) (λ e. (refl, kept)))
    where
      Fine : Server Buf → Type 0
      Fine t = (t.rooms ≡ s.rooms) × Noted s.sessions t.sessions

  send_snapshots-Noted :
      (f : Fpu) (room : Room) (s : Server Buf)
      → let t = send_snapshots g f room s in (t.rooms ≡ s.rooms) × Noted s.sessions t.sessions
  unfolding send_snapshots
  send_snapshots-Noted f room s =
      for_below_inv (λ t. (t.rooms ≡ s.rooms) × Noted s.sessions t.sessions)
        (λ i. offer_snapshot g (snapshot_msg (snapshot f room)) (room.members i)) room_members s
        (λ i t lt h.
          let (e, n) = offer_snapshot-Noted (snapshot_msg (snapshot f room)) (room.members i) t in
          (e ∙ h.0, Noted-trans h.1 n))
        (refl, Noted-refl s.sessions)

module _ {Buf : Type 0} (live owned : ℕ → ℕ) (f : Fpu) (g : Ring Buf) where
  abbrev Good : Server Buf → Type 0
  Good t = BooksOk live owned t.rooms t.sessions

  tick_body-BooksOk : (i : ℕ) (s : Server Buf) → Good s → owned i ≡ 1 → Good (tick_body f g i s)
  unfolding tick_body
  tick_body-BooksOk i s h mine =
      let room = s.rooms.slots i in
      let lt : i < s.rooms.cap = ground (arith, h.one_place i) in
      let start : Routing = record { members = room.members; counters = s.counters } in
      let taken = consume_all (route_all room.in_q start) in
      let next = advance f room taken in
      let same = inputs-SamePlayers room.in_q start in
      let t = record s { rooms = put_room s.rooms i next; counters = taken.counters } in
      let ok : Good t =
        replace-BooksOk i next s.sessions h lt (ground (arith, h.one_place i)) (h.room_idx i lt)
          (advance-SeatsOk f room taken same (h.seats i lt))
          (advance-Held f room taken same (BooksOk-Held i lt h)) (λ j pos. refl) in
      let (rooms, noted) = send_snapshots-Noted g f next t in
      if_cases Good (not (next.world.tick % 3 == 0) || next.member_count == 0) t
        (send_snapshots g f next t) (λ e. ok)
        (λ e. Noted-BooksOk (subst (λ z. BooksOk live owned z s.sessions) (sym rooms) ok) noted)

  -- A tick of a room keeps the books. Where the members move on, their worker owns the new room in
  -- place of the old one.
  pub room_tick-BooksOk :
      (i : ℕ) (s : Server Buf)
      → BooksOk live owned s.rooms s.sessions
      → owned i ≡ 1
      → let (got, t) = room_tick f g i s in BooksOk live (after_move owned i got) t.rooms t.sessions
  unfolding room_tick exit_check
  room_tick-BooksOk i s h mine =
      let u = tick_body f g i s in
      let ok = tick_body-BooksOk i s h mine in
      if_cases
        (λ (x : Option ℕ × Server Buf).
          BooksOk live (after_move owned i x.0) x.1.rooms x.1.sessions)
        (all_arrived f (u.rooms.slots i)) (transfer_room f g i u) (none, u)
        (λ e. transfer_room-BooksOk live owned f g i u ok mine) (λ e. ok)
