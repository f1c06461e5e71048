-- ===== src/RoomManager/Join/Leave.antt =====
-- A session leaves: its entry in the room's queue, and the reference that its epoll worker held.
use mo_belt.Prelude.{
  ℕ, ◌+◌, ◌-◌, ◌≤◌, ◌<◌, ◌≡◌, ◌∙◌, ◌≢◌, refl, inl, inr, Bool, false, not, ◌||◌, [], ◌∷◌, ◌++◌,
  arith, leb, update, update_ne, update_self, le-sum_below, Bool-cases,
}
use mo_belt.Room.{Room, RoomLeaveEntry}
use mo_belt.Room.Holds.{
  Kept, Kept-MembersTagged, Kept-AllTagged, Held-same, gen-release, refs-release,
}
use mo_belt.Session.{Session}
use mo_belt.Session.Pool.{SessionPool, put_slot, release}
use mo_belt.Session.Invariant.{PoolOk, put_slot-PoolOk, release-PoolOk}
use mo_belt.Session.Noted.{Noted, Noted-PoolOk}
use mo_belt.RoomManager.{RoomManager, Server}
use mo_belt.RoomManager.Books.{held_by, holdings, BooksOk, BooksOk-Held, change-BooksOk}
use mo_belt.RoomManager.Join.{on_session_leave}

module _ {Buf : Type 0} {live owned : ℕ → ℕ} where
  -- The sessions may change where the references stay accounted for, and the generations of the
  -- sessions that rooms refer to stay.
  pub sessions-BooksOk :
      {m : RoomManager} {p : SessionPool Buf} (q : SessionPool Buf) (live' : ℕ → ℕ)
      → BooksOk live owned m p
      → PoolOk q
      → ((j : ℕ) → (q.slots j).refs ≡ live' j + holdings j m)
      → Kept (λ j. holdings j m) p q
      → BooksOk live' owned m q
  sessions-BooksOk {m} {p} q live' h pool balance kept = record {
    workers = h.workers;
    pool = pool;
    balance = balance;
    tagged = λ k b.
        let le : (j : ℕ) → held_by j (m.slots k) ≤ holdings j m =
          λ j. le-sum_below m.cap k (λ n. held_by j (m.slots n)) b in
        (
          Kept-MembersTagged (λ j. holdings j m) p q kept (m.slots k).members
              (m.slots k).pending_join le (h.tagged k b).0,
          Kept-AllTagged (λ j. holdings j m) p q kept (m.slots k).pending_join
              (λ j. omega (arith, le j)) (h.tagged k b).1,
        );
    seats = h.seats;
    room_idx = h.room_idx;
    one_place = h.one_place;
    vacant = h.vacant;
    opened = h.opened;
  }

  -- So they do when other fields of the sessions change.
  pub Noted-BooksOk :
      {m : RoomManager} {p q : SessionPool Buf}
      → BooksOk live owned m p
      → Noted p q
      → BooksOk live owned m q
  Noted-BooksOk {q = q} h n =
      sessions-BooksOk q live h (Noted-PoolOk n h.pool) (λ j. n.refs j ∙ h.balance j)
        (λ j pos. n.gen j)

  -- An epoll worker may give back a reference that it holds on a session: the books stay right, with
  -- one less in its hands.
  pub release-BooksOk :
      {m : RoomManager} {p : SessionPool Buf} (i : ℕ)
      → BooksOk live owned m p
      → live i ≢ 0
      → BooksOk (update live i (live i - 1)) owned m (release p i)
  release-BooksOk {m} {p} i h held =
      sessions-BooksOk (release p i) _ h
        (release-PoolOk p i h.pool (λ z. held (ground (arith, h.balance i))))
        (λ j. refs-release p i j _ (ground (arith, h.balance j)))
        (λ j pos. gen-release p i j (λ one same. ground (arith, h.balance i, h.balance j)))

  -- The entry of a session that leaves changes no book, whatever has become of its room.
  pub on_session_leave-BooksOk :
      (i : ℕ) (s : Server Buf)
      → BooksOk live owned s.rooms s.sessions
      → BooksOk live owned (on_session_leave i s).rooms (on_session_leave i s).sessions
  unfolding on_session_leave
  on_session_leave-BooksOk i s h = elim (Bool-cases out) [
    | inl stay ↦ rw stay h
    | inr go ↦ rw go (
        let lt : r < m.cap = ground arith in
        let held = BooksOk-Held r lt h in
        let seats = h.seats r lt in
        change-BooksOk r room (update m.slots r room) m.free_rooms m.open_rooms m.rooms_per_worker
          m.mail q h lt (λ k ne. update_ne m.slots r room k ne) (update_self m.slots r room)
          (h.room_idx r lt)
          (record {
            each = seats.each;
            seated = seats.seated;
            reserved = seats.reserved;
            counted = seats.counted;
          })
          (Held-same q held (put_slot-PoolOk s.sessions i left h.pool refl refl) (λ j. ground arith)
            (λ j. ground arith))
          (λ j pos. ground arith) h.one_place (h.vacant r) (λ k ne n. n) h.opened)
  ]
    where
      m : RoomManager
      m = s.rooms

      session : Session Buf
      session = s.sessions.slots i

      r : ℕ
      r = session.room_idx

      out : Bool
      out = not session.in_room || leb m.cap r

      room : Room
      room = record (m.slots r) {
        pending_leave =
            (m.slots r).pending_leave
            ++ (let e : RoomLeaveEntry = record {
              sess_idx = session.idx;
              sess_gen = session.gen;
            } in
                e)
              ∷ [];
      }

      left : Session Buf
      left = record session { in_room = false }

      q : SessionPool Buf
      q = put_slot s.sessions i left
