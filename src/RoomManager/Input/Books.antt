-- ===== src/RoomManager/Input/Books.antt =====
-- PushInput of server/src/RoomManager.cpp and the books.
use mo_belt.Prelude.{
  ℕ, ◌<◌, refl, not, ◌||◌, leb, List, if_cases, arith, update, update_ne, update_self,
}
use mo_belt.Prelude.Int.{ℤ}
use mo_belt.Room.{Room, InputCmd}
use mo_belt.RoomManager.{Server, put_room}
use mo_belt.RoomManager.Books.{BooksOk, BooksOk-Held, change-BooksOk}
use mo_belt.RoomManager.Input.{push_input}

module _ {Buf : Type 0} {live owned : ℕ → ℕ} where
  -- The queued inputs of a room are in no book.
  in_q-BooksOk :
      (r : ℕ) (q : List InputCmd) (s : Server Buf)
      → r < s.rooms.cap
      → BooksOk live owned s.rooms s.sessions
      → BooksOk live owned (put_room s.rooms r (record (s.rooms.slots r) { in_q = q })) s.sessions
  in_q-BooksOk r q s lt h =
      let m = s.rooms in
      let room : Room = record (m.slots r) { in_q = q } in
      let ok = h.seats r lt in
      change-BooksOk r room (update m.slots r room) m.free_rooms m.open_rooms m.rooms_per_worker
        m.mail s.sessions h lt (λ k ne. update_ne m.slots r room k ne) (update_self m.slots r room)
        (h.room_idx r lt)
        (record {
          each = ok.each;
          seated = ok.seated;
          reserved = ok.reserved;
          counted = ok.counted;
        })
        (BooksOk-Held r lt h) (λ j pos. refl) h.one_place (h.vacant r) (λ k ne n. n) h.opened

  pub push_input-BooksOk :
      (i seq : ℕ) (mx my : ℤ) (attack skill : ℕ) (s : Server Buf)
      → BooksOk live owned s.rooms s.sessions
      → let t = push_input i seq mx my attack skill s in BooksOk live owned t.rooms t.sessions
  unfolding push_input
  push_input-BooksOk i seq mx my attack skill s h =
      let session = s.sessions.slots i in
      if_cases (λ (t : Server Buf). BooksOk live owned t.rooms t.sessions)
        (not session.in_room || leb s.rooms.cap session.room_idx) s _ (λ e. h)
        (λ e. in_q-BooksOk session.room_idx _ s (ground (arith, e)) h)
