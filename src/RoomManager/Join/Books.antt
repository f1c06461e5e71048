-- ===== src/RoomManager/Join/Books.antt =====
-- Join of server/src/RoomManager.cpp and the books.
use mo_belt.Prelude.{
  ℕ, ◌+◌, ◌≤◌, ◌<◌, ◌≡◌, ◌≢◌, ◌∙◌, refl, sym, ap, inl, inr, true, false, if◌then◌else◌, Option,
  none, some, List, [], ◌∷◌, ◌++◌, arith, ltb, ◌==◌, update, update_ne, update_self, to_ℕ,
  count_by-append, Bool-cases,
}
use mathlib.Core.Path.{subst, fun_ext}
use mo_belt.Double.{Fpu}
use mo_belt.Room.{Room, RoomJoinEntry, room_members}
use mo_belt.Room.Holds.{AllTagged}
use mo_belt.Session.Pool.{SessionPool, add_ref, put_slot}
use mo_belt.Session.Invariant.{PoolOk, times, add_ref-PoolOk, put_slot-PoolOk}
use mo_belt.RoomManager.{RoomManager, Server}
use mo_belt.RoomManager.Alloc.{alloc_slot, least_loaded, recycle}
use mo_belt.RoomManager.Alloc.Load.{AllocOk, alloc_from-AllocOk, least_loaded_lem}
use mo_belt.RoomManager.Books.{AgreeOff, BooksOk, BooksOk-Held, change-BooksOk}
use mo_belt.RoomManager.Join.{
  seek_room, drop_back, reserve, found_room, sit, find_seat, admit, join,
}
use mo_belt.RoomManager.Join.Seek.{Sought, seek_room-Sought, times-drop_back, reserve-Seats}

module _ {Buf : Type 0} where
  -- The session of a newcomer, after `AddRef` and its notes.
  abbrev seated : SessionPool Buf → (i room seat : ℕ) → SessionPool Buf
  seated p i room seat =
      let pool = add_ref p i in
      put_slot pool i (record (pool.slots i) { in_room = true; room_idx = room; actor_id = seat })

  abbrev entry_of : SessionPool Buf → (i seat : ℕ) → RoomJoinEntry
  entry_of p i seat =
      let s = (add_ref p i).slots i in
      record { sess_idx = s.idx; sess_gen = s.gen; actor_id = seat }

  seated-PoolOk :
      (p : SessionPool Buf) (i room seat : ℕ)
      → PoolOk p
      → (p.slots i).refs ≢ 0
      → PoolOk (seated p i room seat)
  seated-PoolOk p i room seat h held =
      put_slot-PoolOk (add_ref p i) i _ (add_ref-PoolOk p i h held) refl refl

  module _ (p : SessionPool Buf) (i room seat : ℕ) where
    seated-refs : (j : ℕ) → ((seated p i room seat).slots j).refs ≡ (p.slots j).refs + to_ℕ (i == j)
    unfolding add_ref
    seated-refs j = ground arith

    seated-gen : (j : ℕ) → ((seated p i room seat).slots j).gen ≡ (p.slots j).gen
    unfolding add_ref
    seated-gen j = ground arith

    entry_of-idx : PoolOk p → (p.slots i).refs ≢ 0 → (entry_of p i seat).sess_idx ≡ i
    unfolding add_ref
    entry_of-idx h held = ground (arith, h.own_idx i, h.beyond i)

    entry_of-gen : (entry_of p i seat).sess_gen ≡ (p.slots i).gen
    unfolding add_ref
    entry_of-gen = ground arith

  AllTagged-append :
      (p q : SessionPool Buf) (es : List RoomJoinEntry) (e : RoomJoinEntry)
      → ((j : ℕ) → (q.slots j).gen ≡ (p.slots j).gen)
      → AllTagged p es
      → (p.slots e.sess_idx).gen ≡ e.sess_gen
      → AllTagged q (es ++ e ∷ [])
  AllTagged-append p q [] e g h t = (g e.sess_idx ∙ t, tt)
  AllTagged-append p q (x ∷ es) e g h t = (g x.sess_idx ∙ h.0, AllTagged-append p q es e g h.1 t)

module _ {Buf : Type 0} {live owned : ℕ → ℕ} {m : RoomManager} {p : SessionPool Buf} where
  -- A seat of a room in use is taken for session `i`, and the join entry queued.
  admit-BooksOk :
      (i r seat room : ℕ) (t : ℕ → Room) (open_list : List ℕ)
      → BooksOk live owned m p
      → (p.slots i).refs ≢ 0
      → r < m.cap
      → times r m.free_rooms ≡ 0
      → seat < room_members
      → (m.slots r).seat_used seat ≡ false
      → AgreeOff r t m.slots
      → t r ≡ reserve seat (m.slots r)
      → ((k : ℕ) → times k open_list + times k m.free_rooms ≤ to_ℕ (ltb k m.cap))
      → BooksOk live owned
          (record m {
            slots =
                update t r
                  (record (t r) { pending_join = (t r).pending_join ++ entry_of p i seat ∷ [] });
            open_rooms = open_list;
          })
          (seated p i room seat)
  unfolding reserve
  admit-BooksOk i r seat room t open_list h here lt busy sl free off at opened =
      let e = entry_of p i seat in
      let q = seated p i room seat in
      let add : Room → Room = λ u. record u { pending_join = u.pending_join ++ e ∷ [] } in
      let old = m.slots r in
      let new : Room = add (reserve seat old) in
      let held = BooksOk-Held r lt h in
      let seats = reserve-Seats e seat (h.seats r lt) sl free refl in
      let idx = entry_of-idx p i room seat h.pool here in
      change-BooksOk r new (update t r (add (t r))) m.free_rooms open_list m.rooms_per_worker m.mail
        q h lt (λ k ne. update_ne t r (add (t r)) k ne ∙ off k ne)
        (update_self t r (add (t r)) ∙ ap add at) (h.room_idx r lt)
        (record {
          each = seats.each;
          seated = seats.seated;
          reserved = seats.reserved;
          counted = seats.counted;
        })
        (record {
          pool = seated-PoolOk p i room seat h.pool here;
          balance = λ j. ground (
            arith,
            held.balance j,
            seated-refs p i room seat j,
            idx,
            count_by-append (λ (x : RoomJoinEntry). x.sess_idx == j) old.pending_join (e ∷ []),
          );
          members_tagged = λ k b u. seated-gen p i room seat _ ∙ held.members_tagged k b u;
          joins_tagged =
              AllTagged-append p q old.pending_join e (seated-gen p i room seat) held.joins_tagged
                (ap (λ x. (p.slots x).gen) idx ∙ sym (entry_of-gen p i room seat));
        })
        (λ j pos. seated-gen p i room seat j) h.one_place (λ n. absurd (n busy)) (λ k ne n. n)
        opened

module _ {Buf : Type 0} (live owned : ℕ → ℕ) (f : Fpu) (i : ℕ) where
  abbrev Good : Option (ℕ × ℕ) × Server Buf → Type 0
  Good x = BooksOk live owned x.1.rooms x.1.sessions

  -- The newcomer in a room that was just allocated.
  admit_new :
      (s : Server Buf) (best : ℕ) (x : Option ℕ × Server Buf)
      → BooksOk live owned s.rooms s.sessions
      → live i ≢ 0
      → AllocOk live owned f best true s x
      → Good (admit i (found_room x))
  unfolding admit found_room recycle reserve
  admit_new s best (none, t) h alive (same, e) = subst (λ u. Good (none, u)) (sym same) h
  admit_new s best (some r, t) h alive k =
      let m = t.rooms in
      let ok : BooksOk live owned m t.sessions =
        subst (λ o. BooksOk live o m t.sessions) (fun_ext (λ j. omega arith)) k.ok in
      let lt : r < m.cap = k.fits in
      let one : 1 ≡ (m.slots r).reserved_seats + 1 =
        omega (arith, ap (λ (u : Room). u.reserved_seats) k.at) in
      let own = ok.room_idx r lt in
      let started : Room = record (reserve 0 (m.slots r)) { reserved_seats = 1 } in
      admit-BooksOk i r 0 _ (update m.slots r started) ((m.slots r).idx ∷ m.open_rooms) ok
        (λ z. alive (ground (arith, ok.balance i))) lt k.busy (omega arith)
        (ap (λ (u : Room). u.seat_used 0) k.at) (λ j ne. update_ne m.slots r started j ne)
        (update_self m.slots r started
          ∙ ap (λ n. let u : Room = record (reserve 0 (m.slots r)) { reserved_seats = n } in u) one)
        (λ j. ground (arith, ok.opened j, own, k.busy, k.shut))

  -- The newcomer at the seat that the walk found.
  admit_found :
      (s : Server Buf) (x : Option (ℕ × ℕ) × List ℕ)
      → BooksOk live owned s.rooms s.sessions
      → live i ≢ 0
      → 0 < s.rooms.worker_count
      → Sought s.rooms.slots s.rooms.open_rooms x
      → Good (admit i (sit f s x))
  unfolding admit sit alloc_slot
  admit_found s (none, left) h alive pos e =
      let m : RoomManager = record (s.rooms) { open_rooms = left } in
      let t : Server Buf = record s { rooms = m } in
      let ok : BooksOk live owned m s.sessions = record {
        workers = h.workers;
        pool = h.pool;
        balance = h.balance;
        tagged = h.tagged;
        seats = h.seats;
        room_idx = h.room_idx;
        one_place = h.one_place;
        vacant = h.vacant;
        opened = λ k. ground (arith, h.opened k, ap (times k) e);
      } in
      let best = least_loaded m.rooms_per_worker m.worker_count in
      let (small, least) = least_loaded_lem m.rooms_per_worker m.worker_count pos in
      admit_new t best _ ok alive (
        alloc_from-AllocOk live owned f best true t m.free_rooms refl
          (λ up. omega (arith, h.workers)) ok)
  admit_found s (some (r, seat), left) h alive pos (sl, free, living, on, le) =
      let m = s.rooms in
      let room = reserve seat (m.slots r) in
      let full = room.reserved_seats == room_members in
      let lt : r < m.cap = ground (arith, h.opened r, le r) in
      admit-BooksOk i r seat _ (update m.slots r room) (if full then drop_back left else left) h
        (λ z. alive (ground (arith, h.balance i))) lt (ground (arith, h.opened r, le r)) sl free
        (λ k ne. update_ne m.slots r room k ne) (update_self m.slots r room)
        (λ k. ground (arith, h.opened k, le k, times-drop_back k left))

  -- A living session may join at any time: whether it gets a seat or not, the books stay right.
  pub join-BooksOk :
      (s : Server Buf)
      → BooksOk live owned s.rooms s.sessions
      → live i ≢ 0
      → BooksOk live owned (join f i s).1.rooms (join f i s).1.sessions
  unfolding join find_seat
  join-BooksOk s h alive = elim (Bool-cases (s.rooms.worker_count == 0)) [
    | inl off ↦ rw off h
    | inr on ↦ rw on (
        admit_found s (seek_room s.rooms.slots s.rooms.open_rooms) h alive (ground arith)
          (seek_room-Sought s.rooms.slots s.rooms.open_rooms))
  ]
