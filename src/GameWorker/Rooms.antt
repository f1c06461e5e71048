-- ===== src/GameWorker/Rooms.antt =====
-- `TickOnce` of server/src/GameWorker.cpp and the books.
use mo_belt.Prelude.{
  ℕ, zero, suc, ◌+◌, ◌<◌, ◌≡◌, refl, Bool, true, false, if◌then◌else◌, Option, none, some, List, [],
  ◌∷◌, arith, ◌==◌, update, to_ℕ, length, count_by-append,
}
use mathlib.Core.Path.{subst, fun_ext}
use mo_belt.Double.{Fpu}
use mo_belt.RingBuffer.{Ring}
use mo_belt.Session.Invariant.{times}
use mo_belt.RoomManager.{Server}
use mo_belt.RoomManager.Books.{BooksOk, mailed-drain, max_game_workers}
use mo_belt.RoomManager.Queues.{process_room_queues}
use mo_belt.RoomManager.Queues.Process.{process_room_queues-BooksOk}
use mo_belt.RoomManager.Tick.{room_tick}
use mo_belt.RoomManager.Tick.Books.{room_tick-BooksOk}
use mo_belt.RoomManager.Transfer.Books.Settle.{after_move}
use mo_belt.GameWorker.{drain_room_add_q, back_first, moved_or, tick_rooms, tick_once}

-- The books while a worker goes through its list: it owns `l`, the others own `elsewhere`.
abbrev pub BooksFor : {Buf : Type 0} → (live elsewhere : ℕ → ℕ) → List ℕ × Server Buf → Type 0
BooksFor live elsewhere (l, s) = BooksOk live (λ k. elsewhere k + times k l) s.rooms s.sessions

times-back_first : (k : ℕ) (l : List ℕ) → times k (back_first l) ≡ times k l
unfolding back_first
times-back_first k [] = refl
times-back_first k (x ∷ l) = moved (back_first l) (times-back_first k l)
  where
    moved :
        (b : List ℕ)
        → times k b ≡ times k l
        → times k (elim b as (λ _. List ℕ) [ [] ↦ x ∷ [] | b ∷ front ↦ b ∷ x ∷ front ])
          ≡ times k (x ∷ l)
    moved [] e = ground (arith, e)
    moved (b ∷ front) e = ground (arith, e)

module _ {Buf : Type 0} (live : ℕ → ℕ) (f : Fpu) (g : Ring Buf) where
  -- Other ways to write who owns what.
  recount :
      {owned owned' : ℕ → ℕ} (s : Server Buf)
      → BooksOk live owned s.rooms s.sessions
      → ((k : ℕ) → owned k ≡ owned' k)
      → BooksOk live owned' s.rooms s.sessions
  recount s h e = subst (λ o. BooksOk live o s.rooms s.sessions) (fun_ext e) h

  tick_rooms-BooksFor :
      (fuel : ℕ) (elsewhere : ℕ → ℕ) (l : List ℕ) (s : Server Buf)
      → BooksFor live elsewhere (l, s)
      → BooksFor live elsewhere (tick_rooms f g fuel l s)
  unfolding tick_rooms moved_or
  tick_rooms-BooksFor zero elsewhere l s h = h
  tick_rooms-BooksFor (suc fuel) elsewhere [] s h = h
  tick_rooms-BooksFor (suc fuel) elsewhere (i ∷ rest) s h =
      go (λ e l u. tick_rooms-BooksFor fuel e l u) (process_room_queues f i s).0 refl
    where
      owned : ℕ → ℕ
      owned k = elsewhere k + times k (i ∷ rest)

      mine : owned i ≡ 1
      mine = ground (arith, h.one_place i)

      t : Server Buf
      t = (process_room_queues f i s).1

      now :
          BooksOk live
            (if (process_room_queues f i s).0 then update owned i 0 else owned)
            t.rooms
            t.sessions
      now = process_room_queues-BooksOk f s i h mine

      after_move-times :
          (moved : Option ℕ) (k : ℕ)
          → after_move owned i moved k ≡ elsewhere k + to_ℕ (moved_or moved i == k) + times k rest
      after_move-times none k = omega arith
      after_move-times (some n) k = ground (arith, mine)

      go :
          ((e : ℕ → ℕ) (l : List ℕ) (u : Server Buf)
            → BooksFor live e (l, u)
            → BooksFor live e (tick_rooms f g fuel l u))
          → (died : Bool) → (process_room_queues f i s).0 ≡ died
          → BooksFor live elsewhere (elim died as (λ _. List ℕ × Server Buf) [
            | true ↦ tick_rooms f g fuel (back_first rest) t
            | false ↦
                let (moved, u) = room_tick f g i t in
                let (more, v) = tick_rooms f g fuel rest u in (moved_or moved i ∷ more, v)
          ])
      go later true e = later elsewhere (back_first rest) t (
          recount t
            (subst (λ b. BooksOk live (if b then update owned i 0 else owned) t.rooms t.sessions) e
              now)
            (λ k. ground (arith, times-back_first k rest, mine)))
      go later false e =
          let (moved, u) = room_tick f g i t in
          let kept =
            subst (λ b. BooksOk live (if b then update owned i 0 else owned) t.rooms t.sessions) e
              now in
          let after = room_tick-BooksOk live owned f g i t kept mine in
          let (more, v) = tick_rooms f g fuel rest u in
          recount v
            (later (λ k. elsewhere k + to_ℕ (moved_or moved i == k)) rest u
              (recount u after (after_move-times moved)))
            (λ k. omega arith)

  -- The mailbox empties into the list.
  pub drain-BooksFor :
      (w : ℕ) (elsewhere : ℕ → ℕ) (l : List ℕ) (s : Server Buf)
      → w < max_game_workers
      → BooksFor live elsewhere (l, s)
      → BooksFor live elsewhere (drain_room_add_q w l s)
  unfolding drain_room_add_q
  drain-BooksFor w elsewhere l s lt h = record {
    workers = h.workers;
    pool = h.pool;
    balance = h.balance;
    tagged = h.tagged;
    seats = h.seats;
    room_idx = h.room_idx;
    one_place = λ k. omega (
      arith,
      h.one_place k,
      mailed-drain k w s.rooms.mail lt,
      count_by-append (λ x. x == k) l (s.rooms.mail w),
    );
    vacant = h.vacant;
    opened = h.opened;
  }

  -- A whole tick of worker `w` keeps the books, whatever rooms die or move in it: the worker takes
  -- the rooms in its mailbox, and its list afterwards is exactly the rooms it owns.
  pub tick_once-BooksFor :
      (w : ℕ) (elsewhere : ℕ → ℕ) (l : List ℕ) (s : Server Buf)
      → w < max_game_workers
      → BooksFor live elsewhere (l, s)
      → BooksFor live elsewhere (tick_once f g w (l, s))
  unfolding tick_once
  tick_once-BooksFor w elsewhere l s lt h =
      let x = drain_room_add_q w l s in
      tick_rooms-BooksFor (length x.0) elsewhere x.0 x.1 (drain-BooksFor w elsewhere l s lt h)
