-- ===== src/System/Reachable.antt =====
-- The reachable states of the server (server/src/main.cpp), and its stop.
use mo_belt.Prelude.{
  ℕ, ◌≤◌, ◌<◌, ◌≡◌, ◌≢◌, ◌∙◌, refl, sym, sum_below, ap, arith, ltb, false, none, [], Bool-cases,
  inl, inr, sum_below_none, Option, some,
}
use mathlib.Core.Path.{subst, fun_ext}
use mo_belt.Double.{Fpu}
use mo_belt.RingBuffer.{Ring}
use mo_belt.Session.Invariant.{times, init-fd}
use mo_belt.RoomManager.Books.{BooksOk, holdings, max_game_workers}
use mo_belt.RoomManager.Alloc.Fresh.{init-BooksOk}
use mo_belt.System.{
  System, launch, Step, rounds, cleans, ticks, Reach, here, next, Stopping, begun, goes_on,
  comes_down,
}
use mo_belt.System.Ledger.{SystemOk}
use mo_belt.System.Rounds.{
  net_round-SystemOk, net_cleanup-SystemOk, net_cleanup-mine, net_cleanup-net_count, net_round-mine,
  net_round-net_count,
}
use mo_belt.System.Ticks.{game_tick-SystemOk}

module _ (f : Fpu) {Buf : Type 0} (r : Ring Buf) where
  launch-SystemOk :
      (rooms sessions net_count game_workers : ℕ)
      → game_workers ≤ max_game_workers
      → SystemOk (launch f r rooms sessions net_count game_workers)
  unfolding launch
  launch-SystemOk rooms sessions net_count game_workers le =
      let nobody : (j : ℕ) → sum_below net_count (λ k. 0) ≡ 0 =
        λ j. sum_below_none net_count (λ k. 0) (λ k lt. refl) in
      let nothing : (i : ℕ) → sum_below max_game_workers (λ g. 0) ≡ 0 =
        λ i. sum_below_none max_game_workers (λ g. 0) (λ g lt. refl) in
      record {
        books =
            subst
              (λ live.
                BooksOk live (λ i. sum_below max_game_workers (λ g. 0))
                  (mo_belt.RoomManager.Alloc.init f rooms game_workers)
                  (mo_belt.Session.Pool.init r sessions))
              (fun_ext (λ j. sym (nobody j)))
              (subst
                (λ own.
                  BooksOk (λ j. 0) own (mo_belt.RoomManager.Alloc.init f rooms game_workers)
                    (mo_belt.Session.Pool.init r sessions))
                (fun_ext (λ i. sym (nothing i))) (init-BooksOk f r rooms game_workers sessions le));
        once = λ j. omega (arith, nobody j);
        alive = λ j n. absurd (n (nobody j));
        bound = λ j d e. absurd (e (init-fd r sessions j));
        idle = λ k le. refl;
      }

  Step-SystemOk : (s t : System Buf) → Step f r s t → SystemOk s → SystemOk t
  Step-SystemOk s t (rounds k o events lt heard e) h =
      subst SystemOk (sym e) (net_round-SystemOk f r k o events s lt heard h)
  Step-SystemOk s t (cleans k o lt e) h = subst SystemOk (sym e) (net_cleanup-SystemOk k o s lt h)
  Step-SystemOk s t (ticks g lt e) h = subst SystemOk (sym e) (game_tick-SystemOk f r g s lt h)

  Reach-kept : {s t : System Buf} → Reach f r s t → SystemOk s → SystemOk t
  Reach-kept here h = h
  Reach-kept (next {t} {u} before step) h = Step-SystemOk t u step (Reach-kept before h)

  -- From the start on, however the rounds of the epoll workers and the ticks of the game workers follow
  -- one another, and whatever the kernel answers and clients send, the books of the whole server are
  -- right, if there are at most 16 game workers: every reference is an epoll worker's or a room's, every
  -- room slot is in one place, no session is in the lists of two epoll workers or twice in one, sessions
  -- in the lists live, and every live session with a socket is in the list of its owner.
  pub Reach-SystemOk :
      (rooms sessions net_count game_workers : ℕ) (t : System Buf)
      → game_workers ≤ max_game_workers
      → Reach f r (launch f r rooms sessions net_count game_workers) t
      → SystemOk t
  Reach-SystemOk rooms sessions net_count game_workers t le path =
      Reach-kept path (launch-SystemOk rooms sessions net_count game_workers le)

  -- The first `n` epoll workers have come down.
  record Stopped (n : ℕ) (s t : System Buf) : Type 0 where
    ok : SystemOk t
    net_count : t.net_count ≡ s.net_count
    empty : (k : ℕ) → k < n → (t.nets k).mine ≡ []

  Stopping-Stopped :
      {s : System Buf} {n : ℕ} {t : System Buf} → Stopping f r s n t → SystemOk s → Stopped n s t
  Stopping-Stopped begun h = record { ok = h; net_count = refl; empty = λ k lt. elim lt [ ] }
  Stopping-Stopped (goes_on {n} {t} k o events so_far le lt heard) h =
      let before = Stopping-Stopped so_far h in
      record {
        ok = net_round-SystemOk f r k o events t lt heard before.ok;
        net_count = net_round-net_count f r k o events t ∙ before.net_count;
        empty = λ m below.
            net_round-mine f r k o events t m (λ e. omega (arith, e, le, below))
            ∙ before.empty m below;
      }
  Stopping-Stopped (comes_down {n} {t} o so_far lt) h =
      let before = Stopping-Stopped so_far h in
      record {
        ok = net_cleanup-SystemOk n o t lt before.ok;
        net_count = net_cleanup-net_count n o t ∙ before.net_count;
        empty =
            λ k below. ground (arith, net_cleanup-mine n o t lt before.ok k, before.empty k, below);
      }

  no_socket : (fd : Option ℕ) → ¬ (fd ≢ none) → fd ≡ none
  no_socket none n = refl
  no_socket (some fd) n = absurd (n (λ e. cc))

  -- `NetService::Stop` leaves nobody behind on a server whose books are right, whatever its workers
  -- still do before their turn comes: when all have come down, their lists are empty, every reference
  -- that is left is a room's, and no live session has a socket.
  pub Stopping-left :
      (s t : System Buf)
      → SystemOk s
      → Stopping f r s s.net_count t
      → ((k : ℕ) → (t.nets k).mine ≡ [])
        × ((j : ℕ) → (t.server.sessions.slots j).refs ≡ holdings j t.server.rooms)
        × ((j : ℕ)
            → (t.server.sessions.slots j).dead ≡ false
            → (t.server.sessions.slots j).fd ≡ none)
  Stopping-left s t h path =
      let done = Stopping-Stopped path h in
      let empty : (k : ℕ) → (t.nets k).mine ≡ [] = λ k. elim (Bool-cases (ltb k s.net_count)) [
        | inl in_use ↦ done.empty k (ground (arith, in_use))
        | inr beyond ↦ done.ok.idle k (ground (arith, beyond, done.net_count))
      ] in
      (
        empty,
        λ j. omega (
          arith,
          done.ok.books.balance j,
          sum_below_none t.net_count (λ k. times j (t.nets k).mine)
              (λ k lt. ap (times j) (empty k)),
        ),
        λ j d.
            no_socket (t.server.sessions.slots j).fd
              (λ e. done.ok.bound j d e (ap (times j) (empty (t.server.sessions.slots j).owner))),
      )
