-- ===== src/System.antt =====
-- The server as a whole: what `main` of server/src/main.cpp sets up and shares between the epoll
-- workers of `NetService` and the game workers of `GameService`, and the steps that they take in
-- any order. A whole round or tick is one step, which is a simplification: the locks of the source
-- are held for less, so the threads can interleave within rounds and ticks, and that is not
-- modelled.
pub mod Ledger
pub mod Rounds
pub mod Ticks
pub mod Reachable
pub mod Startup
use mo_belt.Prelude.{ℕ, ◌≡◌, ◌≢◌, ◌<◌, ◌≤◌, suc, Bool, false, true, List, [], update}
use mo_belt.Double.{Fpu}
use mo_belt.RingBuffer.{Ring}
use mo_belt.Metrics.{no_counts}
use mo_belt.Session.Invariant.{times}
use mo_belt.RoomManager.{Server}
use mo_belt.EpollWorker.{World, Kernel}
use mo_belt.EpollWorker.Read.{Ready}
use mo_belt.EpollWorker.Loop.{loop_round, cleanup}
use mo_belt.EpollWorker.Rounds.{AllHeard}
use mo_belt.GameWorker.{tick_once}
use mo_belt.RoomManager.Books.{max_game_workers}

-- What an `EpollWorker` keeps to itself: `_mySessions`, and whether `_listenFd` and `_epfd` are open.
pub record Net : Type 0 where
  pub mine : List ℕ
  pub listening : Bool
  pub polling : Bool

-- `my_rooms g` is `_myRooms` of game worker `g`.
pub record System (Buf : Type 0) : Type 0 where
  pub server : Server Buf
  pub net_count : ℕ
  pub nets : ℕ → Net
  pub my_rooms : ℕ → List ℕ

-- What a step of an epoll worker meets: the kernel's answers, the clock, and the next ticks that the
-- game workers have published.
pub record Outside : Type 0 where
  pub kernel : Kernel
  pub now : ℕ
  pub next_tick : ℕ → ℕ

module _ {Buf : Type 0} where
  -- Worker `k` as it starts a step, and the system when it has ended it.
  unfoldable pub world_of : ℕ → Outside → System Buf → World Buf
  world_of k o s = record {
    id = k;
    mine = (s.nets k).mine;
    listening = (s.nets k).listening;
    polling = (s.nets k).polling;
    kernel = o.kernel;
    now = o.now;
    next_tick = o.next_tick;
    server = s.server;
  }

  unfoldable pub with_world : ℕ → World Buf → System Buf → System Buf
  with_world k w s = record s {
    server = w.server;
    nets = update s.nets k (record { mine = w.mine; listening = w.listening; polling = w.polling });
  }

  -- The end of `Loop` of epoll worker `k`.
  unfoldable pub net_cleanup : ℕ → Outside → System Buf → System Buf
  unfolding world_of with_world cleanup
  net_cleanup k o s = with_world k (cleanup (world_of k o s)) s

module _ (f : Fpu) {Buf : Type 0} (r : Ring Buf) where
  -- A round of `Loop` of epoll worker `k`.
  unfoldable pub net_round : ℕ → Outside → List (ℕ × Ready) → System Buf → System Buf
  unfolding world_of with_world loop_round
  net_round k o events s = with_world k (loop_round f r events (world_of k o s)) s

  -- `TickOnce` of game worker `g`.
  unfoldable pub game_tick : ℕ → System Buf → System Buf
  unfolding tick_once
  game_tick g s =
      let (l, server) = tick_once f r g (s.my_rooms g, s.server) in
      record s { server = server; my_rooms = update s.my_rooms g l }

  -- The pools of `main` and the workers when they start.
  unfoldable pub launch : (rooms sessions net_count game_workers : ℕ) → System Buf
  launch rooms sessions net_count game_workers = record {
    server = record {
      rooms = mo_belt.RoomManager.Alloc.init f rooms game_workers;
      sessions = mo_belt.Session.Pool.init r sessions;
      dirty = λ w i. false;
      counters = no_counts;
    };
    net_count = net_count;
    nets = λ k. record { mine = []; listening = true; polling = true };
    my_rooms = λ g. [];
  }

  -- One step of some worker. `epoll_wait` reports the listening socket, and sessions that are registered
  -- with the worker's own epoll: those in its list when the batch is made.
  pub data Step (s t : System Buf) : Type 0 where
    rounds :
        (k : ℕ) (o : Outside) (events : List (ℕ × Ready))
        → k < s.net_count
        → AllHeard (λ j. times j (s.nets k).mine ≢ 0) events
        → t ≡ net_round k o events s
        → Step s t
    cleans : (k : ℕ) (o : Outside) → k < s.net_count → t ≡ net_cleanup k o s → Step s t
    ticks : (g : ℕ) → g < max_game_workers → t ≡ game_tick g s → Step s t

  -- What the workers can make of a system, in whatever order they take their steps.
  pub data Reach (s : System Buf) : System Buf → Type 0 where
    here : Reach s s
    next : {t u : System Buf} → Reach s t → Step t u → Reach s u

  -- `NetService::Stop`, when the game workers have come down: it stops one epoll worker after the
  -- other, and those that it has not reached go on with their rounds. `n` have come down.
  pub data Stopping (s : System Buf) : ℕ → System Buf → Type 0 where
    begun : Stopping s 0 s
    goes_on :
        {n : ℕ} {t : System Buf} (k : ℕ) (o : Outside) (events : List (ℕ × Ready))
        → Stopping s n t
        → n ≤ k
        → k < t.net_count
        → AllHeard (λ j. times j (t.nets k).mine ≢ 0) events
        → Stopping s n (net_round k o events t)
    comes_down :
        {n : ℕ} {t : System Buf} (o : Outside)
        → Stopping s n t
        → n < t.net_count
        → Stopping s (suc n) (net_cleanup n o t)
