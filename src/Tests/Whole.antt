-- ===== src/Tests/Whole.antt =====
-- The theorems on the whole server, at one with an epoll worker and a game worker that accepts a client.
use mathlib.Core.Path.{subst}
use mo_belt.Prelude.{ℕ, ◌≡◌, ◌≢◌, refl, sym, true, false, none, some, List, [], arith, inl}
use mo_belt.Session.Invariant.{times}
use mo_belt.RoomManager.Books.{holdings}
use mo_belt.EpollWorker.Loop.{unpack_tag}
use mo_belt.EpollWorker.Rounds.{AllHeard}
use mo_belt.System.{
  System, Outside, net_round, net_cleanup, game_tick, launch, Step, rounds, ticks, Reach, here,
  next, Stopping, begun, comes_down,
}
use mo_belt.System.Ledger.{SystemOk}
use mo_belt.System.Startup.{
  Options, no_options, Machine, runs, start_up, raise_fd_limit, check_core_budget, start_nets,
  start_net, start_games, start_up-SystemOk,
}
use mo_belt.System.Reachable.{Reach-SystemOk, Stopping-left}
use mo_belt.Tests.Values.{whole_fpu, list_ring}
use mo_belt.Tests.Net.{idle_kernel, knock}

abbrev outside : Outside
outside = record { kernel = idle_kernel; now = 0; next_tick = λ w. 0 }

abbrev launched : System (List ℕ)
launched = launch whole_fpu list_ring 2 2 1 1

-- The client is accepted, and the game worker ticks.
abbrev welcomed : System (List ℕ)
welcomed = net_round whole_fpu list_ring 0 outside knock launched

abbrev ticked : System (List ℕ)
ticked = game_tick whole_fpu list_ring 0 welcomed

knock-AllHeard : AllHeard (λ j. times j (launched.nets 0).mine ≢ 0) knock
unfolding AllHeard unpack_tag
knock-AllHeard = (inl refl, tt)

launched-net_count : launched.net_count ≡ 1
unfolding launch
launched-net_count = refl

welcomed-Reach : Reach whole_fpu list_ring launched welcomed
unfolding launch
welcomed-Reach = next here (rounds 0 outside knock (omega arith) knock-AllHeard refl)

ticked-Reach : Reach whole_fpu list_ring launched ticked
ticked-Reach = next welcomed-Reach (ticks 0 (omega arith) refl)

Reach-SystemOk_example : SystemOk ticked
Reach-SystemOk_example =
    Reach-SystemOk whole_fpu list_ring 2 2 1 1 ticked (omega arith) ticked-Reach

ticked-SystemOk : SystemOk ticked
ticked-SystemOk = Reach-SystemOk whole_fpu list_ring 2 2 1 1 ticked (omega arith) ticked-Reach

abbrev stopped : System (List ℕ)
stopped = net_cleanup 0 outside ticked

ticked-net_count : ticked.net_count ≡ 1
unfolding game_tick net_round mo_belt.System.with_world launch
ticked-net_count = refl

stopped-Stopping : Stopping whole_fpu list_ring ticked 1 stopped
stopped-Stopping = comes_down outside begun (ground (arith, ticked-net_count))

Stopping-left_example :
    ((k : ℕ) → (stopped.nets k).mine ≡ [])
    × ((j : ℕ) → (stopped.server.sessions.slots j).refs ≡ holdings j stopped.server.rooms)
    × ((j : ℕ)
        → (stopped.server.sessions.slots j).dead ≡ false
        → (stopped.server.sessions.slots j).fd ≡ none)
Stopping-left_example = Stopping-left whole_fpu list_ring ticked stopped ticked-SystemOk (
    subst (λ n. Stopping whole_fpu list_ring ticked n stopped) (sym ticked-net_count)
      stopped-Stopping)

-- A machine on which all goes well, for a server with one game worker.
abbrev machine : Machine
machine = record {
  limits = some (1024, 65536);
  raised = true;
  cores = 12;
  metrics_bound = true;
  pools_made = true;
  net_answers = λ i. record {
    makes_epoll = true;
    makes_socket = true;
    binds = true;
    listens = true;
    watches = true;
  };
  selftest_result = 0;
}

abbrev options : Options
options = record no_options { listen_port = 9000; game_workers = 1 }

abbrev full : System (List ℕ)
full = launch whole_fpu list_ring 4096 8192 4 1

full-start_up : start_up whole_fpu list_ring options machine ≡ runs full
unfolding start_up raise_fd_limit check_core_budget start_nets start_net start_games
full-start_up = refl

start_up_example : SystemOk (game_tick whole_fpu list_ring 0 full)
start_up_example =
    start_up-SystemOk whole_fpu list_ring options machine full
      (game_tick whole_fpu list_ring 0 full) full-start_up (next here (ticks 0 (omega arith) refl))
