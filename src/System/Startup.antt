-- ===== src/System/Startup.antt =====
-- How server/src/main.cpp starts the server: its arguments, the checks before the start, and the order
-- in which the parts come up. What the operating system answers is an argument.
use mo_belt.Prelude.{
  ℕ, zero, suc, ◌+◌, ◌-◌, ◌%◌, ◌^◌, ◌≤◌, ◌≡◌, Bool, true, false, not, ◌&&◌, ◌||◌, if_cases,
  if◌then◌else◌, ltb, leb, Option, none, some, List, [], ◌∷◌, arith,
}
use mathlib.Core.Path.{subst}
use Prim.Native.String.{String}
use text.Mathlib.Text.{◌==◌}
use mo_belt.Prelude.Int.{ℤ, pos, negsuc}
use mo_belt.Double.{Fpu}
use mo_belt.RingBuffer.{Ring}
use mo_belt.RoomManager.Books.{max_game_workers}
use mo_belt.System.{System, launch, Reach}
use mo_belt.System.Ledger.{SystemOk}
use mo_belt.System.Reachable.{Reach-SystemOk}

-- What `main` takes from its arguments.
pub record Options : Type 0 where
  pub port : ℕ
  pub listen_port : ℕ
  pub game_workers : ℕ
  pub run_secs : ℤ
  pub selftest : Bool

abbrev pub no_options : Options
no_options = record {
  port = 19100;
  listen_port = 0;
  game_workers = 0;
  run_secs = negsuc 0;
  selftest = false;
}

-- `static_cast` of an int to an unsigned type of `w` bits.
abbrev pub to_unsigned : ℕ → ℤ → ℕ
to_unsigned w (pos n) = n % 2 ^ w
to_unsigned w (negsuc n) = 2 ^ w - 1 - n % 2 ^ w

-- The loop over `argv`, behind the program's name. A flag without its value is passed over.
unfoldable pub parse_args : (atoi : String → ℤ) → List String → Options → Options
parse_args atoi [] o = o
parse_args atoi (a ∷ []) o = if a == "--selftest" then record o { selftest = true } else o
parse_args atoi (a ∷ v ∷ rest) o =
    let n = atoi v in
    if a == "--selftest"
    then parse_args atoi (v ∷ rest) (record o { selftest = true })
    else if a == "--port"
    then parse_args atoi rest (record o { port = to_unsigned 16 n })
    else if a == "--listen"
    then parse_args atoi rest (record o { listen_port = to_unsigned 16 n })
    else if a == "--game"
    then parse_args atoi rest (record o { game_workers = to_unsigned 32 n })
    else if a == "--run-secs"
    then parse_args atoi rest (record o { run_secs = n })
    else parse_args atoi (v ∷ rest) o

-- `RaiseFdLimit`: `limits` is what `getrlimit` says, soft and hard, and `raised` whether `setrlimit` works.
unfoldable pub raise_fd_limit : (limits : Option (ℕ × ℕ)) → (raised : Bool) → (want : ℕ) → Bool
raise_fd_limit none raised want = false
raise_fd_limit (some (soft, hard)) raised want =
    if ltb soft hard then raised && leb want hard else leb want soft

-- `CheckCoreBudget`; 0 cores stand for an unknown number.
unfoldable pub check_core_budget : (cores epolls games mains reserve : ℕ) → Bool
check_core_budget cores epolls games mains reserve =
    let need = (epolls + games + mains) % 2 ^ 32 in
    not (ltb 0 cores) || leb ((need + reserve) % 2 ^ 32) cores

-- What the system calls of `EpollWorker::Start` say.
pub record NetAnswers : Type 0 where
  pub makes_epoll : Bool
  pub makes_socket : Bool
  pub binds : Bool
  pub listens : Bool
  pub watches : Bool

-- `EpollWorker::Start`.
unfoldable pub start_net : NetAnswers → Bool
start_net a =
    if not a.makes_epoll
    then false
    else if not a.makes_socket
    then false
    else if not (a.binds && a.listens)
    then false
    else a.watches

-- `NetService::Start`: the workers from `i` on, `n` of them.
unfoldable pub start_nets : (n i : ℕ) → (ℕ → NetAnswers) → Bool
unfolding start_net
start_nets zero i answers = true
start_nets (suc n) i answers =
    let more = start_nets n (i + 1) answers in if not (start_net (answers i)) then false else more

-- `GameService::Start`, whose workers all start.
unfoldable pub start_games : ℕ → Bool
start_games count = not (ltb max_game_workers count)

-- What `main` meets: the limits, the cores, whether the port of the metrics can be bound and the pools be
-- made, the answers to each epoll worker, and the result of the self test.
pub record Machine : Type 0 where
  pub limits : Option (ℕ × ℕ)
  pub raised : Bool
  pub cores : ℕ
  pub metrics_bound : Bool
  pub pools_made : Bool
  pub net_answers : ℕ → NetAnswers
  pub selftest_result : ℕ

-- Where `main` gives up, with exit code 1.
pub data Stage : Type 0 where
  fd_limit core_budget metrics_port pools transport games : Stage

pub data Outcome (Buf : Type 0) : Type 0 where
  tested : ℕ → Outcome Buf
  refused : Stage → Outcome Buf
  runs : System Buf → Outcome Buf

abbrev pub epoll_workers : Options → ℕ
epoll_workers o = if ltb 0 o.listen_port then 4 else 0

module _ (f : Fpu) {Buf : Type 0} (r : Ring Buf) where
  -- `main`, up to the point where all threads run.
  unfoldable pub start_up : Options → Machine → Outcome Buf
  unfolding raise_fd_limit check_core_budget start_nets start_games
  start_up o m =
      let n = epoll_workers o in
      if o.selftest
      then tested m.selftest_result
      else if not (raise_fd_limit m.limits m.raised 8192)
      then refused fd_limit
      else if not (check_core_budget m.cores n o.game_workers 1 2)
      then refused core_budget
      else if not m.metrics_bound
      then refused metrics_port
      else if not m.pools_made
      then refused pools
      else if ltb 0 o.listen_port && not (start_nets n 0 m.net_answers)
      then refused transport
      else if ltb 0 o.game_workers && not (start_games o.game_workers)
      then refused games
      else runs (launch f r 4096 8192 n o.game_workers)

  -- What can run.
  abbrev Started : Options → Outcome Buf → Type 0
  Started o x =
      (s : System Buf)
      → x ≡ runs s
      → (o.game_workers ≤ max_game_workers)
        × (s ≡ launch f r 4096 8192 (epoll_workers o) o.game_workers)

  start_up-Started : (o : Options) (m : Machine) → Started o (start_up o m)
  unfolding start_up start_games
  start_up-Started o m =
      let P = Started o in
      let no_run : (st : Stage) → P (refused st) = λ st s e. absurd cc in
      if_cases P o.selftest (tested m.selftest_result) _ (λ z s e. absurd cc)
        (λ z.
          if_cases P (not (raise_fd_limit m.limits m.raised 8192)) (refused fd_limit) _
            (λ z. no_run fd_limit)
            (λ z.
              if_cases P (not (check_core_budget m.cores (epoll_workers o) o.game_workers 1 2))
                (refused core_budget) _ (λ z. no_run core_budget)
                (λ z.
                  if_cases P (not m.metrics_bound) (refused metrics_port) _
                    (λ z. no_run metrics_port)
                    (λ z.
                      if_cases P (not m.pools_made) (refused pools) _ (λ z. no_run pools)
                        (λ z.
                          if_cases P
                            (ltb 0 o.listen_port
                              && not (start_nets (epoll_workers o) 0 m.net_answers))
                            (refused transport) _ (λ z. no_run transport)
                            (λ z.
                              if_cases P
                                (ltb 0 o.game_workers
                                  && not (not (ltb max_game_workers o.game_workers)))
                                (refused games)
                                (runs (launch f r 4096 8192 (epoll_workers o) o.game_workers))
                                (λ z. no_run games) (λ z s e. (ground (arith, z), cc))))))))

  -- A server that `main` has started keeps its books, however its workers' steps follow one another:
  -- `main` does not let more game workers run than that needs.
  pub start_up-SystemOk :
      (o : Options) (m : Machine) (s t : System Buf)
      → start_up o m ≡ runs s
      → Reach f r s t
      → SystemOk t
  start_up-SystemOk o m s t e path =
      let (few, same) = start_up-Started o m s e in
      Reach-SystemOk f r 4096 8192 (epoll_workers o) o.game_workers t few
        (subst (λ x. Reach f r x t) same path)
