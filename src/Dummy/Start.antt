-- ===== src/Dummy/Start.antt =====
-- What `main` of the load generator (dummy/dummy_main.cpp) makes of its arguments, and how it shares its
-- sessions out among its workers.
use mo_belt.Prelude.{
  ℕ, zero, suc, ◌+◌, ◌*◌, ◌/◌, ◌%◌, ◌<◌, ◌≡◌, ◌∙◌, arith, Bool, true, false, if◌then◌else◌, ltb,
  List, [], ◌∷◌, sum_below, Option, none, some, leb, ◌&&◌,
}
use native.Mathlib.Nat.{mod-lt, div-add-mod}
use Prim.Native.String.{String}
use text.Mathlib.Text.{◌==◌}
use mo_belt.Prelude.Int.{ℤ, pos, negsuc, pos_part}
use mo_belt.System.Startup.{to_unsigned}

-- The settings, some of which are globals of the program. The ints are kept as they are read.
pub record Arguments : Type 0 where
  pub host : String
  pub port : ℕ
  pub metrics_port : ℕ
  pub sessions : ℤ
  pub threads : ℤ
  pub input_hz : ℤ
  pub run_secs : ℤ
  pub ramp : ℤ
  pub echo_mode : Bool
  pub verify : Bool
  pub pkt_min : ℤ
  pub pkt_max : ℤ
  pub over_send : ℤ
  pub echo_timeout_ms : ℤ
  pub churn_ms : ℤ
  pub reconnect_ms : ℤ
  pub fail_fast : Bool
  pub attack_send_q : ℤ
  pub slow_recv_ms : ℤ

abbrev nonzero : ℤ → Bool
nonzero (pos n) = ltb 0 n
nonzero (negsuc n) = true

-- What the flag `a` makes of the value `v`, whose number is `n`; none if `a` is no flag.
unfoldable pub set_flag : String → String → ℤ → Arguments → Option Arguments
set_flag a v n o =
    if a == "--server"
    then some (record o { host = v })
    else if a == "--port"
    then some (record o { port = to_unsigned 16 n })
    else if a == "--sessions"
    then some (record o { sessions = n })
    else if a == "--threads"
    then some (record o { threads = n })
    else if a == "--input-hz"
    then some (record o { input_hz = n })
    else if a == "--run-secs"
    then some (record o { run_secs = n })
    else if a == "--ramp"
    then some (record o { ramp = n })
    else if a == "--metrics-port"
    then some (record o { metrics_port = to_unsigned 16 n })
    else if a == "--mode"
    then some (record o { echo_mode = v == "echo" })
    else if a == "--verify"
    then some (record o { verify = nonzero n })
    else if a == "--pkt-min"
    then some (record o { pkt_min = n })
    else if a == "--pkt-max"
    then some (record o { pkt_max = n })
    else if a == "--over-send"
    then some (record o { over_send = n })
    else if a == "--echo-timeout-ms"
    then some (record o { echo_timeout_ms = n })
    else if a == "--churn-ms"
    then some (record o { churn_ms = n })
    else if a == "--reconnect-ms"
    then some (record o { reconnect_ms = n })
    else if a == "--fail-fast"
    then some (record o { fail_fast = nonzero n })
    else if a == "--attack-sendq"
    then some (record o { attack_send_q = n })
    else if a == "--slow-recv-ms"
    then some (record o { slow_recv_ms = n })
    else none

-- The loop over `argv`. A flag that comes last has no value and is passed over.
unfoldable pub read_args : (atoi : String → ℤ) → List String → Arguments → Arguments
unfolding set_flag
read_args atoi [] o = o
read_args atoi (a ∷ []) o = o
read_args atoi (a ∷ v ∷ rest) o = elim (set_flag a v (atoi v) o) [
  | none ↦ read_args atoi (v ∷ rest) o
  | some p ↦ read_args atoi rest p
]

-- The number of workers.
unfoldable pub thread_count : (threads : ℤ) → (sessions : ℕ) → ℕ
thread_count threads sessions =
    if ltb 0 (pos_part threads) then pos_part threads else (sessions + 1499) / 1500

-- How many sessions worker `t` of `threads` gets.
unfoldable share : (sessions threads t : ℕ) → ℕ
share sessions threads t = sessions / threads + (if ltb t (sessions % threads) then 1 else 0)

-- The limit on descriptors: the soft limit is raised where it can be, and then read again.
unfoldable pub has_descriptors : (limits : Option (ℕ × ℕ)) → (raised : Bool) → Bool
has_descriptors none raised = false
has_descriptors (some (soft, hard)) raised =
    leb 8192 (if ltb soft hard && raised then hard else soft)

sum_below-share :
    (q k n : ℕ)
    → sum_below n (λ t. q + (if ltb t k then 1 else 0)) ≡ n * q + (if ltb n k then n else k)
sum_below-share q k zero = ground arith
sum_below-share q k (suc n) = grind (arith, sum_below-share q k n)

-- The workers' shares are all the sessions together, if there is a worker.
sum_below-shares :
    (sessions threads : ℕ) → 0 < threads → sum_below threads (share sessions threads) ≡ sessions
unfolding share
sum_below-shares sessions threads lt =
    sum_below-share (sessions / threads) (sessions % threads) threads
    ∙ ground (arith, mod-lt sessions lt, div-add-mod sessions threads)
