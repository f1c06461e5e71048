-- ===== src/EpollWorker/Loop.antt =====
-- `HandleAccept`, one round of `Loop`, and `CleanupInThread` of EpollWorker.cpp.
use mo_belt.Prelude.{
  ℕ, zero, suc, ◌+◌, ◌*◌, ◌/◌, ◌%◌, ◌^◌, Bool, true, false, not, ◌&&◌, if◌then◌else◌, ◌==◌, none,
  some, List, [], ◌∷◌, update, for_below,
}
use mo_belt.Double.{Fpu}
use mo_belt.RingBuffer.{Ring}
use mo_belt.Session.Pool.{alloc, release}
use mo_belt.EpollWorker.{
  World, AcceptAnswer, accepted, accept_interrupted, accept_again, slot, put, count, with_kernel,
  next_ctl, disconnect, flush_send,
}
use mo_belt.EpollWorker.Read.{Ready, handle_session}

-- `PackTag`, and how `Loop` takes a tag apart.
unfoldable pub pack_tag : (idx gen : ℕ) → ℕ
pack_tag idx gen = gen * 2 ^ 32 + idx

unfoldable pub unpack_tag : ℕ → ℕ × ℕ
unpack_tag tag = (tag % 2 ^ 32, tag / 2 ^ 32)

abbrev pub listen_tag : ℕ
listen_tag = 4294967295

abbrev pub max_accept_per_wake : ℕ
max_accept_per_wake = 64

module _ {Buf : Type 0} (r : Ring Buf) where
  -- The socket `fd` for the session of slot `i`, which `Alloc` handed out: watched, or given back.
  unfoldable pub adopt : (fd i : ℕ) → World Buf → World Buf
  unfolding next_ctl release
  adopt fd i w =
      let s = slot w i in
      let v = put i (record s { fd = some fd; owner = w.id }) w in
      let (ok, ctls) = next_ctl w.kernel.ctls in
      let asked = with_kernel (λ k. record k { ctls = ctls }) v in
      let dropped =
        put i (record (slot asked i) { fd = none; dead = true })
          (with_kernel (λ k. record k { closed_fds = fd ∷ k.closed_fds }) asked) in
      if ok
      then count (λ c. record c { accepts = c.accepts + 1 })
          (record asked { mine = (slot asked i).idx ∷ asked.mine })
      else record dropped {
        server = record (dropped.server) { sessions = release dropped.server.sessions i };
      }

  -- A new connection.
  unfoldable pub welcome : ℕ → World Buf → World Buf
  unfolding alloc adopt
  welcome fd w =
      let (got, pool) = alloc r w.server.sessions in
      let v : World Buf = record w { server = record (w.server) { sessions = pool } } in
      elim got [
        | none ↦ with_kernel (λ k. record k { closed_fds = fd ∷ k.closed_fds }) v
        | some i ↦ adopt fd i v
      ]

  -- `HandleAccept`, `rounds` of it at most, by the answers to `accept4`.
  unfoldable pub accept_on : ℕ → List AcceptAnswer → World Buf → World Buf
  unfolding welcome
  accept_on zero answers w = w
  accept_on (suc rounds) [] w = w
  accept_on (suc rounds) (accepted fd ∷ rest) w =
      accept_on rounds rest (welcome fd (with_kernel (λ k. record k { accepts = rest }) w))
  accept_on (suc rounds) (accept_interrupted ∷ rest) w =
      accept_on rounds rest (with_kernel (λ k. record k { accepts = rest }) w)
  accept_on (suc rounds) (accept_again ∷ rest) w = with_kernel (λ k. record k { accepts = rest }) w

  unfoldable pub handle_accept : World Buf → World Buf
  unfolding accept_on
  handle_accept w = accept_on max_accept_per_wake w.kernel.accepts w

module _ (f : Fpu) {Buf : Type 0} (r : Ring Buf) where
  -- One event of a batch.
  unfoldable pub handle_event : ℕ × Ready → World Buf → World Buf
  unfolding handle_accept handle_session unpack_tag
  handle_event (tag, e) w =
      let (idx, gen) = unpack_tag tag in
      if idx == listen_tag then handle_accept r w else handle_session f r idx gen e w

  unfoldable pub handle_events : List (ℕ × Ready) → World Buf → World Buf
  unfolding handle_event
  handle_events [] w = w
  handle_events (e ∷ es) w = handle_events es (handle_event e w)

  -- The scan of the dirty sessions, in the order of `Drain`.
  unfoldable pub flush_marked : (ℕ → Bool) → ℕ → World Buf → World Buf
  unfolding flush_send
  flush_marked marked i w =
      let s = slot w i in
      let open_fd = elim s.fd as (λ _. Bool) [ none ↦ false | some fd ↦ true ] in
      if marked i && (s.owner == w.id && (not s.dead && open_fd)) then flush_send r i w else w

  unfoldable pub drain_dirty : World Buf → World Buf
  unfolding flush_marked
  drain_dirty w =
      let marked = w.server.dirty w.id in
      for_below w.server.sessions.cap (flush_marked marked) (record w {
        server = record (w.server) { dirty = update w.server.dirty w.id (λ i. false) };
      })

  -- One round of `Loop`, with the events that `epoll_wait` returns.
  unfoldable pub loop_round : List (ℕ × Ready) → World Buf → World Buf
  unfolding handle_events drain_dirty
  loop_round events w = drain_dirty (handle_events events w)

module _ {Buf : Type 0} where
  -- `Disconnect` for a copy of the list, from its front.
  unfoldable pub cut_all : List ℕ → World Buf → World Buf
  unfolding disconnect
  cut_all [] w = w
  cut_all (i ∷ is) w = disconnect i (cut_all is w)

  -- `CleanupInThread`.
  unfoldable pub cleanup : World Buf → World Buf
  unfolding cut_all
  cleanup w = record (cut_all w.mine w) { listening = false; polling = false }
