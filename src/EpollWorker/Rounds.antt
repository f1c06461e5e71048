-- ===== src/EpollWorker/Rounds.antt =====
-- A round of `Loop` of EpollWorker.cpp, and what it leaves; then `CleanupInThread`.
pub mod Accept
pub mod Handing
pub mod Cleanup
pub mod Dirty
use mo_belt.Prelude.{
  ℕ, ◌≡◌, ◌⊎◌, ◌≢◌, ◌∙◌, refl, sym, ap, arith, inl, inr, Bool, true, false, not, ◌&&◌, if_cases,
  if◌then◌else◌, ◌==◌, Option, none, some, List, [], ◌∷◌, update, for_below, for_below_inv,
}
use mo_belt.Double.{Fpu}
use mo_belt.RingBuffer.{Ring}
use mo_belt.Session.Noted.{Noted-refl}
use mo_belt.Session.Invariant.{times}
use mo_belt.EpollWorker.{World, slot, flush_send}
use mo_belt.EpollWorker.Read.{Ready, handle_session}
use mo_belt.EpollWorker.Loop.{
  unpack_tag, listen_tag, handle_accept, handle_event, handle_events, flush_marked, drain_dirty,
  loop_round,
}
use mo_belt.EpollWorker.NetOk.{NetOk, Quiet, Quiet-NetOk}
use mo_belt.EpollWorker.Sending.{flush_send-NetOk}
use mo_belt.EpollWorker.Reading.{handle_session-NetOk}
use mo_belt.EpollWorker.Rounds.Accept.{handle_accept-NetOk}

-- Every event of a batch is the listening socket's, or names a session that the worker has heard of.
unfoldable pub AllHeard : (known : ℕ → Type 0) → List (ℕ × Ready) → Type 0
AllHeard known [] = Unit
AllHeard known ((tag, e) ∷ es) =
    (((unpack_tag tag).0 ≡ listen_tag) ⊎ known (unpack_tag tag).0) × AllHeard known es

module _ (f : Fpu) {Buf : Type 0} (r : Ring Buf) (elsewhere owned : ℕ → ℕ) (theirs : ℕ → ℕ → ℕ)
    (me : ℕ) where
  module _ (known : ℕ → Type 0) where
    abbrev Good : World Buf → Type 0
    Good = NetOk elsewhere owned theirs me known

    handle_event-NetOk :
        (tag : ℕ) (e : Ready) (w : World Buf)
        → (((unpack_tag tag).0 ≡ listen_tag) ⊎ known (unpack_tag tag).0)
        → Good w
        → Good (handle_event f r (tag, e) w)
    unfolding handle_event
    handle_event-NetOk tag e w k h =
        let x = unpack_tag tag in
        if_cases Good (x.0 == listen_tag) (handle_accept r w) (handle_session f r x.0 x.1 e w)
          (λ z. handle_accept-NetOk r elsewhere owned theirs me known w h)
          (λ z.
            handle_session-NetOk f r elsewhere owned theirs me known x.0 x.1 e w
              (λ _. elim k [ inl l ↦ absurd ground (arith, l, z) | inr k ↦ k ]) h)

    handle_events-NetOk :
        (events : List (ℕ × Ready)) (w : World Buf)
        → AllHeard known events
        → Good w
        → Good (handle_events f r events w)
    unfolding handle_events AllHeard
    handle_events-NetOk [] w k h = h
    handle_events-NetOk ((tag, e) ∷ es) w k h =
        handle_events-NetOk es (handle_event f r (tag, e) w) k.1 (handle_event-NetOk tag e w k.0 h)

    -- A flush may end in a disconnect: the session is in the list, since the worker owns its socket.
    flush_marked-NetOk :
        (marked : ℕ → Bool) (i : ℕ) (w : World Buf) → Good w → Good (flush_marked f r marked i w)
    unfolding flush_marked
    flush_marked-NetOk marked i w h =
        let s = slot w i in
        let open_fd = elim s.fd as (λ _. Bool) [ none ↦ false | some fd ↦ true ] in
        if_cases Good (marked i && (s.owner == w.id && (not s.dead && open_fd))) (flush_send r i w)
          w
          (λ e.
            let owner : s.owner ≡ w.id = ground (arith, e) in
            let living : s.dead ≡ false = ground (arith, e) in
            let fd : s.fd ≢ none = λ z. ground (arith, e, z) in
            let also : ℕ → Type 0 = λ k. known k ⊎ (k ≡ i) in
            let g = flush_send-NetOk r elsewhere owned theirs me also i w (inr refl) (record {
              books = h.books;
              once = h.once;
              alive = h.alive;
              heard = λ j k d z. elim k [
                | inl k ↦ h.heard j k d z
                | inr same ↦ h.bound i owner living fd (sym (ap (λ x. times x w.mine) same) ∙ z)
              ];
              bound = h.bound;
              claims = h.claims;
              number = h.number;
            }) in
            record {
              books = g.books;
              once = g.once;
              alive = g.alive;
              heard = λ j k. g.heard j (inl k);
              bound = g.bound;
              claims = g.claims;
              number = g.number;
            })
          (λ e. h)

    drain_dirty-NetOk : (w : World Buf) → Good w → Good (drain_dirty f r w)
    unfolding drain_dirty
    drain_dirty-NetOk w h =
        for_below_inv Good (flush_marked f r (w.server.dirty w.id)) w.server.sessions.cap _
          (λ i t lt g. flush_marked-NetOk (w.server.dirty w.id) i t g)
          (record {
            books = h.books;
            once = h.once;
            alive = h.alive;
            heard = h.heard;
            bound = h.bound;
            claims = h.claims;
            number = h.number;
          })

  -- Given a batch whose events are the listening socket's or name sessions that the worker has heard
  -- of, and whatever the kernel answers and clients send, a round of the loop keeps the worker's books.
  pub loop_round-NetOk :
      (events : List (ℕ × Ready)) (known : ℕ → Type 0) (w : World Buf)
      → AllHeard known events
      → NetOk elsewhere owned theirs me known w
      → NetOk elsewhere owned theirs me known (loop_round f r events w)
  unfolding loop_round
  loop_round-NetOk events known w heard h =
      drain_dirty-NetOk known _ (handle_events-NetOk known events w heard h)
