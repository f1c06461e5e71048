-- ===== src/EpollWorker/Rounds/Dirty.antt =====
-- The scan of the dirty sessions in `Loop` of server/src/EpollWorker.cpp, on the words of `DirtyMap`.
use mo_belt.Prelude.{
  ℕ, zero, suc, ◌+◌, ◌-◌, ◌*◌, ◌≤◌, ◌≡◌, ◌∙◌, refl, ap, arith, if◌then◌else◌, ◌==◌, leb, Bool, true,
  false, not, ◌&&◌, if_cases, for_below, update, Option, none, some,
}
use mo_belt.Double.{Fpu}
use mo_belt.RingBuffer.{Ring}
use mo_belt.DirtyMap.{DirtyMap, init, drain}
use mo_belt.DirtyMap.Drain.{WordsOk, marked, for_below-add, for_below_congr, drain_lem}
use mo_belt.EpollWorker.{World, slot, flush_send}
use mo_belt.EpollWorker.Loop.{flush_marked, drain_dirty}

-- `Init` makes a bit for every session.
pub init-stride : (max_sessions : ℕ) → max_sessions ≤ (init max_sessions).stride * 64
unfolding init
init-stride max_sessions = omega arith

-- `fd >= 0`.
abbrev pub is_open : Option ℕ → Bool
is_open fd = elim fd as (λ _. Bool) [ none ↦ false | some fd ↦ true ]

and_if :
    {A : Type 0} (b c : Bool) (x y : A)
    → (if b then (if c then x else y) else y) ≡ (if b && c then x else y)
and_if true c x y = refl
and_if false c x y = refl

module _ {Buf : Type 0} (r : Ring Buf) where
  -- The function that `Loop` hands to `Drain`.
  unfoldable pub flush_dirty : (cap i : ℕ) → World Buf → World Buf
  unfolding flush_send
  flush_dirty cap i w =
      let s = slot w i in
      if leb cap i
      then w
      else if s.owner == w.id && (not s.dead && is_open s.fd)
      then flush_send r i w
      else w

  idle_tail :
      (cap n : ℕ) (b : ℕ → Bool) (w : World Buf)
      → for_below n (λ j w. if b (cap + j) then flush_dirty cap (cap + j) w else w) w ≡ w
  unfolding flush_dirty
  idle_tail cap zero b w = refl
  idle_tail cap (suc n) b w =
      let v = for_below n (λ j w. if b (cap + j) then flush_dirty cap (cap + j) w else w) w in
      let beyond : leb cap (cap + n) ≡ true = ground arith in
      let rest = idle_tail cap n b w in
      if_cases (λ x. x ≡ w) (b (cap + n)) (flush_dirty cap (cap + n) v) v
        (λ e.
          ap
            (λ t.
              if t
              then v
              else if (slot v (cap + n)).owner == v.id
                  && (not (slot v (cap + n)).dead && is_open (slot v (cap + n)).fd)
              then flush_send r (cap + n) v
              else v)
            beyond
          ∙ rest)
        (λ e. rest)

  -- On words whose bits for this worker are its marks, `Drain` with that function does what the scan of
  -- a set of marks does: one flush for each marked session, in the order of their numbers.
  pub drain-drain_dirty :
      (f : Fpu) (m : DirtyMap) (w : World Buf)
      → WordsOk m
      → w.server.sessions.cap ≤ m.stride * 64
      → ((i : ℕ) → marked w.id i m ≡ w.server.dirty w.id i)
      → let start : World Buf = record w {
        server = record (w.server) { dirty = update w.server.dirty w.id (λ i. false) };
      } in
        (drain w.id (flush_dirty w.server.sessions.cap) m start).1 ≡ drain_dirty f r w
  unfolding flush_dirty drain_dirty flush_marked
  drain-drain_dirty f m w ok le same =
      let cap = w.server.sessions.cap in
      let n = m.stride * 64 - cap in
      let total : m.stride * 64 ≡ cap + n = omega (arith, le) in
      let start : World Buf = record w {
        server = record (w.server) { dirty = update w.server.dirty w.id (λ i. false) };
      } in
      let body : ℕ → World Buf → World Buf =
        λ i t. if marked w.id i m then flush_dirty cap i t else t in
      (drain_lem w.id (flush_dirty cap) m ok start).0
      ∙ ap (λ k. for_below k body start) total
      ∙ for_below-add cap n body start
      ∙ idle_tail cap n (λ i. marked w.id i m) (for_below cap body start)
      ∙ for_below_congr cap body (flush_marked f r (w.server.dirty w.id)) start (λ j t lt.
        let within : leb cap j ≡ false = ground (arith, lt) in
        let s = slot t j in
        let due = s.owner == t.id && (not s.dead && is_open s.fd) in
        let flushed = if due then flush_send r j t else t in
        ap (λ b. if b then flush_dirty cap j t else t) (same j)
        ∙ ap (λ b. if w.server.dirty w.id j then (if b then t else flushed) else t) within
        ∙ and_if (w.server.dirty w.id j) due (flush_send r j t) t)
