-- ===== src/EpollWorker/Rounds/Handing.antt =====
-- What an epoll worker gets from `Alloc` (server/src/Session.h).
use mo_belt.Prelude.{
  ℕ, ◌+◌, ◌≡◌, ◌≢◌, ◌∙◌, refl, ap, arith, Option, none, some, ◌==◌, to_ℕ, Bool-cases, inl, inr,
}
use mathlib.Core.Path.{subst}
use mo_belt.RingBuffer.{Ring}
use mo_belt.Session.{Session}
use mo_belt.Session.Pool.{SessionPool, alloc, ready_rings, fresh}
use mo_belt.Session.Invariant.{alloc_cases, alloc-PoolOk, alloc_lem}
use mo_belt.RoomManager.{RoomManager}
use mo_belt.RoomManager.Books.{BooksOk, holdings}
use mo_belt.RoomManager.Join.Leave.{sessions-BooksOk}

module _ {Buf : Type 0} (r : Ring Buf) where
  ready_rings-link :
      (s : Session Buf)
      → let t = (ready_rings r s).1 in (t.dead ≡ s.dead) × (t.owner ≡ s.owner) × (t.fd ≡ s.fd)
  unfolding ready_rings
  ready_rings-link s = ground arith

  -- `Alloc` touches the socket side of no slot but the one that it hands out.
  pub alloc-link :
      (p : SessionPool Buf)
      → let (got, q) = alloc r p in
        (j : ℕ)
        → got ≢ some j
        → ((q.slots j).dead ≡ (p.slots j).dead)
          × ((q.slots j).owner ≡ (p.slots j).owner)
          × ((q.slots j).fd ≡ (p.slots j).fd)
  unfolding fresh
  alloc-link p =
      alloc_cases r Same p (λ j n. (refl, refl, refl))
        (λ i rest e j n. ground (arith, ready_rings-link (p.slots i)))
        (λ i rest e j n. ground (arith, n))
    where
      Same : Option ℕ → SessionPool Buf → Type 0
      Same got q =
          (j : ℕ)
          → got ≢ some j
          → ((q.slots j).dead ≡ (p.slots j).dead)
            × ((q.slots j).owner ≡ (p.slots j).owner)
            × ((q.slots j).fd ≡ (p.slots j).fd)

  module _ {live owned : ℕ → ℕ} {m : RoomManager} (p : SessionPool Buf)
      (h : BooksOk live owned m p) where
    pub BooksOk-exhausted : (alloc r p).0 ≡ none → BooksOk live owned m (alloc r p).1
    BooksOk-exhausted e =
        let (handed, others, gens) = alloc_lem r p h.pool in
        sessions-BooksOk (alloc r p).1 live h (alloc-PoolOk r p h.pool)
          (λ j. others j (λ s. cc) ∙ h.balance j) (λ j pos. gens j)

    -- Nobody referred to the slot; its reference is the worker's.
    pub BooksOk-handed :
        (i : ℕ)
        → (alloc r p).0 ≡ some i
        → BooksOk (λ j. live j + to_ℕ (i == j)) owned m (alloc r p).1 × (live i ≡ 0)
    BooksOk-handed i e =
        let (handed, others, gens) = alloc_lem r p h.pool in
        let x = handed i e in
        (
          sessions-BooksOk (alloc r p).1 (λ j. live j + to_ℕ (i == j)) h (alloc-PoolOk r p h.pool)
              (λ j. elim (Bool-cases (i == j)) [
                | inl same ↦
                    let at : i ≡ j = ground (arith, same) in
                    subst
                      (λ k. ((alloc r p).1.slots k).refs ≡ live k + to_ℕ (i == k) + holdings k m) at
                      (ground (arith, x.2, x.1, h.balance i))
                | inr other ↦
                    let n : (alloc r p).0 ≢ some j = λ s. ground (arith, e, s, other) in
                    omega (arith, others j n, h.balance j, ap to_ℕ other)
              ])
              (λ j pos. gens j),
          omega (arith, h.balance i, x.1),
        )
