-- ===== src/Session/Invariant.antt =====
-- The invariant of the session pool (server/src/Session.h), and its operations.
use mo_belt.Prelude.{
  ℕ, zero, suc, ◌+◌, ◌≤◌, ◌<◌, ◌≡◌, ◌≢◌, ◌⊎◌, ◌∙◌, refl, ap, false, ◌&&◌, Option, none, some, List,
  [], ◌∷◌, arith, ltb, ◌==◌, to_ℕ, count_by, update, update_ne, Bool-cases, inl, inr, sym,
}
use native.Mathlib.Decide.{ℕ_discrete}
use mathlib.Core.Option.{some-injective}
use mo_belt.RingBuffer.{Ring}
use mo_belt.Session.{Session, blank_session}
use mo_belt.Session.Pool.{
  SessionPool, put_slot, fill_free, add_ref, release, init, fresh, ready_rings, alloc_top, alloc,
}

-- How often slot `j` stands in a list of slots.
abbrev pub times : ℕ → List ℕ → ℕ
times j = count_by (λ i. i == j)

module _ {Buf : Type 0} where
  pub record PoolOk (p : SessionPool Buf) : Type 0 where
    pub own_idx : (j : ℕ) → j < p.cap → (p.slots j).idx ≡ j
    pub beyond : (j : ℕ) → p.cap ≤ j → (p.slots j).refs ≡ 0
    pub free_exact : (j : ℕ) → times j p.free ≡ to_ℕ (ltb j p.cap && (p.slots j).refs == 0)

  -- Giving back a reference that is held keeps the pool in order.
  pub release-PoolOk :
      (p : SessionPool Buf) (k : ℕ) → PoolOk p → (p.slots k).refs ≢ 0 → PoolOk (release p k)
  unfolding release
  release-PoolOk p k h held = record {
    own_idx = λ j lt. ground (arith, h.own_idx j);
    beyond = λ j le. ground (arith, h.beyond j, h.beyond k);
    free_exact = λ j. ground (arith, h.free_exact j, h.beyond k, h.own_idx k);
  }

  pub add_ref-PoolOk :
      (p : SessionPool Buf) (k : ℕ) → PoolOk p → (p.slots k).refs ≢ 0 → PoolOk (add_ref p k)
  unfolding add_ref
  add_ref-PoolOk p k h held = record {
    own_idx = λ j lt. ground (arith, h.own_idx j);
    beyond = λ j le. ground (arith, h.beyond j, h.beyond k);
    free_exact = λ j. ground (arith, h.free_exact j, h.beyond k, h.own_idx k);
  }

  -- A write that leaves the reference count and the slot number keeps the pool in order.
  pub put_slot-PoolOk :
      (p : SessionPool Buf) (k : ℕ) (s : Session Buf)
      → PoolOk p
      → s.refs ≡ (p.slots k).refs
      → s.idx ≡ (p.slots k).idx
      → PoolOk (put_slot p k s)
  put_slot-PoolOk p k s h refs idx = record {
    own_idx = λ j lt. ground (arith, h.own_idx j);
    beyond = λ j le. ground (arith, h.beyond j);
    free_exact = λ j. ground (arith, h.free_exact j);
  }

  -- A free slot is in range, unused, and once in the list.
  free_slot :
      (p : SessionPool Buf) (i : ℕ) (rest : List ℕ)
      → PoolOk p
      → p.free ≡ i ∷ rest
      → (i < p.cap) × ((p.slots i).refs ≡ 0) × (times i rest ≡ 0)
  free_slot p i rest h e = ground (arith, h.free_exact i, ap (times i) e)

  -- Taking the slot on top of the free list, with one reference, keeps the pool in order.
  take-PoolOk :
      (p : SessionPool Buf) (i : ℕ) (rest : List ℕ) (s : Session Buf)
      → PoolOk p
      → p.free ≡ i ∷ rest
      → s.refs ≡ 1
      → s.idx ≡ (p.slots i).idx
      → PoolOk (record p { slots = update p.slots i s; free = rest })
  take-PoolOk p i rest s h e refs idx = record {
    own_idx = λ j lt. ground (arith, h.own_idx j);
    beyond = λ j le. ground (arith, h.beyond j, free_slot p i rest h e);
    free_exact = λ j. ground (arith, h.free_exact j, ap (times j) e, free_slot p i rest h e);
  }

module _ {Buf : Type 0} (r : Ring Buf) where
  ready_rings-keeps :
      (s : Session Buf)
      → let t = (ready_rings r s).1 in (t.refs ≡ s.refs) × (t.idx ≡ s.idx) × (t.gen ≡ s.gen)
  unfolding ready_rings
  ready_rings-keeps s = ground arith

  -- The three ends of `Alloc`.
  pub alloc_cases :
      (P : Option ℕ → SessionPool Buf → Type 0) (p : SessionPool Buf)
      → P none p
      → ((i : ℕ) (rest : List ℕ)
          → p.free ≡ i ∷ rest
          → P none (put_slot p i (ready_rings r (p.slots i)).1))
      → ((i : ℕ) (rest : List ℕ)
          → p.free ≡ i ∷ rest
          → P (some i) (record p {
            slots = update p.slots i (fresh r (ready_rings r (p.slots i)).1);
            free = rest;
          }))
      → P (alloc r p).0 (alloc r p).1
  unfolding alloc
  alloc_cases P p exhausted failed done = start p.free refl
    where
      start : (l : List ℕ) → p.free ≡ l → P (alloc_top r p l).0 (alloc_top r p l).1
      start [] e = exhausted
      start (i ∷ rest) e = elim (Bool-cases (ready_rings r (p.slots i)).0) [
        | inl ok ↦ rw ok (done i rest e)
        | inr bad ↦ rw bad (failed i rest e)
      ]

  -- Whether `Alloc` hands out a slot, finds none or fails to make its rings, the pool stays in order.
  pub alloc-PoolOk : (p : SessionPool Buf) → PoolOk p → PoolOk (alloc r p).1
  unfolding fresh
  alloc-PoolOk p h =
      alloc_cases (λ _ q. PoolOk q) p h
        (λ i rest e.
          put_slot-PoolOk p i _ h (ready_rings-keeps (p.slots i)).0
            (ready_rings-keeps (p.slots i)).1)
        (λ i rest e. take-PoolOk p i rest _ h e refl (ready_rings-keeps (p.slots i)).1)

  -- A slot that `Alloc` hands out was held by nobody; it has one reference, belongs to no room, and
  -- is alive. Whatever the outcome, no other slot's references change and no generation does.
  pub alloc_lem :
      (p : SessionPool Buf)
      → PoolOk p
      → let (got, q) = alloc r p in
        ((i : ℕ)
          → got ≡ some i
          → (i < p.cap)
            × ((p.slots i).refs ≡ 0)
            × ((q.slots i).refs ≡ 1)
            × ((q.slots i).dead ≡ false)
            × ((q.slots i).in_room ≡ false))
        × ((j : ℕ) → got ≢ some j → (q.slots j).refs ≡ (p.slots j).refs)
        × ((j : ℕ) → (q.slots j).gen ≡ (p.slots j).gen)
  unfolding fresh
  alloc_lem p h =
      alloc_cases Good p (λ i e. cc, λ j n. refl, λ j. refl)
        (λ i rest e. (
          λ k f. cc,
          λ j n. ground (arith, ready_rings-keeps (p.slots i)),
          λ j. ground (arith, ready_rings-keeps (p.slots i)),
        ))
        (λ i rest e. (
          λ k f. ground (arith, free_slot p i rest h e, some-injective f),
          λ j n. ap (λ s. s.refs) (update_ne p.slots i _ j (λ same. n (ap some (sym same)))),
          λ j. ground (arith, ready_rings-keeps (p.slots i)),
        ))
    where
      Good : Option ℕ → SessionPool Buf → Type 0
      Good got q =
          ((i : ℕ)
            → got ≡ some i
            → (i < p.cap)
              × ((p.slots i).refs ≡ 0)
              × ((q.slots i).refs ≡ 1)
              × ((q.slots i).dead ≡ false)
              × ((q.slots i).in_room ≡ false))
          × ((j : ℕ) → got ≢ some j → (q.slots j).refs ≡ (p.slots j).refs)
          × ((j : ℕ) → (q.slots j).gen ≡ (p.slots j).gen)

module _ {Buf : Type 0} (r : Ring Buf) where
  -- A slot `i` that `Alloc` hands out was in the pool and held by nobody; it has one reference, is
  -- alive and in no room. No other slot `j` gains or loses a reference, and no generation changes.
  pub alloc-handed :
      (p : SessionPool Buf) (i j : ℕ)
      → PoolOk p
      → (alloc r p).0 ≡ some i
      → let q = (alloc r p).1 in
        (i < p.cap)
        × ((p.slots i).refs ≡ 0)
        × ((q.slots i).refs ≡ 1)
        × ((q.slots i).dead ≡ false)
        × ((q.slots i).in_room ≡ false)
        × ((q.slots j).gen ≡ (p.slots j).gen)
        × ((j ≡ i) ⊎ ((q.slots j).refs ≡ (p.slots j).refs))
  alloc-handed p i j h e =
      let (handed, others, gens) = alloc_lem r p h in
      let (lt, free, one, alive, out) = handed i e in
      (
        lt,
        free,
        one,
        alive,
        out,
        gens j,
        elim (ℕ_discrete j i) [ yes same ↦ inl same | no ne ↦ inr (others j (λ f. ne cc)) ],
      )

module _ {Buf : Type 0} where
  fill_free_lem :
      (n : ℕ) (p : SessionPool Buf)
      → let q = fill_free n p in
        (q.cap ≡ p.cap)
        × ((j : ℕ) → (q.slots j).refs ≡ (p.slots j).refs)
        × ((j : ℕ) → j < n → (q.slots j).idx ≡ j)
        × ((j : ℕ) → n ≤ j → (q.slots j).idx ≡ (p.slots j).idx)
        × ((j : ℕ) → times j q.free ≡ times j p.free + to_ℕ (ltb j n))
  unfolding fill_free
  fill_free_lem zero p = (refl, λ j. refl, λ j lt. elim lt [ ], λ j le. refl, λ j. ground arith)
  fill_free_lem (suc n) p =
      let q : SessionPool Buf = record p {
        slots = update p.slots n (record (p.slots n) { idx = n });
        free = n ∷ p.free;
      } in
      let rest = fill_free_lem n q in
      (
        rest.0,
        λ j. ground (arith, rest.1 j),
        λ j lt. ground (arith, rest.2 j, rest.3 j),
        λ j le. ground (arith, rest.3 j),
        λ j. ground (arith, rest.4 j),
      )

-- `Init` leaves every slot free, once.
pub init-PoolOk : {Buf : Type 0} (r : Ring Buf) (n : ℕ) → PoolOk (init r n)
unfolding init blank_session
init-PoolOk r n =
    let p : SessionPool _ = record { slots = λ _. blank_session r; cap = n; free = [] } in
    let (cap, refs, idx, above, free) = fill_free_lem n p in
    record {
      own_idx = λ j lt. idx j (ground (arith, cap));
      beyond = λ j le. refs j;
      free_exact = λ j. ground (arith, free j, refs j, cap);
    }

-- Nobody refers to a session of a new pool.
pub init-refs : {Buf : Type 0} (r : Ring Buf) (n j : ℕ) → ((init r n).slots j).refs ≡ 0
unfolding init blank_session
init-refs r n j =
    let p : SessionPool _ = record { slots = λ _. blank_session r; cap = n; free = [] } in
    (fill_free_lem n p).1 j

fill_free-fd :
    {Buf : Type 0} (n : ℕ) (p : SessionPool Buf) (j : ℕ)
    → ((fill_free n p).slots j).fd ≡ (p.slots j).fd
unfolding fill_free
fill_free-fd zero p j = refl
fill_free-fd (suc n) p j =
    let q : SessionPool _ = record p {
      slots = update p.slots n (record (p.slots n) { idx = n });
      free = n ∷ p.free;
    } in
    fill_free-fd n q j ∙ ground arith

-- No session of a new pool has a socket.
pub init-fd : {Buf : Type 0} (r : Ring Buf) (n j : ℕ) → ((init r n).slots j).fd ≡ none
unfolding init blank_session
init-fd r n j =
    let p : SessionPool _ = record { slots = λ _. blank_session r; cap = n; free = [] } in
    fill_free-fd n p j
