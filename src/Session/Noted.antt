-- ===== src/Session/Noted.antt =====
-- Writes to a session that leave its references, its generation and its slot number alone.
use mo_belt.Prelude.{ℕ, ◌≡◌, refl, ◌∙◌, arith, ap}
use mo_belt.Session.{Session}
use mo_belt.Session.Pool.{SessionPool, put_slot}
use mo_belt.Session.Invariant.{PoolOk, times}

module _ {Buf : Type 0} where
  pub record Noted (p q : SessionPool Buf) : Type 0 where
    pub cap : q.cap ≡ p.cap
    pub free : q.free ≡ p.free
    pub refs : (j : ℕ) → (q.slots j).refs ≡ (p.slots j).refs
    pub gen : (j : ℕ) → (q.slots j).gen ≡ (p.slots j).gen
    pub idx : (j : ℕ) → (q.slots j).idx ≡ (p.slots j).idx

  pub Noted-refl : (p : SessionPool Buf) → Noted p p
  Noted-refl p = record {
    cap = refl;
    free = refl;
    refs = λ j. refl;
    gen = λ j. refl;
    idx = λ j. refl;
  }

  pub Noted-trans : {p q r : SessionPool Buf} → Noted p q → Noted q r → Noted p r
  Noted-trans g h = record {
    cap = h.cap ∙ g.cap;
    free = h.free ∙ g.free;
    refs = λ j. h.refs j ∙ g.refs j;
    gen = λ j. h.gen j ∙ g.gen j;
    idx = λ j. h.idx j ∙ g.idx j;
  }

  pub put_slot-Noted :
      (p : SessionPool Buf) (k : ℕ) (s : Session Buf)
      → s.refs ≡ (p.slots k).refs
      → s.gen ≡ (p.slots k).gen
      → s.idx ≡ (p.slots k).idx
      → Noted p (put_slot p k s)
  put_slot-Noted p k s refs gen idx = record {
    cap = refl;
    free = refl;
    refs = λ j. ground arith;
    gen = λ j. ground arith;
    idx = λ j. ground arith;
  }

  pub Noted-PoolOk : {p q : SessionPool Buf} → Noted p q → PoolOk p → PoolOk q
  Noted-PoolOk n h = record {
    own_idx = λ j lt. ground (arith, h.own_idx j, n.cap, n.idx j);
    beyond = λ j le. ground (arith, h.beyond j, n.cap, n.refs j);
    free_exact = λ j. ground (arith, h.free_exact j, n.cap, n.refs j, ap (times j) n.free);
  }
