-- ===== src/Session/Link.antt =====
-- What the socket side of a session is, and which operations leave it alone.
use mo_belt.Prelude.{ℕ, ◌≡◌, ◌∙◌, refl, arith}
use mo_belt.Session.{Session}
use mo_belt.Session.Pool.{SessionPool, put_slot, add_ref, release}

module _ {Buf : Type 0} where
  -- Who is cut, and what is received and to be sent.
  pub record SameLink (p q : SessionPool Buf) : Type 0 where
    pub dead : (j : ℕ) → (q.slots j).dead ≡ (p.slots j).dead
    pub recv : (j : ℕ) → (q.slots j).recv_q ≡ (p.slots j).recv_q
    pub send : (j : ℕ) → (q.slots j).send_q ≡ (p.slots j).send_q
    pub owner : (j : ℕ) → (q.slots j).owner ≡ (p.slots j).owner
    pub fd : (j : ℕ) → (q.slots j).fd ≡ (p.slots j).fd

  pub SameLink-refl : (p : SessionPool Buf) → SameLink p p
  SameLink-refl p = record {
    dead = λ j. refl;
    recv = λ j. refl;
    send = λ j. refl;
    owner = λ j. refl;
    fd = λ j. refl;
  }

  pub SameLink-trans : {p q r : SessionPool Buf} → SameLink p q → SameLink q r → SameLink p r
  SameLink-trans g h = record {
    dead = λ j. h.dead j ∙ g.dead j;
    recv = λ j. h.recv j ∙ g.recv j;
    send = λ j. h.send j ∙ g.send j;
    owner = λ j. h.owner j ∙ g.owner j;
    fd = λ j. h.fd j ∙ g.fd j;
  }

  pub put_slot-SameLink :
      (p : SessionPool Buf) (k : ℕ) (s : Session Buf)
      → s.dead ≡ (p.slots k).dead
      → s.recv_q ≡ (p.slots k).recv_q
      → s.send_q ≡ (p.slots k).send_q
      → s.owner ≡ (p.slots k).owner
      → s.fd ≡ (p.slots k).fd
      → SameLink p (put_slot p k s)
  put_slot-SameLink p k s dead recv send owner fd = record {
    dead = λ j. ground arith;
    recv = λ j. ground arith;
    send = λ j. ground arith;
    owner = λ j. ground arith;
    fd = λ j. ground arith;
  }

  pub add_ref-SameLink : (p : SessionPool Buf) (k : ℕ) → SameLink p (add_ref p k)
  unfolding add_ref
  add_ref-SameLink p k = put_slot-SameLink p k _ refl refl refl refl refl

  pub release-SameLink : (p : SessionPool Buf) (k : ℕ) → SameLink p (release p k)
  unfolding release
  release-SameLink p k = record {
    dead = λ j. ground arith;
    recv = λ j. ground arith;
    send = λ j. ground arith;
    owner = λ j. ground arith;
    fd = λ j. ground arith;
  }

module _ {Buf : Type 0} where
  -- Who is cut, and whose socket it is: what the game workers leave alone.
  pub record SameSocket (p q : SessionPool Buf) : Type 0 where
    pub dead : (j : ℕ) → (q.slots j).dead ≡ (p.slots j).dead
    pub owner : (j : ℕ) → (q.slots j).owner ≡ (p.slots j).owner
    pub fd : (j : ℕ) → (q.slots j).fd ≡ (p.slots j).fd

  pub SameSocket-refl : (p : SessionPool Buf) → SameSocket p p
  SameSocket-refl p = record { dead = λ j. refl; owner = λ j. refl; fd = λ j. refl }

  pub SameSocket-trans :
      {p q r : SessionPool Buf} → SameSocket p q → SameSocket q r → SameSocket p r
  SameSocket-trans g h = record {
    dead = λ j. h.dead j ∙ g.dead j;
    owner = λ j. h.owner j ∙ g.owner j;
    fd = λ j. h.fd j ∙ g.fd j;
  }

  pub SameLink-SameSocket : {p q : SessionPool Buf} → SameLink p q → SameSocket p q
  SameLink-SameSocket h = record { dead = h.dead; owner = h.owner; fd = h.fd }

  pub put_slot-SameSocket :
      (p : SessionPool Buf) (k : ℕ) (s : Session Buf)
      → s.dead ≡ (p.slots k).dead
      → s.owner ≡ (p.slots k).owner
      → s.fd ≡ (p.slots k).fd
      → SameSocket p (put_slot p k s)
  put_slot-SameSocket p k s dead owner fd = record {
    dead = λ j. ground arith;
    owner = λ j. ground arith;
    fd = λ j. ground arith;
  }
