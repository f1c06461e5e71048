-- ===== src/Room/Holds.antt =====
-- The references that a room holds on sessions: one for each member and one for each join in its
-- queue (server/src/Session.h, "gameRef").
use mo_belt.Prelude.{
  ℕ, ◌+◌, ◌≤◌, ◌<◌, ◌≡◌, ◌≢◌, ◌∙◌, ap, true, ◌&&◌, List, [], ◌∷◌, arith, ◌==◌, to_ℕ, sum_below,
  le-sum_below, count_by,
}
use mo_belt.Room.{Member, RoomJoinEntry, room_members}
use mo_belt.Session.Pool.{SessionPool, release}
use mo_belt.Session.Invariant.{PoolOk, release-PoolOk}

-- Whether a member is session `j`, of whatever generation.
abbrev pub refers : ℕ → Member → ℕ
refers j m = to_ℕ (m.used && m.sess_idx == j)

abbrev pub waits : ℕ → List RoomJoinEntry → ℕ
waits j = count_by (λ e. e.sess_idx == j)

-- The references on session `j` that the members `m` and the joins `es` hold.
abbrev pub holds : ℕ → (ℕ → Member) → List RoomJoinEntry → ℕ
holds j m es = sum_below room_members (λ i. refers j (m i)) + waits j es

module _ {Buf : Type 0} where
  -- Joins name the current generation of their session.
  abbrev pub AllTagged : SessionPool Buf → List RoomJoinEntry → Type 0
  AllTagged p [] = Unit {0}
  AllTagged p (e ∷ es) = ((p.slots e.sess_idx).gen ≡ e.sess_gen) × AllTagged p es

  abbrev pub MembersTagged : SessionPool Buf → (ℕ → Member) → Type 0
  MembersTagged p m =
      (i : ℕ) → i < room_members → (m i).used ≡ true → (p.slots (m i).sess_idx).gen ≡ (m i).sess_gen

  -- The generations of the sessions with references elsewhere, `c j` of them, are the same.
  abbrev pub Kept : (ℕ → ℕ) → SessionPool Buf → SessionPool Buf → Type 0
  Kept c p q = (j : ℕ) → 0 < c j → (q.slots j).gen ≡ (p.slots j).gen

  -- Each session has the references that are held here, by the members `m` and the joins `es`, and
  -- `c j` that are held elsewhere; and what is held here is of the session's current generation.
  pub record Held (c : ℕ → ℕ) (p : SessionPool Buf) (m : ℕ → Member) (es : List RoomJoinEntry)
      : Type 0 where
    pub pool : PoolOk p
    pub balance : (j : ℕ) → (p.slots j).refs ≡ c j + holds j m es
    pub members_tagged : MembersTagged p m
    pub joins_tagged : AllTagged p es

  module _ (p : SessionPool Buf) (k : ℕ) where
    pub gen-release :
        (j : ℕ) → ((p.slots k).refs ≡ 1 → j ≢ k) → ((release p k).slots j).gen ≡ (p.slots j).gen
    unfolding release
    gen-release j h = ground arith

    pub refs-release :
        (j n : ℕ) → (p.slots j).refs ≡ to_ℕ (j == k) + n → ((release p k).slots j).refs ≡ n
    unfolding release
    refs-release j n h = ground arith

    AllTagged-release :
        (es : List RoomJoinEntry)
        → ((p.slots k).refs ≡ 1 → waits k es ≡ 0)
        → AllTagged p es
        → AllTagged (release p k) es
    AllTagged-release [] h t = tt
    AllTagged-release (e ∷ es) h t = (
      gen-release e.sess_idx (λ one same. ground (arith, h one)) ∙ t.0,
      AllTagged-release es (λ one. ground (arith, h one)) t.1,
    )

    -- Giving back a reference that is no longer held here keeps the books.
    pub release-Held :
        (c : ℕ → ℕ) (m : ℕ → Member) (es : List RoomJoinEntry)
        → PoolOk p
        → ((j : ℕ) → (p.slots j).refs ≡ to_ℕ (j == k) + (c j + holds j m es))
        → MembersTagged p m
        → AllTagged p es
        → Held c (release p k) m es
    release-Held c m es h b mt jt = record {
      pool = release-PoolOk p k h (λ e. ground (arith, b k));
      balance = λ j. refs-release j _ (b j);
      members_tagged = λ i lt used.
          gen-release (m i).sess_idx
            (λ one same. ground (arith, b k, le-sum_below room_members i (λ i. refers k (m i)) lt))
          ∙ mt i lt used;
      joins_tagged = AllTagged-release es (λ one. ground (arith, b k)) jt;
    }

    -- It keeps the generation of every session that is referred to elsewhere.
    pub release-Kept :
        (c : ℕ → ℕ) (m : ℕ → Member) (es : List RoomJoinEntry)
        → ((j : ℕ) → (p.slots j).refs ≡ to_ℕ (j == k) + (c j + holds j m es))
        → Kept c p (release p k)
    release-Kept c m es b j pos = gen-release j (λ one same. ground (arith, b k, ap c same))

  -- Tags that are covered by references stay right where generations are kept.
  module _ (c : ℕ → ℕ) (p q : SessionPool Buf) (kept : Kept c p q) where
    pub Kept-MembersTagged :
        (m : ℕ → Member) (es : List RoomJoinEntry)
        → ((j : ℕ) → holds j m es ≤ c j)
        → MembersTagged p m
        → MembersTagged q m
    Kept-MembersTagged m es le t i lt used =
        let j = (m i).sess_idx in
        kept j (ground (arith, le j, le-sum_below room_members i (λ k. refers j (m k)) lt))
        ∙ t i lt used

    pub Kept-AllTagged :
        (es : List RoomJoinEntry) → ((j : ℕ) → waits j es ≤ c j) → AllTagged p es → AllTagged q es
    Kept-AllTagged [] le t = tt
    Kept-AllTagged (e ∷ es) le t = (
      kept e.sess_idx (ground (arith, le e.sess_idx)) ∙ t.0,
      Kept-AllTagged es (λ j. ground (arith, le j)) t.1,
    )

  pub AllTagged-same :
      (p q : SessionPool Buf) (es : List RoomJoinEntry)
      → ((j : ℕ) → (q.slots j).gen ≡ (p.slots j).gen)
      → AllTagged p es
      → AllTagged q es
  AllTagged-same p q [] g t = tt
  AllTagged-same p q (e ∷ es) g t = (g e.sess_idx ∙ t.0, AllTagged-same p q es g t.1)

  -- Other fields of the sessions do not matter.
  pub Held-same :
      {c : ℕ → ℕ} {p : SessionPool Buf} (q : SessionPool Buf) {m : ℕ → Member}
      {es : List RoomJoinEntry}
      → Held c p m es
      → PoolOk q
      → ((j : ℕ) → (q.slots j).refs ≡ (p.slots j).refs)
      → ((j : ℕ) → (q.slots j).gen ≡ (p.slots j).gen)
      → Held c q m es
  Held-same {p = p} q {es = es} h ok refs gens = record {
    pool = ok;
    balance = λ j. refs j ∙ h.balance j;
    members_tagged = λ i lt used. gens _ ∙ h.members_tagged i lt used;
    joins_tagged = AllTagged-same p q es gens h.joins_tagged;
  }
