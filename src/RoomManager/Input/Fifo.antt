-- ===== src/RoomManager/Input/Fifo.antt =====
-- The input ring of a member (server/src/RoomManager.cpp) as a queue: routing adds at its end, and
-- a tick takes from its front.
use mo_belt.Prelude.{
  ℕ, zero, suc, ◌+◌, ◌-◌, ◌%◌, ◌<◌, ◌≤◌, ◌≡◌, ◌∙◌, refl, sym, ap, inl, inr, Bool, ◌&&◌,
  if◌then◌else◌, ltb, leb, ◌==◌, List, [], ◌∷◌, ◌++◌, update, length, length-append, append-one,
  append-nil, arith, Bool-cases, update_ne, update_self,
}
use mathlib.Core.Path.{subst}
use mo_belt.Room.{Member, InputCmd, room_members}
use mo_belt.RoomManager.Input.{
  make_space, store, push_ring, is_for, Routing, route, route_all, neutral, take_input,
}

-- The inputs in `n` slots of a ring from `h` on.
abbrev window : (ℕ → InputCmd) → ℕ → ℕ → List InputCmd
window r h zero = []
window r h (suc n) = r (h % 8) ∷ window r (h + 1) n

-- The queue that a member's ring stands for.
unfoldable pub queue : Member → List InputCmd
queue m = window m.ring m.ring_head m.ring_count

pub record RingOk (m : Member) : Type 0 where
  pub head : m.ring_head < 8
  pub count : m.ring_count ≤ 8

-- The last eight of a list.
abbrev pub newest : List InputCmd → List InputCmd
newest [] = []
newest (c ∷ cs) = let rest = newest cs in if leb (length cs) 7 then c ∷ cs else rest

window-snoc :
    (r : ℕ → InputCmd) (h n : ℕ) → window r h (suc n) ≡ window r h n ++ r ((h + n) % 8) ∷ []
window-snoc r h zero = ground arith
window-snoc r h (suc n) = ground (arith, window-snoc r (h + 1) n)

-- Only the residue of the head counts.
window-wrap : (r : ℕ → InputCmd) (g h n : ℕ) → g % 8 ≡ h % 8 → window r g n ≡ window r h n
window-wrap r g h zero e = refl
window-wrap r g h (suc n) e = ground (arith, e, window-wrap r (g + 1) (h + 1) n (omega arith))

-- A write outside the window, at most seven slots beyond its start.
window-update :
    (r : ℕ → InputCmd) (c : InputCmd) (p h d n : ℕ)
    → p ≡ (h + d) % 8
    → n ≤ d
    → d ≤ 7
    → window (update r p c) h n ≡ window r h n
window-update r c p h d zero e le small = refl
window-update r c p h d (suc n) e le small = ground (
  arith,
  update_ne r p c (h % 8) (λ same. omega arith),
  window-update r c p (h + 1) (d - 1) n (e ∙ ap (λ k. k % 8) (omega arith)) (omega arith)
      (omega arith),
)

length-window : (r : ℕ → InputCmd) (h n : ℕ) → length (window r h n) ≡ n
length-window r h zero = refl
length-window r h (suc n) = ap suc (length-window r (h + 1) n)

length-queue : (m : Member) → length (queue m) ≡ m.ring_count
unfolding queue
length-queue m = length-window m.ring m.ring_head m.ring_count

newest-short : (q : List InputCmd) → length q ≤ 8 → newest q ≡ q
newest-short [] le = refl
newest-short (c ∷ q) le = ground arith

newest-append : (p q : List InputCmd) → newest (newest p ++ q) ≡ newest (p ++ q)
newest-append [] q = refl
newest-append (c ∷ p) q = ground (arith, newest-append p q, length-append p q)

-- The newest of nine.
newest-full :
    (b : InputCmd) (q : List InputCmd) (c : InputCmd)
    → length q ≡ 7
    → newest (b ∷ q ++ c ∷ []) ≡ q ++ c ∷ []
newest-full b q c e = ground (arith, newest-short (q ++ c ∷ []), length-append q (c ∷ []))

make_space-RingOk :
    (m : Member) → RingOk m → RingOk (make_space m) × ((make_space m).ring_count ≤ 7)
unfolding make_space
make_space-RingOk m h = (
  record { head = ground (arith, h.head); count = ground (arith, h.count) },
  ground (arith, h.count),
)

store-queue : (c : InputCmd) (m : Member) → m.ring_count ≤ 7 → queue (store c m) ≡ queue m ++ c ∷ []
unfolding store queue
store-queue c m le =
    let p = (m.ring_head + m.ring_count) % 8 in
    let n = m.ring_count in
    ground (
      arith,
      window-snoc (update m.ring p c) m.ring_head n,
      window-update m.ring c p m.ring_head n n refl (omega arith) le,
      update_self m.ring p c,
    )

make_space-queue :
    (c : InputCmd) (m : Member)
    → RingOk m
    → queue (make_space m) ++ c ∷ [] ≡ newest (queue m ++ c ∷ [])
unfolding make_space queue
make_space-queue c m h = elim (Bool-cases (m.ring_count == 8)) [
  | inl full ↦
      let q = window m.ring (m.ring_head + 1) 7 in
      ground (
        arith,
        window-wrap m.ring ((m.ring_head + 1) % 8) (m.ring_head + 1) 7 (omega arith),
        newest-full (m.ring (m.ring_head % 8)) q c (length-window m.ring (m.ring_head + 1) 7),
      )
  | inr room ↦
      let q = window m.ring m.ring_head m.ring_count in
      ground (
        arith,
        h.count,
        length-window m.ring m.ring_head m.ring_count,
        length-append q (c ∷ []),
        newest-short (q ++ c ∷ []),
      )
]

push_ring-RingOk : (c : InputCmd) (m : Member) → RingOk m → RingOk (push_ring c m)
unfolding push_ring store
push_ring-RingOk c m h =
    let (ok, space) = make_space-RingOk m h in
    record { head = ok.head; count = omega (arith, space) }

push_ring-queue :
    (c : InputCmd) (m : Member) → RingOk m → queue (push_ring c m) ≡ newest (queue m ++ c ∷ [])
unfolding push_ring
push_ring-queue c m h =
    store-queue c (make_space m) (make_space-RingOk m h).1 ∙ make_space-queue c m h

-- What the filter of a batch is for the member `m` at seat `i`.
abbrev pub is_mine : ℕ → Member → InputCmd → Bool
unfolding is_for
is_mine i m c = c.actor_id == i && is_for c m

-- The inputs of a batch that are meant for a member.
abbrev pub inputs_of : ℕ → Member → List InputCmd → List InputCmd
inputs_of i m [] = []
inputs_of i m (c ∷ cs) = let rest = inputs_of i m cs in if is_mine i m c then c ∷ rest else rest

-- Who sits at a seat, which routing leaves.
pub record SamePlayer (m n : Member) : Type 0 where
  pub used : n.used ≡ m.used
  pub idx : n.sess_idx ≡ m.sess_idx
  pub gen : n.sess_gen ≡ m.sess_gen

inputs_of-SamePlayer :
    (i : ℕ) (m n : Member) (cs : List InputCmd)
    → SamePlayer m n
    → inputs_of i n cs ≡ inputs_of i m cs
unfolding is_for
inputs_of-SamePlayer i m n [] same = refl
inputs_of-SamePlayer i m n (c ∷ cs) same =
    ground (arith, same.used, same.idx, same.gen, inputs_of-SamePlayer i m n cs same)

pub push_ring-SamePlayer : (c : InputCmd) (m : Member) → SamePlayer m (push_ring c m)
unfolding push_ring make_space store
push_ring-SamePlayer c m = record { used = ground arith; idx = ground arith; gen = ground arith }

-- One round of the routing loop, at seat `i`.
route-at :
    (c : InputCmd) (t : Routing) (i : ℕ)
    → i < room_members
    → (route c t).members i
      ≡ (if is_mine i (t.members i) c then push_ring c (t.members i) else t.members i)
unfolding route is_for
route-at c t i lt = ground arith

routed :
    (i : ℕ) (c : InputCmd) (cs : List InputCmd) (m n : Member)
    → RingOk m
    → n ≡ (if is_mine i m c then push_ring c m else m)
    → RingOk n × (newest (queue n ++ inputs_of i n cs) ≡ newest (queue m ++ inputs_of i m (c ∷ cs)))
routed i c cs m n h e = elim (Bool-cases (is_mine i m c)) [
  | inl mine ↦ subst (Routed m) (sym (e ∙ ground (arith, mine))) (
    push_ring-RingOk c m h,
    rw mine (
        ap (λ q. newest (q ++ inputs_of i (push_ring c m) cs)) (push_ring-queue c m h)
        ∙ ap (λ q. newest (newest (queue m ++ c ∷ []) ++ q))
            (inputs_of-SamePlayer i m (push_ring c m) cs (push_ring-SamePlayer c m))
        ∙ newest-append (queue m ++ c ∷ []) (inputs_of i m cs)
        ∙ ap newest (append-one (queue m) c (inputs_of i m cs))),
  )
  | inr other ↦ subst (Routed m) (sym (e ∙ ground (arith, other))) (h, ground (arith, other))
]
  where
    Routed : Member → Member → Type 0
    Routed m n =
        RingOk n
        × (newest (queue n ++ inputs_of i n cs) ≡ newest (queue m ++ inputs_of i m (c ∷ cs)))

-- A batch of inputs, however long and of whatever mix, leaves in the ring of the player at seat `i`,
-- where it was in order, the newest eight of what stood there and of its own inputs, in order.
pub route_all-queue :
    (cs : List InputCmd) (t : Routing) (i : ℕ)
    → i < room_members
    → RingOk (t.members i)
    → let m = (route_all cs t).members i in
      RingOk m × (queue m ≡ newest (queue (t.members i) ++ inputs_of i (t.members i) cs))
unfolding route_all
route_all-queue [] t i lt h =
    let m = t.members i in
    (h, ground (arith, length-queue m, h.count, append-nil (queue m), newest-short (queue m)))
route_all-queue (c ∷ cs) t i lt h =
    let (ok, e) = routed i c cs (t.members i) ((route c t).members i) h (route-at c t i lt) in
    let (done, f) = route_all-queue cs (route c t) i lt ok in (done, f ∙ e)

-- What a player's character does in a tick: the oldest queued input; the one of the last tick while
-- the queue has been empty for ten ticks at most; then nothing.
abbrev pub applied : Member → List InputCmd → InputCmd
applied m [] = if ltb m.empty_streak 10 then m.held else neutral m.held
applied m (c ∷ q) = c

abbrev pub rest : List InputCmd → List InputCmd
rest [] = []
rest (c ∷ q) = q

-- How many ticks in a row have found the queue empty.
abbrev pub streak : Member → List InputCmd → ℕ
streak m [] = m.empty_streak + 1
streak m (c ∷ q) = 0

-- What a tick makes of a member.
abbrev pub Taken : Member → Member → Type 0
Taken m n =
    RingOk n
    × (queue n ≡ rest (queue m))
    × (n.held ≡ applied m (queue m))
    × (n.empty_streak ≡ streak m (queue m))

pub take_input-Taken : (m : Member) → RingOk m → Taken m (take_input m)
unfolding take_input queue
take_input-Taken m h = taken m.ring_count refl
  where
    taken : (n : ℕ) → m.ring_count ≡ n → Taken m (take_input m)
    taken zero e = (
      record { head = ground (arith, h.head); count = ground (arith, h.count) },
      ground (arith, e),
      ground (arith, e),
      ground (arith, e),
    )
    taken (suc n) e = (
      record { head = ground (arith, h.head); count = ground (arith, h.count) },
      ground
          (arith, e, window-wrap m.ring ((m.ring_head + 1) % 8) (m.ring_head + 1) n (omega arith)),
      ground (arith, e, h.head),
      ground (arith, e),
    )
