-- ===== src/RoomManager/Books.antt =====
-- The books of the manager and of the session pool as one invariant: every reference is accounted
-- for, every room slot is in one place, and the seat ledger of every room is right.
use mo_belt.Prelude.{
  ℕ, ◌+◌, ◌≤◌, ◌<◌, ◌≡◌, ◌≢◌, ◌∙◌, sym, ap, arith, ltb, ◌==◌, if◌then◌else◌, to_ℕ, sum_below,
  sum_below_congr, sum_below_differ, sum_below-update, le-sum_below, count_by-append, [], ◌∷◌, ◌++◌,
  update, update_self, update_ne, List,
}
use mathlib.Core.Path.{subst}
use native.Mathlib.Decide.{ℕ_discrete}
use mo_belt.Room.{Room}
use mo_belt.Room.Seats.{SeatsOk}
use mo_belt.Room.Holds.{
  holds, Held, Kept, MembersTagged, AllTagged, Kept-MembersTagged, Kept-AllTagged,
}
use mo_belt.Session.Pool.{SessionPool}
use mo_belt.Session.Invariant.{PoolOk, times}
use mo_belt.RoomManager.{RoomManager, put_room}

abbrev pub held_by : ℕ → Room → ℕ
held_by j r = holds j r.members r.pending_join

-- The references on session `j` that all rooms hold, and those of the rooms other than `i`.
abbrev pub holdings : ℕ → RoomManager → ℕ
holdings j m = sum_below m.cap (λ k. held_by j (m.slots k))

abbrev pub others : ℕ → ℕ → RoomManager → ℕ
others i j m = sum_below m.cap (λ k. if k == i then 0 else held_by j (m.slots k))

pub holdings-split :
    (i j : ℕ) (m : RoomManager) → i < m.cap → holdings j m ≡ others i j m + held_by j (m.slots i)
holdings-split i j m lt = ground (
  arith,
  sum_below_differ m.cap i (λ k. held_by j (m.slots k))
      (λ k. if k == i then 0 else held_by j (m.slots k)) lt (λ k ne. ground arith),
)

-- Two sets of slots that differ at `i` at most.
abbrev pub AgreeOff : ℕ → (ℕ → Room) → (ℕ → Room) → Type 0
AgreeOff i t s = (k : ℕ) → k ≢ i → t k ≡ s k

pub others-AgreeOff :
    (i j : ℕ) (m : RoomManager) (t : ℕ → Room)
    → AgreeOff i t m.slots
    → others i j (record m { slots = t }) ≡ others i j m
others-AgreeOff i j m t h = sum_below_congr m.cap _ _ (λ k lt. elim (ℕ_discrete k i) [
  | yes e ↦ ground arith
  | no ne ↦ ground (arith, ap (held_by j) (h k ne))
])

pub held_by-le-others :
    (i j k : ℕ) (m : RoomManager) → k < m.cap → k ≢ i → held_by j (m.slots k) ≤ others i j m
held_by-le-others i j k m lt ne =
    ground (arith, le-sum_below m.cap k (λ n. if n == i then 0 else held_by j (m.slots n)) lt)

-- `kMaxGameWorkers`.
abbrev pub max_game_workers : ℕ
max_game_workers = 16

-- How often room slot `i` stands in the mailboxes.
pub mailed : ℕ → (ℕ → List ℕ) → ℕ
mailed i mail = sum_below max_game_workers (λ w. times i (mail w))

pub mailed-push :
    (k i w : ℕ) (mail : ℕ → List ℕ)
    → w < max_game_workers
    → mailed k (update mail w (mail w ++ i ∷ [])) ≡ mailed k mail + to_ℕ (i == k)
unfolding mailed
mailed-push k i w mail lt = omega (
  arith,
  sum_below-update (times k) max_game_workers mail w (mail w ++ i ∷ []) lt,
  count_by-append (λ x. x == k) (mail w) (i ∷ []),
)

pub mailed-none : (i : ℕ) → mailed i (λ w. []) ≡ 0
unfolding mailed
mailed-none i = omega arith

pub mailed-drain :
    (k w : ℕ) (mail : ℕ → List ℕ)
    → w < max_game_workers
    → mailed k (update mail w []) + times k (mail w) ≡ mailed k mail
unfolding mailed
mailed-drain k w mail lt = omega (arith, sum_below-update (times k) max_game_workers mail w [] lt)

-- `live j` references on session `j` are held by epoll workers ("netRef"); `owned i` counts the
-- game workers' room lists that hold room slot `i`.
pub record BooksOk {Buf : Type 0} (live owned : ℕ → ℕ) (m : RoomManager) (p : SessionPool Buf)
    : Type 0 where
  pub workers : m.worker_count ≤ max_game_workers
  pub pool : PoolOk p
  pub balance : (j : ℕ) → (p.slots j).refs ≡ live j + holdings j m
  pub tagged :
      (i : ℕ)
      → i < m.cap
      → MembersTagged p (m.slots i).members × AllTagged p (m.slots i).pending_join
  pub seats : (i : ℕ) → i < m.cap → SeatsOk (m.slots i)
  pub room_idx : (i : ℕ) → i < m.cap → (m.slots i).idx ≡ i
  pub one_place : (i : ℕ) → times i m.free_rooms + mailed i m.mail + owned i ≡ to_ℕ (ltb i m.cap)
  pub vacant : (i : ℕ) → times i m.free_rooms ≢ 0 → (m.slots i).reserved_seats ≡ 0
  pub opened : (i : ℕ) → times i m.open_rooms + times i m.free_rooms ≤ to_ℕ (ltb i m.cap)

module _ {Buf : Type 0} {live owned : ℕ → ℕ} {m : RoomManager} {p : SessionPool Buf} where
  -- What one room sees of the books.
  pub BooksOk-Held :
      (i : ℕ)
      → i < m.cap
      → BooksOk live owned m p
      → Held (λ j. live j + others i j m) p (m.slots i).members (m.slots i).pending_join
  BooksOk-Held i lt h = record {
    pool = h.pool;
    balance = λ j. omega (arith, h.balance j, holdings-split i j m lt);
    members_tagged = (h.tagged i lt).0;
    joins_tagged = (h.tagged i lt).1;
  }

  -- The slot `i` may change to a room that accounts for its references and seats, and the lists
  -- with it, if they stay in order.
  pub change-BooksOk :
      (i : ℕ) (r : Room) (t : ℕ → Room) (free open_list : List ℕ) (load : ℕ → ℕ) (mail : ℕ → List ℕ)
      (q : SessionPool Buf) {live' owned' : ℕ → ℕ}
      → BooksOk live owned m p
      → i < m.cap
      → AgreeOff i t m.slots
      → t i ≡ r
      → r.idx ≡ i
      → SeatsOk r
      → Held (λ j. live' j + others i j m) q r.members r.pending_join
      → Kept (λ j. others i j m) p q
      → ((k : ℕ) → times k free + mailed k mail + owned' k ≡ to_ℕ (ltb k m.cap))
      → (times i free ≢ 0 → r.reserved_seats ≡ 0)
      → ((k : ℕ) → k ≢ i → times k free ≢ 0 → times k m.free_rooms ≢ 0)
      → ((k : ℕ) → times k open_list + times k free ≤ to_ℕ (ltb k m.cap))
      → BooksOk live' owned'
          (record m {
            slots = t;
            free_rooms = free;
            open_rooms = open_list;
            rooms_per_worker = load;
            mail = mail;
          })
          q
  change-BooksOk i r t free open_list load mail q {live'} {owned'} h lt off at idx seats held kept
        one empty old opened =
      record {
        workers = h.workers;
        pool = held.pool;
        balance = λ j. omega (
          arith,
          held.balance j,
          holdings-split i j (record m { slots = t }) lt,
          others-AgreeOff i j m t off,
          ap (held_by j) at,
        );
        tagged = λ k b.
            by_slot (λ u. MembersTagged q u.members × AllTagged q u.pending_join) k
              (λ ne. (
                Kept-MembersTagged (λ j. others i j m) p q kept (m.slots k).members
                    (m.slots k).pending_join (λ j. held_by-le-others i j k m b ne) (h.tagged k b).0,
                Kept-AllTagged (λ j. others i j m) p q kept (m.slots k).pending_join
                    (λ j. omega (arith, held_by-le-others i j k m b ne)) (h.tagged k b).1,
              ))
              (λ e. (held.members_tagged, held.joins_tagged));
        seats = λ k b. by_slot SeatsOk k (λ ne. h.seats k b) (λ e. seats);
        room_idx = λ k b. by_slot (λ u. u.idx ≡ k) k (λ ne. h.room_idx k b) (λ e. idx ∙ sym e);
        one_place = one;
        vacant = λ k n.
            by_slot (λ u. u.reserved_seats ≡ 0) k (λ ne. h.vacant k (old k ne n))
              (λ e. empty (λ z. n (ap (λ x. times x free) e ∙ z)));
        opened = opened;
      }
    where
      by_slot : (P : Room → Type 0) (k : ℕ) → (k ≢ i → P (m.slots k)) → (k ≡ i → P r) → P (t k)
      by_slot P k other same = elim (ℕ_discrete k i) [
        | yes e ↦ subst P (sym (ap t e ∙ at)) (same e)
        | no ne ↦ subst P (sym (off k ne)) (other ne)
      ]

  -- The same where no list changes: the room is in use.
  pub replace-BooksOk :
      (i : ℕ) (r : Room) (q : SessionPool Buf) {live' : ℕ → ℕ}
      → BooksOk live owned m p
      → i < m.cap
      → times i m.free_rooms ≡ 0
      → r.idx ≡ i
      → SeatsOk r
      → Held (λ j. live' j + others i j m) q r.members r.pending_join
      → Kept (λ j. others i j m) p q
      → BooksOk live' owned (put_room m i r) q
  replace-BooksOk i r q h lt busy idx seats held kept =
      change-BooksOk i r (update m.slots i r) m.free_rooms m.open_rooms m.rooms_per_worker m.mail q
        h lt (λ k ne. update_ne m.slots i r k ne) (update_self m.slots i r) idx seats held kept
        h.one_place (λ n. absurd (n busy)) (λ k ne n. n) h.opened
