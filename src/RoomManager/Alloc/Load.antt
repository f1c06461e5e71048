-- ===== src/RoomManager/Alloc/Load.antt =====
-- AllocRoomSlotLocked of server/src/RoomManager.cpp: the worker that it picks, and the slot that it
-- recycles.
use mo_belt.Prelude.{
  ℕ, zero, suc, ◌+◌, ◌-◌, ◌%◌, ◌^◌, ◌≤◌, ◌<◌, ◌≡◌, refl, ap, inl, inr, Bool, true, Option, none,
  if◌then◌else◌, some, List, [], ◌∷◌, arith, ltb, ◌==◌, update, update_ne, update_self, to_ℕ,
  for_below, length, Bool-cases,
}
use native.Mathlib.Decide.{ℕ_discrete}
use mo_belt.Double.{Fpu}
use mo_belt.Room.{Room, Member, RoomJoinEntry, no_member}
use mo_belt.Room.Seats.{Seats, SeatsOk, reserved-eq-members-add-waiting}
use mo_belt.Room.Holds.{Held, holds, waits}
use mo_belt.Session.Pool.{SessionPool}
use mo_belt.Session.Invariant.{times}
use mo_belt.RoomManager.{Server}
use mo_belt.RoomManager.Alloc.{least_loaded, recycle, alloc_from}
use mo_belt.RoomManager.Books.{
  AgreeOff, BooksOk, BooksOk-Held, change-BooksOk, max_game_workers, mailed-push,
}

-- One round of the scan keeps the first least loaded worker so far.
least_round :
    (load : ℕ → ℕ) (n best : ℕ)
    → best ≤ n
    → ((w : ℕ) → w ≤ n → load best ≤ load w)
    → let b = if ltb (load (n + 1)) (load best) then n + 1 else best in
      (b ≤ suc n) × ((w : ℕ) → w ≤ suc n → load b ≤ load w)
least_round load n best le h = elim (Bool-cases (ltb (load (n + 1)) (load best))) [
  | inl less ↦ rw less (
    omega arith,
    λ w b. elim (ℕ_discrete w (n + 1)) [
      | yes e ↦ omega (arith, ap load e)
      | no ne ↦ ground (arith, h w (omega arith))
    ],
  )
  | inr more ↦ rw more (
    omega arith,
    λ w b. elim (ℕ_discrete w (n + 1)) [
      | yes e ↦ ground (arith, ap load e)
      | no ne ↦ h w (omega arith)
    ],
  )
]

least_scan :
    (load : ℕ → ℕ) (n : ℕ)
    → let b = for_below n (λ k best. if ltb (load (k + 1)) (load best) then k + 1 else best) 0 in
      (b ≤ n) × ((w : ℕ) → w ≤ n → load b ≤ load w)
least_scan load zero = (omega arith, λ w le. omega (arith, ap load (zero_of w le)))
  where
    zero_of : (w : ℕ) → w ≤ 0 → w ≡ 0
    zero_of w le = omega arith
least_scan load (suc n) =
    let (le, h) = least_scan load n in
    least_round load n
      (for_below n (λ k best. if ltb (load (k + 1)) (load best) then k + 1 else best) 0) le h

-- Among at least one worker a new room goes to one of the least loaded.
pub least_loaded_lem :
    (load : ℕ → ℕ) (workers : ℕ)
    → 0 < workers
    → (least_loaded load workers < workers)
      × ((w : ℕ) → w < workers → load (least_loaded load workers) ≤ load w)
unfolding least_loaded
least_loaded_lem load workers pos =
    let (le, h) = least_scan load (workers - 1) in (omega arith, λ w lt. h w (omega arith))

-- No worker `w` has fewer rooms than the one that a new room goes to.
pub least_loaded-le :
    (load : ℕ → ℕ) (workers w : ℕ)
    → w < workers
    → (least_loaded load workers < workers) × (load (least_loaded load workers) ≤ load w)
least_loaded-le load workers w lt =
    let (small, least) = least_loaded_lem load workers (omega arith) in (small, least w lt)

-- A recycled slot holds nothing.
recycle-SeatsOk : (f : Fpu) (r : Room) (w : ℕ) → SeatsOk (recycle f r w)
unfolding recycle no_member
recycle-SeatsOk f r w = record {
  each = λ i lt. omega arith;
  seated = tt;
  reserved = refl;
  counted = refl;
}

pub holds-recycle :
    (f : Fpu) (r : Room) (w j : ℕ)
    → holds j (recycle f r w).members (recycle f r w).pending_join ≡ 0
unfolding recycle no_member
holds-recycle f r w j = refl

waits-le : (j : ℕ) (es : List RoomJoinEntry) → waits j es ≤ length es
waits-le j [] = omega arith
waits-le j (e ∷ es) = ground (arith, waits-le j es)

-- Nor does a room without reserved seats.
vacant-holds :
    {r : Room} {es : List RoomJoinEntry}
    → Seats r es
    → r.reserved_seats ≡ 0
    → (j : ℕ) → holds j r.members es ≡ 0
vacant-holds {r} {es} s z j =
    ground (arith, reserved-eq-members-add-waiting s, s.counted, waits-le j es)

recycle-Held :
    {Buf : Type 0} {c : ℕ → ℕ} {p : SessionPool Buf} {m : ℕ → Member} {es : List RoomJoinEntry}
    (f : Fpu) (r : Room) (w : ℕ)
    → Held c p m es
    → ((j : ℕ) → holds j m es ≡ 0)
    → Held c p (recycle f r w).members (recycle f r w).pending_join
unfolding recycle no_member
recycle-Held f r w h z = record {
  pool = h.pool;
  balance = λ j. omega (arith, h.balance j, z j);
  members_tagged = λ i lt used. cc;
  joins_tagged = tt;
}

-- What a successful allocation does: slot `r` leaves the pool for a mailbox, or for the caller.
pub record Took {Buf : Type 0} (live owned : ℕ → ℕ) (s t : Server Buf) (r : ℕ) (room : Room)
    : Type 0 where
  pub lt : r < s.rooms.cap
  pub fits : r < t.rooms.cap
  pub was_free : times r s.rooms.free_rooms ≡ 1
  pub busy : times r t.rooms.free_rooms ≡ 0
  pub shut : times r t.rooms.open_rooms ≡ 0
  pub off : AgreeOff r t.rooms.slots s.rooms.slots
  pub at : t.rooms.slots r ≡ room
  pub same_open : t.rooms.open_rooms ≡ s.rooms.open_rooms
  pub same_sessions : t.sessions ≡ s.sessions
  pub ok : BooksOk live owned t.rooms t.sessions

module _ {Buf : Type 0} (live owned : ℕ → ℕ) (f : Fpu) (best : ℕ) (use_mailbox : Bool)
    (s : Server Buf) where
  abbrev pub AllocOk : Option ℕ × Server Buf → Type 0
  AllocOk (none, t) = (t ≡ s) × (s.rooms.free_rooms ≡ [])
  AllocOk (some r, t) =
      Took live (λ k. owned k + (if use_mailbox then 0 else to_ℕ (r == k))) s t r
        (recycle f (s.rooms.slots r) (best % 2 ^ 8))

  pub alloc_from-AllocOk :
      (l : List ℕ)
      → s.rooms.free_rooms ≡ l
      → (use_mailbox ≡ true → best < max_game_workers)
      → BooksOk live owned s.rooms s.sessions
      → AllocOk (alloc_from f best use_mailbox s l)
  unfolding alloc_from
  alloc_from-AllocOk [] e b h = (refl, e)
  alloc_from-AllocOk (r ∷ rest) e b h =
      let m = s.rooms in
      let room = recycle f (m.slots r) (best % 2 ^ 8) in
      let free : (k : ℕ) → times k m.free_rooms ≡ to_ℕ (r == k) + times k rest =
        λ k. ap (times k) e in
      let lt : r < m.cap = ground (arith, h.one_place r, free r) in
      let gone : times r rest ≡ 0 = ground (arith, h.one_place r, free r) in
      let held = BooksOk-Held r lt h in
      record {
        lt = lt;
        fits = lt;
        was_free = ground (arith, gone, free r);
        busy = gone;
        shut = ground (arith, h.opened r, free r);
        off = λ k ne. update_ne m.slots r room k ne;
        at = update_self m.slots r room;
        same_open = refl;
        same_sessions = refl;
        ok =
            change-BooksOk r room (update m.slots r room) rest m.open_rooms _ _ s.sessions h lt
              (λ k ne. update_ne m.slots r room k ne) (update_self m.slots r room) (h.room_idx r lt)
              (recycle-SeatsOk f (m.slots r) (best % 2 ^ 8))
              (recycle-Held f (m.slots r) (best % 2 ^ 8) held
                (vacant-holds (h.seats r lt) (h.vacant r (λ z. ground (arith, free r)))))
              (λ j pos. refl)
              (λ k. elim (Bool-cases use_mailbox) [
                | inl up ↦
                    rw up
                      (ground (arith, h.one_place k, free k, mailed-push k r best m.mail (b up)))
                | inr down ↦ rw down (ground (arith, h.one_place k, free k))
              ])
              (λ n. refl) (λ k ne n z. n (ground (arith, free k, h.one_place k)))
              (λ k. ground (arith, h.opened k, free k));
      }
