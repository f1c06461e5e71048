-- ===== src/RoomManager/Queues/References.antt =====
-- ProcessRoomQueues of server/src/RoomManager.cpp and the references on sessions.
use mo_belt.Prelude.{
  ℕ, ◌<◌, ◌≡◌, refl, ◌∙◌, inl, inr, true, false, List, [], ◌∷◌, arith, update, sum_below-update,
  Bool-cases, Option-cases,
}
use mo_belt.Double.{Fpu}
use mo_belt.Room.{Member, RoomJoinEntry, RoomLeaveEntry, room_members, no_member}
use mo_belt.Room.Seats.{Seats}
use mo_belt.Room.Holds.{refers, Held, Kept, release-Held, release-Kept}
use mo_belt.Session.Pool.{SessionPool, release}
use mo_belt.RoomManager.Queues.{
  Work, is_member, find_member, is_stale, apply_join, apply_joins, apply_leave, apply_leaves,
}
use mo_belt.RoomManager.Queues.Seats.{seat_of_join, apply_join-Seats, find_member-some}

module _ {Buf : Type 0} {c : ℕ → ℕ} {p : SessionPool Buf} {m : ℕ → Member} where
  -- A skipped join gives back its reference.
  skip-Held :
      {e : RoomJoinEntry} {es : List RoomJoinEntry}
      → Held c p m (e ∷ es)
      → Held c (release p e.sess_idx) m es
  skip-Held {e} {es} h =
      release-Held p e.sess_idx c m es h.pool (λ j. ground (arith, h.balance j)) h.members_tagged
        h.joins_tagged.1

  -- A join that is taken hands its reference to the member.
  take-Held :
      {e : RoomJoinEntry} {es : List RoomJoinEntry} (k : ℕ) (v : Member)
      → k < room_members
      → (m k).used ≡ false
      → v.used ≡ true
      → v.sess_idx ≡ e.sess_idx
      → v.sess_gen ≡ e.sess_gen
      → Held c p m (e ∷ es)
      → Held c p (update m k v) es
  take-Held k v lt free used idx gen h = record {
    pool = h.pool;
    balance = λ j. ground (arith, h.balance j, sum_below-update (refers j) room_members m k v lt);
    members_tagged = λ i below u. ground (arith, h.members_tagged i below, h.joins_tagged.0);
    joins_tagged = h.joins_tagged.1;
  }

  -- A member that leaves gives back its reference.
  leave-Held :
      {es : List RoomJoinEntry} (k x : ℕ) (v : Member)
      → k < room_members
      → (m k).used ≡ true
      → (m k).sess_idx ≡ x
      → v.used ≡ false
      → Held c p m es
      → Held c (release p x) (update m k v) es
  leave-Held {es} k x v lt used idx gone h =
      release-Held p x c (update m k v) es h.pool
        (λ j. ground (arith, h.balance j, sum_below-update (refers j) room_members m k v lt))
        (λ i below u. ground (arith, h.members_tagged i below)) h.joins_tagged

  skip-Kept :
      {e : RoomJoinEntry} {es : List RoomJoinEntry}
      → Held c p m (e ∷ es)
      → Kept c p (release p e.sess_idx)
  skip-Kept {e} {es} h = release-Kept p e.sess_idx c m es (λ j. ground (arith, h.balance j))

  leave-Kept :
      {es : List RoomJoinEntry} (k x : ℕ) (v : Member)
      → k < room_members
      → (m k).used ≡ true
      → (m k).sess_idx ≡ x
      → v.used ≡ false
      → Held c p m es
      → Kept c p (release p x)
  leave-Kept {es} k x v lt used idx gone h =
      release-Kept p x c (update m k v) es
        (λ j. ground (arith, h.balance j, sum_below-update (refers j) room_members m k v lt))

module _ {Buf : Type 0} (c : ℕ → ℕ) where
  apply_join-Held :
      (f : Fpu) (e : RoomJoinEntry) (es : List RoomJoinEntry) (w : Work Buf)
      → Seats w.room (e ∷ es)
      → Held c w.sessions w.room.members (e ∷ es)
      → Held c (apply_join f e w).sessions (apply_join f e w).room.members es
  unfolding apply_join no_member
  apply_join-Held f e es w s h = elim (Bool-cases (is_stale w.sessions e)) [
    | inl stale ↦ rw (stale, apply_join) (skip-Held h)
    | inr fresh ↦
        rw (fresh, apply_join)
          (take-Held e.actor_id _ s.seated.0 (seat_of_join s).1 refl refl refl h)
  ]

  pub apply_joins-Held :
      (f : Fpu) (es : List RoomJoinEntry) (w : Work Buf)
      → Seats w.room es
      → Held c w.sessions w.room.members es
      → Held c (apply_joins f es w).sessions (apply_joins f es w).room.members []
  unfolding apply_joins
  apply_joins-Held f [] w s h = h
  apply_joins-Held f (e ∷ es) w s h =
      apply_joins-Held f es (apply_join f e w) (apply_join-Seats f e es w s)
        (apply_join-Held f e es w s h)

  apply_leave-Held :
      (e : RoomLeaveEntry) (w : Work Buf) (es : List RoomJoinEntry)
      → Held c w.sessions w.room.members es
      → Held c (apply_leave e w).sessions (apply_leave e w).room.members es
  unfolding apply_leave is_member
  apply_leave-Held e w es h = elim (Option-cases (find_member e w.room.members)) [
    | inl missing ↦ rw (missing, apply_leave) h
    | inr (i, found) ↦
        let (lt, hit) = find_member-some e w.room.members i found in
        rw (found, apply_leave) (leave-Held i e.sess_idx _ lt (ground arith) (ground arith) refl h)
  ]

  pub apply_leaves-Held :
      (ls : List RoomLeaveEntry) (w : Work Buf) (es : List RoomJoinEntry)
      → Held c w.sessions w.room.members es
      → Held c (apply_leaves ls w).sessions (apply_leaves ls w).room.members es
  unfolding apply_leaves
  apply_leaves-Held [] w es h = h
  apply_leaves-Held (e ∷ ls) w es h =
      apply_leaves-Held ls (apply_leave e w) es (apply_leave-Held e w es h)

  apply_join-Kept :
      (f : Fpu) (e : RoomJoinEntry) (es : List RoomJoinEntry) (w : Work Buf)
      → Held c w.sessions w.room.members (e ∷ es)
      → Kept c w.sessions (apply_join f e w).sessions
  unfolding apply_join
  apply_join-Kept f e es w h = elim (Bool-cases (is_stale w.sessions e)) [
    | inl stale ↦ rw (stale, apply_join) (skip-Kept h)
    | inr fresh ↦ rw (fresh, apply_join) (λ j pos. refl)
  ]

  pub apply_joins-Kept :
      (f : Fpu) (es : List RoomJoinEntry) (w : Work Buf)
      → Seats w.room es
      → Held c w.sessions w.room.members es
      → Kept c w.sessions (apply_joins f es w).sessions
  unfolding apply_joins
  apply_joins-Kept f [] w s h j pos = refl
  apply_joins-Kept f (e ∷ es) w s h j pos =
      apply_joins-Kept f es (apply_join f e w) (apply_join-Seats f e es w s)
        (apply_join-Held f e es w s h) j pos
      ∙ apply_join-Kept f e es w h j pos

  apply_leave-Kept :
      (e : RoomLeaveEntry) (w : Work Buf) (es : List RoomJoinEntry)
      → Held c w.sessions w.room.members es
      → Kept c w.sessions (apply_leave e w).sessions
  unfolding apply_leave is_member
  apply_leave-Kept e w es h = elim (Option-cases (find_member e w.room.members)) [
    | inl missing ↦ rw (missing, apply_leave) (λ j pos. refl)
    | inr (i, found) ↦
        let (lt, hit) = find_member-some e w.room.members i found in
        rw (found, apply_leave)
          (leave-Kept i e.sess_idx (record (w.room.members i) { used = false }) lt (ground arith)
            (ground arith) refl h)
  ]

  pub apply_leaves-Kept :
      (ls : List RoomLeaveEntry) (w : Work Buf) (es : List RoomJoinEntry)
      → Held c w.sessions w.room.members es
      → Kept c w.sessions (apply_leaves ls w).sessions
  unfolding apply_leaves
  apply_leaves-Kept [] w es h j pos = refl
  apply_leaves-Kept (e ∷ ls) w es h j pos =
      apply_leaves-Kept ls (apply_leave e w) es (apply_leave-Held e w es h) j pos
      ∙ apply_leave-Kept e w es h j pos
