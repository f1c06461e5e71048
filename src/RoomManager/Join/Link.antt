-- ===== src/RoomManager/Join/Link.antt =====
-- Join and OnSessionLeave of server/src/RoomManager.cpp and the socket side of the sessions.
use mo_belt.Prelude.{
  ℕ, ◌≡◌, ◌∙◌, refl, not, ◌||◌, leb, ◌==◌, if_cases, Option, none, some, List, [], ◌∷◌, Bool, true,
}
use mathlib.Core.Path.{subst}
use mo_belt.Double.{Fpu}
use mo_belt.Prelude.Int.{ℤ}
use mo_belt.Session.Pool.{add_ref}
use mo_belt.Session.Link.{
  SameLink, SameLink-refl, SameLink-trans, put_slot-SameLink, add_ref-SameLink,
}
use mo_belt.RoomManager.{Server}
use mo_belt.RoomManager.Alloc.{alloc_slot, alloc_from}
use mo_belt.RoomManager.Join.{on_session_leave, join, admit, find_seat, sit, found_room, seek_room}
use mo_belt.RoomManager.Input.{push_input}

module _ {Buf : Type 0} where
  pub on_session_leave-SameLink :
      (i : ℕ) (s : Server Buf) → SameLink s.sessions (on_session_leave i s).sessions
  unfolding on_session_leave
  on_session_leave-SameLink i s =
      if_cases (λ (t : Server Buf). SameLink s.sessions t.sessions)
        (not (s.sessions.slots i).in_room || leb s.rooms.cap (s.sessions.slots i).room_idx) s _
        (λ e. SameLink-refl s.sessions)
        (λ e. put_slot-SameLink s.sessions i _ refl refl refl refl refl)

  pub push_input-sessions :
      (i seq : ℕ) (mx my : ℤ) (attack skill : ℕ) (s : Server Buf)
      → (push_input i seq mx my attack skill s).sessions ≡ s.sessions
  unfolding push_input
  push_input-sessions i seq mx my attack skill s =
      if_cases (λ (t : Server Buf). t.sessions ≡ s.sessions)
        (not (s.sessions.slots i).in_room || leb s.rooms.cap (s.sessions.slots i).room_idx) s _
        (λ e. refl) (λ e. refl)

  admit-SameLink :
      (i : ℕ) (x : Option (ℕ × ℕ) × Server Buf) → SameLink x.1.sessions (admit i x).1.sessions
  unfolding admit
  admit-SameLink i (none, t) = SameLink-refl t.sessions
  admit-SameLink i (some (r, seat), t) =
      SameLink-trans (add_ref-SameLink t.sessions i)
        (put_slot-SameLink (add_ref t.sessions i) i _ refl refl refl refl refl)

module _ (f : Fpu) {Buf : Type 0} where
  pub alloc_from-sessions :
      (best : ℕ) (b : Bool) (s : Server Buf) (l : List ℕ)
      → (alloc_from f best b s l).1.sessions ≡ s.sessions
  unfolding alloc_from
  alloc_from-sessions best b s [] = refl
  alloc_from-sessions best b s (x ∷ l) = refl

  found_room-sessions : (x : Option ℕ × Server Buf) → (found_room x).1.sessions ≡ x.1.sessions
  unfolding found_room
  found_room-sessions (none, t) = refl
  found_room-sessions (some r, t) = refl

  sit-sessions :
      (s : Server Buf) (x : Option (ℕ × ℕ) × List ℕ) → (sit f s x).1.sessions ≡ s.sessions
  unfolding sit alloc_slot
  sit-sessions s (none, left) = found_room-sessions _ ∙ alloc_from-sessions _ true _ _
  sit-sessions s (some (r, seat), left) = refl

  pub join-SameLink : (i : ℕ) (s : Server Buf) → SameLink s.sessions (join f i s).1.sessions
  unfolding join find_seat
  join-SameLink i s =
      let x = sit f s (seek_room s.rooms.slots s.rooms.open_rooms) in
      if_cases (λ (t : Option (ℕ × ℕ) × Server Buf). SameLink s.sessions t.1.sessions)
        (s.rooms.worker_count == 0) (none, s) (admit i x) (λ e. SameLink-refl s.sessions)
        (λ e.
          subst (λ p. SameLink p (admit i x).1.sessions)
            (sit-sessions s (seek_room s.rooms.slots s.rooms.open_rooms)) (admit-SameLink i x))
