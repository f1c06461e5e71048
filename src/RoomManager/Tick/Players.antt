-- ===== src/RoomManager/Tick/Players.antt =====
-- Who sits where, before and after a tick has routed and taken its inputs
-- (server/src/RoomManager.cpp).
use mo_belt.Prelude.{
  ℕ, ◌∙◌, refl, not, ◌||◌, leb, if_cases, List, [], ◌∷◌, arith, for_below_inv, update_related,
}
use mo_belt.Room.{Member, InputCmd, room_members}
use mo_belt.RoomManager.Input.{
  push_ring, is_for, Routing, route, route_all, take_input, consume, consume_all,
}
use mo_belt.RoomManager.Input.Fifo.{SamePlayer, push_ring-SamePlayer}

SamePlayer-refl : (m : Member) → SamePlayer m m
SamePlayer-refl m = record { used = refl; idx = refl; gen = refl }

SamePlayer-trans : {a b c : Member} → SamePlayer a b → SamePlayer b c → SamePlayer a c
SamePlayer-trans g h = record { used = h.used ∙ g.used; idx = h.idx ∙ g.idx; gen = h.gen ∙ g.gen }

-- The same players at every seat.
abbrev pub SamePlayers : (ℕ → Member) → (ℕ → Member) → Type 0
SamePlayers m n = (i : ℕ) → SamePlayer (m i) (n i)

take_input-SamePlayer : (m : Member) → SamePlayer m (take_input m)
unfolding take_input
take_input-SamePlayer m = record { used = ground arith; idx = ground arith; gen = ground arith }

route-SamePlayers : (c : InputCmd) (t : Routing) → SamePlayers t.members (route c t).members
unfolding route
route-SamePlayers c t i =
    let m = t.members c.actor_id in
    if_cases (λ (u : Routing). SamePlayer (t.members i) (u.members i))
      (leb room_members c.actor_id || not (is_for c m)) t _ (λ e. SamePlayer-refl (t.members i))
      (λ e.
        update_related SamePlayer t.members c.actor_id (push_ring c m) i SamePlayer-refl
          (push_ring-SamePlayer c m))

route_all-SamePlayers :
    (cs : List InputCmd) (t : Routing) → SamePlayers t.members (route_all cs t).members
unfolding route_all
route_all-SamePlayers [] t i = SamePlayer-refl (t.members i)
route_all-SamePlayers (c ∷ cs) t i =
    SamePlayer-trans (route-SamePlayers c t i) (route_all-SamePlayers cs (route c t) i)

consume-SamePlayers : (k : ℕ) (t : Routing) → SamePlayers t.members (consume k t).members
unfolding consume
consume-SamePlayers k t i =
    if_cases (λ (u : Routing). SamePlayer (t.members i) (u.members i)) (t.members k).used _ t
      (λ e.
        update_related SamePlayer t.members k (take_input (t.members k)) i SamePlayer-refl
          (take_input-SamePlayer (t.members k)))
      (λ e. SamePlayer-refl (t.members i))

pub inputs-SamePlayers :
    (cs : List InputCmd) (t : Routing)
    → SamePlayers t.members (consume_all (route_all cs t)).members
unfolding consume_all
inputs-SamePlayers cs t =
    for_below_inv (λ (u : Routing). SamePlayers t.members u.members) consume room_members
      (route_all cs t) (λ k u lt h i. SamePlayer-trans (h i) (consume-SamePlayers k u i))
      (route_all-SamePlayers cs t)
