-- ===== src/Sim/Bounds.antt =====
-- `SimStep` of server/src/Sim.cpp: where the actors stand after a tick, and what it leaves alone.
use mo_belt.Prelude.{
  ℕ, ◌<◌, ◌≡◌, ◌∙◌, refl, ap, false, arith, lt→ltb, update, for_below, for_below_inv, for_below_map,
}
use mo_belt.Prelude.Int.{pos}
use mo_belt.Double.{Fpu, IsIeee}
use mo_belt.Room.{SimActor, SimWorld, room_members, snap_actors}
use mo_belt.Sim.{
  SimInput, stage_right, clampd, move_actor, move_player, part, separate_pair, separate,
  clamp_actor, clamp_all, sim_step,
}

module _ (f : Fpu) where
  -- Neither coordinate lies outside [20, 1580] × [0, 165]. This much holds of a NaN too.
  pub record InStage (a : SimActor) : Type 0 where
    pub left : f.lt a.x (f.of_int (pos 20)) ≡ false
    pub right : f.lt (stage_right f) a.x ≡ false
    pub back : f.lt a.y (f.of_int (pos 0)) ≡ false
    pub front : f.lt (f.of_int (pos 165)) a.y ≡ false

module _ (f : Fpu) (h : IsIeee f) where
  clampd_bounds :
      (v lo hi : ℕ)
      → f.lt hi lo ≡ false
      → (f.lt (clampd f v lo hi) lo ≡ false) × (f.lt hi (clampd f v lo hi) ≡ false)
  unfolding clampd
  clampd_bounds v lo hi le = ground (arith, h.lt_irrefl lo, h.lt_irrefl hi)

  stage_right_lem : stage_right f ≡ f.of_int (pos 1580)
  unfolding stage_right
  stage_right_lem = h.sub_exact 1600 20 (omega arith) (omega arith)

  clamp_actor-InStage : (a : SimActor) → InStage f (clamp_actor f a)
  unfolding clamp_actor
  clamp_actor-InStage a =
      let wide : f.lt (stage_right f) (f.of_int (pos 20)) ≡ false =
        ap (λ r. f.lt r (f.of_int (pos 20))) stage_right_lem
        ∙ h.lt_exact 1580 20 (omega arith) (omega arith) in
      let deep : f.lt (f.of_int (pos 165)) (f.of_int (pos 0)) ≡ false =
        h.lt_exact 165 0 (omega arith) (omega arith) in
      let (l, r) = clampd_bounds a.x (f.of_int (pos 20)) (stage_right f) wide in
      let (b, t) = clampd_bounds a.y (f.of_int (pos 0)) (f.of_int (pos 165)) deep in
      record { left = l; right = r; back = b; front = t }

  -- Whatever the inputs and the positions before, a tick leaves all 14 actors on the stage.
  pub sim_step-InStage :
      (w : SimWorld) (inputs : ℕ → SimInput) (i : ℕ)
      → i < snap_actors
      → InStage f ((sim_step f w inputs).actors i)
  unfolding sim_step clamp_all
  sim_step-InStage w inputs i lt =
      let before = separate f (for_below room_members (move_player f inputs) w.actors) in
      rw (for_below_map (clamp_actor f) snap_actors before i)
        (rw (lt→ltb i snap_actors lt) (clamp_actor-InStage (before i)))

-- Same presence, kind and life.
pub record SameActor (a b : SimActor) : Type 0 where
  pub present : b.present ≡ a.present
  pub kind : b.kind ≡ a.kind
  pub hp : b.hp ≡ a.hp

abbrev pub SameActors : (ℕ → SimActor) → (ℕ → SimActor) → Type 0
SameActors s t = (k : ℕ) → SameActor (s k) (t k)

module _ (f : Fpu) where
  move_player-same :
      (inputs : ℕ → SimInput) (s : ℕ → SimActor) (i : ℕ) (t : ℕ → SimActor)
      → SameActors s t
      → SameActors s (move_player f inputs i t)
  unfolding move_player move_actor
  move_player-same inputs s i t h k = record {
    present = ground (arith, (h k).present);
    kind = ground (arith, (h k).kind);
    hp = ground (arith, (h k).hp);
  }

  part-same : (a b : SimActor) → SameActor a (part f a b).0 × SameActor b (part f a b).1
  unfolding part
  part-same a b = (
    record { present = ground arith; kind = ground arith; hp = ground arith },
    record { present = ground arith; kind = ground arith; hp = ground arith },
  )

  separate_pair-same :
      (s : ℕ → SimActor) (i j : ℕ) (t : ℕ → SimActor)
      → SameActors s t
      → SameActors s (separate_pair f i j t)
  unfolding separate_pair
  separate_pair-same s i j t h k =
      let (p, q) = part-same (t i) (t j) in
      record {
        present = ground (arith, (h k).present, p.present, q.present);
        kind = ground (arith, (h k).kind, p.kind, q.kind);
        hp = ground (arith, (h k).hp, p.hp, q.hp);
      }

  clamp_actor-same :
      (s : ℕ → SimActor) (i : ℕ) (t : ℕ → SimActor)
      → SameActors s t
      → SameActors s (update t i (clamp_actor f (t i)))
  unfolding clamp_actor
  clamp_actor-same s i t h k = record {
    present = ground (arith, (h k).present);
    kind = ground (arith, (h k).kind);
    hp = ground (arith, (h k).hp);
  }

  -- A tick moves actors and nothing else: nobody appears or vanishes, changes kind or loses life,
  -- whatever the inputs.
  pub sim_step-same :
      (w : SimWorld) (inputs : ℕ → SimInput) (i : ℕ)
      → SameActor (w.actors i) ((sim_step f w inputs).actors i)
  unfolding sim_step separate clamp_all
  sim_step-same w inputs =
      let s = w.actors in
      for_below_inv (SameActors s) _ snap_actors _ (λ i t lt. clamp_actor-same s i t)
        (for_below_inv (SameActors s) _ snap_actors _
          (λ i t lt h.
            for_below_inv (SameActors s) _ snap_actors t (λ j u below. separate_pair-same s i j u)
              h)
          (for_below_inv (SameActors s) _ room_members s (λ i t lt. move_player-same inputs s i t)
            (λ k. record { present = refl; kind = refl; hp = refl })))
