-- ===== src/Sim.antt =====
-- server/src/Sim.cpp and the movement constants of server/src/Constants.h: one tick of a world.
pub mod Bounds
use mo_belt.Prelude.{
  ℕ, ◌+◌, Bool, true, false, not, ◌&&◌, ◌||◌, if◌then◌else◌, ltb, update, for_below,
}
use mo_belt.Prelude.Int.{ℤ, pos, negsuc, ltb_ℤ}
use mo_belt.Double.{Fpu}
use mo_belt.Room.{SimActor, SimWorld, room_members, snap_actors}

-- `SimInput`.
pub record SimInput : Type 0 where
  pub mx : ℤ
  pub my : ℤ

abbrev pub st_idle : ℕ
st_idle = 0

abbrev pub st_walk : ℕ
st_walk = 1

-- `m != 0` of an int.
abbrev pub nonzero : ℤ → Bool
nonzero (pos n) = ltb 0 n
nonzero (negsuc n) = true

module _ (f : Fpu) where
  abbrev whole : ℕ → ℕ
  whole n = f.of_int (pos n)

  -- `TICK_DT`, `WORLD_W - 20`, `EXIT_ZONE_X`.
  unfoldable pub tick_dt : ℕ
  tick_dt = f.div (f.literal 10 1) (f.literal 600 1)

  unfoldable pub stage_right : ℕ
  stage_right = f.sub (whole 1600) (whole 20)

  unfoldable pub exit_zone_x : ℕ
  exit_zone_x = f.sub (whole 1600) (whole 200)

  -- `std::clamp(v, lo, hi)`.
  unfoldable pub clampd : ℕ → ℕ → ℕ → ℕ
  clampd v lo hi = if f.lt v lo then lo else if f.lt hi v then hi else v

  -- The distance of one axis: `m * speed * TICK_DT * k`.
  unfoldable pub stride : ℤ → ℕ → ℕ → ℕ
  unfolding tick_dt
  stride m speed k = f.mul (f.mul (f.mul (f.of_int m) (whole speed)) tick_dt) k

  -- The movement of one player.
  unfoldable pub move_actor : SimInput → SimActor → SimActor
  unfolding stride
  move_actor i p =
      if nonzero i.mx || nonzero i.my
      then (let k =
            if nonzero i.mx && nonzero i.my then f.literal 7071067811865476 16 else whole 1 in
          record p {
            x = f.add p.x (stride i.mx 215 k);
            y = f.add p.y (stride i.my 132 k);
            face = if nonzero i.mx then if ltb_ℤ (pos 0) i.mx then pos 1 else negsuc 0 else p.face;
            state = st_walk;
          })
      else record p { state = st_idle }

  -- One round of the movement loop.
  unfoldable pub move_player : (ℕ → SimInput) → ℕ → (ℕ → SimActor) → ℕ → SimActor
  unfolding move_actor
  move_player inputs i actors =
      if (actors i).present then update actors i (move_actor (inputs i) (actors i)) else actors

  -- `(d >= 0 ? 1 : -1) * o * 0.5`.
  unfoldable pub push_by : ℕ → ℕ → ℕ
  push_by d o =
      f.mul (f.mul (f.of_int (if f.le (whole 0) d then pos 1 else negsuc 0)) o) (f.literal 5 1)

  -- Two overlapping bodies part along the axis of the smaller overlap.
  unfoldable pub part : SimActor → SimActor → SimActor × SimActor
  unfolding push_by
  part a b =
      let dx = f.sub b.x a.x in
      let dy = f.sub b.y a.y in
      let ox = f.sub (f.mul (whole 17) (whole 2)) (f.fabs dx) in
      let oy = f.sub (f.mul (whole 9) (whole 2)) (f.fabs dy) in
      if f.le ox (whole 0) || f.le oy (whole 0)
      then (a, b)
      else if f.lt ox oy
      then (let push = push_by dx ox in
          (record a { x = f.sub a.x push }, record b { x = f.add b.x push }))
      else (let push = push_by dy oy in
          (record a { y = f.sub a.y push }, record b { y = f.add b.y push }))

  -- One round of the inner loop, for `j` above `i`.
  unfoldable pub separate_pair : ℕ → ℕ → (ℕ → SimActor) → ℕ → SimActor
  unfolding part
  separate_pair i j actors =
      if (actors i).present && (actors j).present && ltb i j
      then (let (a, b) = part (actors i) (actors j) in update (update actors i a) j b)
      else actors

  -- `separate`: the inner loop runs over all `j` and skips those up to `i`.
  unfoldable pub separate : (ℕ → SimActor) → ℕ → SimActor
  unfolding separate_pair
  separate actors =
      for_below snap_actors (λ i. for_below snap_actors (λ j. separate_pair i j)) actors

  -- One round of the clamping loop, which takes empty slots too.
  unfoldable pub clamp_actor : SimActor → SimActor
  unfolding clampd stage_right
  clamp_actor a = record a {
    x = clampd a.x (whole 20) stage_right;
    y = clampd a.y (whole 0) (whole 165);
  }

  unfoldable pub clamp_all : (ℕ → SimActor) → ℕ → SimActor
  unfolding clamp_actor
  clamp_all = for_below snap_actors (λ i actors. update actors i (clamp_actor (actors i)))

  -- `SimStep`.
  unfoldable pub sim_step : SimWorld → (ℕ → SimInput) → SimWorld
  unfolding move_player separate clamp_all
  sim_step w inputs = record w {
    actors = clamp_all (separate (for_below room_members (move_player inputs) w.actors));
  }
