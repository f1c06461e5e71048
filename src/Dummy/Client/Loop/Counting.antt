-- ===== src/Dummy/Client/Loop/Counting.antt =====
-- The count of active clients of the load generator (dummy/dummy_main.cpp) over a worker's run.
use mo_belt.Prelude.{
  ℕ, zero, suc, ◌<◌, ◌≤◌, ◌≡◌, refl, sym, arith, true, false, if_cases, ◌||◌, ◌&&◌, not, ◌==◌, leb,
  ltb, List, [], ◌∷◌, to_ℕ, update_cases, update_ne, ◌+◌, for_below, for_below_inv, sum_below,
  sum_below_none, ◌∙◌, ap,
}
use mathlib.Core.Path.{subst}
use native.Mathlib.Decide.{ℕ_discrete}
use mo_belt.Prelude.Int.{ℤ, pos, ◌+ℤ◌}
use mo_belt.EpollWorker.Read.{Ready}
use mo_belt.Dummy.Send.{is_dead, is_active}
use mo_belt.Dummy.Pending.{is_dead-kill}
use mo_belt.Dummy.Client.{Mode, Client, kill_client}
use mo_belt.Dummy.Client.Turn.{
  no_fd, on_event, Place, start_connect, tend, Team, at_client, ramp_one, hear, turn, disband,
}
use mo_belt.Dummy.Client.Counted.{Counted, uncounted, kill_client-Counted}
use mo_belt.Dummy.Client.Tending.{
  dead_inactive, on_event-Counted, start_connect-Counted, tend-Counted,
}
use mo_belt.Dummy.Client.Loop.{Answers, Round, start_team, run, loop}

-- Not started yet.
record New (c : Client) : Type 0 where
  unused : no_fd c ≡ true
  alive : is_dead c.sender.state ≡ false
  off : is_active c.sender.state ≡ false

-- All are counted right, and those whom the ramp has not come to are new.
record TeamOk (t : Team) : Type 0 where
  counted : (i : ℕ) → Counted (t.clients i)
  fresh : (i : ℕ) → t.next_to_connect ≤ i → New (t.clients i)

abbrev sum_below_ℤ : ℕ → (ℕ → ℤ) → ℤ
sum_below_ℤ zero f = pos 0
sum_below_ℤ (suc n) f = sum_below_ℤ n f +ℤ f n

sum_below_pos :
    (n : ℕ) (f : ℕ → ℤ) (g : ℕ → ℕ)
    → ((i : ℕ) → i < n → f i ≡ pos (g i))
    → sum_below_ℤ n f ≡ pos (sum_below n g)
unfolding ◌+ℤ◌
sum_below_pos zero f g h = refl
sum_below_pos (suc n) f g h =
    ap (λ a. a +ℤ f n) (sum_below_pos n f g (λ i lt. h i (omega arith)))
    ∙ ap (λ a. pos (sum_below n g) +ℤ a) (h n (omega arith))
    ∙ ground arith

-- What a worker's clients have added to `g_stats.active`.
abbrev pub counted_of : Team → ℤ
counted_of t = sum_below_ℤ t.count (λ i. (t.clients i).sender.active_count)

-- How many are.
abbrev pub active_of : Team → ℕ
active_of t = sum_below t.count (λ i. to_ℕ (is_active (t.clients i).sender.state))

module _ (m : Mode) where
  -- A change of a client that leaves new ones as they are.
  at_client-TeamOk :
      (i : ℕ) (g : Client → Client) (t : Team)
      → (Counted (t.clients i) → Counted (g (t.clients i)))
      → (New (t.clients i) → g (t.clients i) ≡ t.clients i)
      → TeamOk t
      → TeamOk (at_client i g t)
  at_client-TeamOk i g t keeps same h = record {
    counted = λ j.
        update_cases Counted t.clients i (g (t.clients i)) j (λ ne. h.counted j)
          (keeps (h.counted i));
    fresh = λ j le. elim (ℕ_discrete j i) [
      | yes e ↦
          let new = subst (λ k. New (t.clients k)) e (h.fresh j le) in
          update_cases New t.clients i (g (t.clients i)) j (λ ne. h.fresh j le)
            (subst New (sym (same new)) new)
      | no ne ↦ subst New (sym (update_ne t.clients i (g (t.clients i)) j ne)) (h.fresh j le)
    ];
  }

  on_event_new : (err : ℕ) (e : Ready) (c : Client) → New c → on_event m err e c ≡ c
  unfolding on_event
  on_event_new err e c n =
      if_cases (λ d. d ≡ c) (is_dead c.sender.state || no_fd c) c _ (λ z. refl)
        (λ z. absurd ground (arith, z, n.unused))

  tend_new : (period : ℕ) (p : Place) (c : Client) → New c → tend m period p c ≡ c
  unfolding tend
  tend_new period p c n =
      if_cases (λ d. d ≡ c)
        (is_dead c.sender.state
          && (not (c.sender.reconnect_at == 0) && leb c.sender.reconnect_at m.churn.now))
        _ _ (λ z. absurd ground (arith, z, n.alive))
        (λ z.
          if_cases (λ d. d ≡ c) (not (is_active c.sender.state)) c _ (λ y. refl)
            (λ y. absurd ground (arith, y, n.off)))

  ramp_one-TeamOk : (places : ℕ → Place) (t : Team) → TeamOk t → TeamOk (ramp_one m places t)
  unfolding ramp_one
  ramp_one-TeamOk places t h =
      let i = t.next_to_connect in
      let v = start_connect m (places i) (t.clients i) in
      let u = at_client i (start_connect m (places i)) t in
      if_cases TeamOk (ltb i t.count) (record u { next_to_connect = i + 1 }) t
        (λ e. record {
          counted = λ j.
              update_cases Counted t.clients i v j (λ ne. h.counted j)
                (start_connect-Counted m (places i) (t.clients i) (h.fresh i (omega arith)).off
                  (h.counted i));
          fresh = λ j le.
              subst New (sym (update_ne t.clients i v j (λ e. omega arith)))
                (h.fresh j (omega arith));
        })
        (λ e. h)

  hear-TeamOk : (events : List (ℕ × ℕ × Ready)) (t : Team) → TeamOk t → TeamOk (hear m events t)
  unfolding hear
  hear-TeamOk [] t h = h
  hear-TeamOk ((i, err, e) ∷ events) t h = hear-TeamOk events (at_client i (on_event m err e) t) (
      at_client-TeamOk i (on_event m err e) t (on_event-Counted m err e (t.clients i))
        (on_event_new err e (t.clients i)) h)

  turn-TeamOk :
      (period : ℕ) (ramp_places places : ℕ → Place) (events : List (ℕ × ℕ × Ready)) (t : Team)
      → TeamOk t
      → TeamOk (turn m period ramp_places places events t)
  unfolding turn
  turn-TeamOk period ramp_places places events t h =
      let ramped = for_below t.ramp (λ k. ramp_one m ramp_places) t in
      let begun : TeamOk ramped =
        for_below_inv TeamOk (λ k. ramp_one m ramp_places) t.ramp t
          (λ k u lt. ramp_one-TeamOk ramp_places u) h in
      for_below_inv TeamOk (λ i. at_client i (tend m period (places i))) t.count
        (hear m events ramped)
        (λ i u lt.
          at_client-TeamOk i (tend m period (places i)) u
            (tend-Counted m period (places i) (u.clients i))
            (tend_new period (places i) (u.clients i)))
        (hear-TeamOk events ramped begun)

  -- The end of the loop kills everybody.
  disband_on :
      (n : ℕ) (t : Team)
      → ((i : ℕ) → Counted (t.clients i))
      → let u = for_below n (λ i. at_client i (kill_client m false)) t in
        (u.count ≡ t.count)
        × ((i : ℕ) → Counted (u.clients i))
        × ((i : ℕ) → i < n → is_dead (u.clients i).sender.state ≡ true)
  disband_on zero t h = (refl, h, λ i lt. elim lt [ ])
  disband_on (suc n) t h =
      let u = for_below n (λ i. at_client i (kill_client m false)) t in
      let (size, ok, gone) = disband_on n t h in
      let v = kill_client m false (u.clients n) in
      (
        size,
        λ i.
            update_cases Counted u.clients n v i (λ ne. ok i)
              (kill_client-Counted m false (u.clients n) (ok n)),
        λ i lt.
            update_cases (λ (c : Client). is_dead c.sender.state ≡ true) u.clients n v i
              (λ ne. gone i (omega (arith, ne, lt)))
              (is_dead-kill m.churn false (u.clients n).sender),
      )

  disband-counted_of : (t : Team) → TeamOk t → counted_of (disband m t) ≡ pos 0
  unfolding disband
  disband-counted_of t h =
      let u = for_below t.count (λ i. at_client i (kill_client m false)) t in
      let (size, ok, gone) = disband_on t.count t h.counted in
      sum_below_pos u.count (λ i. (u.clients i).sender.active_count) (λ i. 0)
        (λ i lt.
          let c = u.clients i in
          uncounted c.sender.state c.sender.active_count
            (dead_inactive c.sender.state (gone i (omega (arith, size, lt)))) (ok i))
      ∙ ap pos (sum_below_none u.count (λ i. 0) (λ i lt. refl))

run-TeamOk : (rounds : List Round) (t : Team) → TeamOk t → TeamOk (run rounds t)
unfolding run
run-TeamOk [] t h = h
run-TeamOk (r ∷ rounds) t h =
    run-TeamOk rounds (turn r.mode r.period r.ramp_places r.places r.events t)
      (turn-TeamOk r.mode r.period r.ramp_places r.places r.events t h)

start_team-TeamOk :
    (id ramp count : ℕ) (answers : ℕ → Answers) → TeamOk (start_team id ramp count answers)
unfolding start_team
start_team-TeamOk id ramp count answers = record {
  counted = λ i. refl;
  fresh = λ i le. record { unused = refl; alive = refl; off = refl };
}

-- After any rounds of a worker that has been started, what its clients have added to the signed counter of
-- active clients is the number of those that are active; and after the end of its loop it is 0.
pub loop-counted_of :
    (id ramp count : ℕ) (answers : ℕ → Answers) (rounds : List Round) (last : Mode)
    → let t = start_team id ramp count answers in
      (counted_of (run rounds t) ≡ pos (active_of (run rounds t)))
      × (counted_of (loop last rounds t) ≡ pos 0)
unfolding loop
loop-counted_of id ramp count answers rounds last =
    let u = run rounds (start_team id ramp count answers) in
    let h =
      run-TeamOk rounds (start_team id ramp count answers)
        (start_team-TeamOk id ramp count answers) in
    (
      sum_below_pos u.count (λ i. (u.clients i).sender.active_count)
          (λ i. to_ℕ (is_active (u.clients i).sender.state)) (λ i lt. h.counted i),
      disband-counted_of last u h,
    )
