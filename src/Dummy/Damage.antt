-- ===== src/Dummy/Damage.antt =====
-- The check of the load generator's echo mode (dummy/dummy_main.cpp), on a packet of which no error
-- is counted.
use mo_belt.Prelude.{
  ℕ, ◌-◌, ◌<◌, ◌≡◌, ◌∙◌, refl, sym, ap, arith, Bool, true, false, not, ◌&&◌, if_cases, ltb, ◌==◌,
  List, skip,
}
use mo_belt.Protocol.{header_bytes}
use mo_belt.Protocol.Bytes.{read_le}
use mo_belt.Dummy.{
  Settings, Checker, echo_min, echo_size_for, fill_pad, same_bytes, note_arrival, note_damage,
  check_content, check_order, on_echo,
}
use mo_belt.Dummy.Padding.{same_bytes_eq}

both : (b c : Bool) → b ≡ true → (b && not c) ≡ false → c ≡ true
both true true h e = refl
both true false h e = absurd ground (arith, e)
both false c h e = absurd ground (arith, h)

module _ (g : Settings) (size seq : ℕ) (pad : List ℕ) (n : Checker) where
  abbrev expected : List ℕ
  expected = fill_pad (size - echo_min) n.seed seq

  -- The right content for the number.
  abbrev Content : Type 0
  Content = (echo_size_for g n.seed seq ≡ size) × (echo_min < size → pad ≡ expected)

  content_ok : (check_content g size seq pad n).pad_error ≡ n.pad_error → Content
  unfolding check_content note_damage
  content_ok =
      let P : Checker → Type 0 = λ d. d.pad_error ≡ n.pad_error → Content in
      if_cases P (not (echo_size_for g n.seed seq == size)) _ _ (λ e h. absurd omega (arith, h))
        (λ e.
          if_cases P (ltb echo_min size && not (same_bytes expected pad)) _ _
            (λ e' h. absurd omega (arith, h))
            (λ e' h. (
              same_number (echo_size_for g n.seed seq) e,
              λ long. sym (same_bytes_eq expected pad (clean long e')),
            )))
    where
      same_number : (a : ℕ) → not (a == size) ≡ false → a ≡ size
      same_number a e = ground (arith, e)

      clean :
          echo_min < size
          → (ltb echo_min size && not (same_bytes expected pad)) ≡ false
          → same_bytes expected pad ≡ true
      clean long = both (ltb echo_min size) (same_bytes expected pad) (ground (arith, long))

  content-keeps :
      let d = check_content g size seq pad n in
      (d.expect_recv ≡ n.expect_recv)
      × (d.order_error ≡ n.order_error)
      × (d.late_arrival ≡ n.late_arrival)
  unfolding check_content note_damage
  content-keeps =
      let P : Checker → Type 0 = λ d.
        (d.expect_recv ≡ n.expect_recv)
        × (d.order_error ≡ n.order_error)
        × (d.late_arrival ≡ n.late_arrival) in
      if_cases P (not (echo_size_for g n.seed seq == size)) _ _ (λ e. (refl, refl, refl))
        (λ e.
          if_cases P (ltb echo_min size && not (same_bytes expected pad)) _ _
            (λ e'. (refl, refl, refl)) (λ e'. (refl, refl, refl)))

  order-pad_error : (check_order g seq n).pad_error ≡ n.pad_error
  unfolding check_order
  order-pad_error =
      let P : Checker → Type 0 = λ d. d.pad_error ≡ n.pad_error in
      if_cases P (seq == n.expect_recv) _ _ (λ e. refl)
        (λ e. if_cases P (ltb seq n.expect_recv) _ _ (λ e'. refl) (λ e'. refl))

  order_ok :
      (check_order g seq n).order_error ≡ n.order_error
      → (check_order g seq n).late_arrival ≡ n.late_arrival
      → seq ≡ n.expect_recv
  unfolding check_order
  order_ok =
      let P : Checker → Type 0 = λ d.
        d.order_error ≡ n.order_error → d.late_arrival ≡ n.late_arrival → seq ≡ n.expect_recv in
      if_cases P (seq == n.expect_recv) _ _ (λ e o l. ground (arith, e))
        (λ e.
          if_cases P (ltb seq n.expect_recv) _ _ (λ e' o l. absurd omega (arith, l))
            (λ e' o l. absurd omega (arith, o)))

-- Where the check is on, a packet that counts neither as damaged nor as out of order nor as late has the
-- number that is due, and the size and the padding that belong to it.
pub on_echo-passed :
    (g : Settings) (now : ℕ) (msg : List ℕ) (c : Checker)
    → g.verify ≡ true
    → (on_echo g now msg c).pad_error ≡ c.pad_error
    → (on_echo g now msg c).order_error ≡ c.order_error
    → (on_echo g now msg c).late_arrival ≡ c.late_arrival
    → let size = (header_bytes msg).0 in
      (read_le 8 (skip 4 msg) ≡ c.expect_recv)
      × (echo_size_for g c.seed c.expect_recv ≡ size)
      × (echo_min < size → skip echo_min msg ≡ fill_pad (size - echo_min) c.seed c.expect_recv)
unfolding on_echo note_arrival note_damage
on_echo-passed g now msg c verify =
    let size = (header_bytes msg).0 in
    let seq = read_le 8 (skip 4 msg) in
    let pad = skip echo_min msg in
    let noted = note_arrival now (read_le 8 (skip 12 msg)) c in
    let k = check_content g size seq pad noted in
    let P : Checker → Type 0 = λ d.
      d.pad_error ≡ c.pad_error
      → d.order_error ≡ c.order_error
      → d.late_arrival ≡ c.late_arrival
      → (seq ≡ c.expect_recv)
        × (echo_size_for g c.seed c.expect_recv ≡ size)
        × (echo_min < size → pad ≡ fill_pad (size - echo_min) c.seed c.expect_recv) in
    if_cases P (ltb size echo_min) (record (note_damage g c) { killed = true }) _
      (λ e damage order late. absurd omega (arith, damage))
      (λ e.
        if_cases P g.verify (check_order g seq k) noted
          (λ v damage order late.
            let (sizes, pads) =
              content_ok g size seq pad noted (sym (order-pad_error g size seq pad k) ∙ damage) in
            let keeps = content-keeps g size seq pad noted in
            let num : seq ≡ c.expect_recv =
              order_ok g size seq pad k (order ∙ sym keeps.1) (late ∙ sym keeps.2) ∙ keeps.0 in
            (
              num,
              ap (echo_size_for g c.seed) (sym num) ∙ sizes,
              λ long. pads long ∙ ap (fill_pad (size - echo_min) c.seed) num,
            ))
          (λ v. absurd ground (arith, v, verify)))
