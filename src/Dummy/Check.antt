-- ===== src/Dummy/Check.antt =====
-- The check of the load generator's echo mode (dummy/dummy_main.cpp), on a packet that comes back
-- as it was sent.
use mo_belt.Prelude.{
  ℕ, ◌+◌, ◌-◌, ◌%◌, ◌^◌, ◌≤◌, ◌<◌, ◌≡◌, ◌∙◌, refl, sym, ap, arith, Bool, true, false, not, ◌&&◌,
  if_cases, if◌then◌else◌, ltb, ◌==◌, List, ◌++◌, length, length-append, take, skip, take-length,
  nothing_left, append-nil,
}
use mo_belt.Protocol.{echo, header, header_bytes}
use mo_belt.Protocol.Bytes.{le, read_le, read_le-append}
use mo_belt.Dummy.{
  Settings, Checker, echo_min, echo_size_for, fill_pad, echo_packet, same_bytes, note_arrival,
  note_damage, check_content, check_order, on_echo,
}
use mo_belt.Dummy.Padding.{Fits, echo_size_for-Fits, length-fill_pad, same_bytes_refl}

-- The head of a packet: header, number and time.
abbrev pub head : (size seq sent_ns : ℕ) → List ℕ
head size seq sent_ns = header echo size ++ le 8 seq ++ le 8 sent_ns

pub length-head : (size seq t : ℕ) → length (head size seq t) ≡ 20
unfolding header
length-head size seq t = refl

-- What a client reads from a head and a padding.
module _ (size seq t : ℕ) (pad : List ℕ) where
  pub head-size : size < 2 ^ 16 → (header_bytes (head size seq t ++ pad)).0 ≡ size
  unfolding header header_bytes
  head-size lt = omega arith

  head-seq : seq < 2 ^ 64 → read_le 8 (skip 4 (head size seq t ++ pad)) ≡ seq
  unfolding header
  head-seq lt = read_le-append 8 seq (le 8 t ++ pad) lt

  head-time : t < 2 ^ 64 → read_le 8 (skip 12 (head size seq t ++ pad)) ≡ t
  unfolding header
  head-time lt = read_le-append 8 t pad lt

  head-pad : skip echo_min (head size seq t ++ pad) ≡ pad
  unfolding header
  head-pad = refl

module _ (seed seq t size : ℕ) (h : echo_min ≤ size) where
  abbrev padding : List ℕ
  padding = fill_pad (size - echo_min) seed seq

  pub length-padded : length (head size seq t ++ padding) ≡ size
  length-padded =
      length-append (head size seq t) padding
      ∙ ap (λ k. k + length padding) (length-head size seq t)
      ∙ ap (λ k. 20 + k) (length-fill_pad (size - echo_min) seed seq)
      ∙ omega (arith, h)

  -- A head alone has an empty padding.
  padded :
      (if ltb echo_min size then head size seq t ++ padding else head size seq t)
      ≡ head size seq t ++ padding
  padded =
      if_cases (λ x. x ≡ head size seq t ++ padding) (ltb echo_min size)
        (head size seq t ++ padding) (head size seq t) (λ e. refl)
        (λ e.
          let none_left : size - echo_min ≡ 0 = ground (arith, e) in
          sym (
            ap (λ l. head size seq t ++ l)
              (nothing_left padding (length-fill_pad (size - echo_min) seed seq ∙ none_left))
            ∙ append-nil (head size seq t)))

  whole :
      take size (if ltb echo_min size then head size seq t ++ padding else head size seq t)
      ≡ head size seq t ++ padding
  whole =
      ap (take size) padded
      ∙ ap (λ n. take n (head size seq t ++ padding)) (sym length-padded)
      ∙ take-length (head size seq t ++ padding)

-- The whole packet is sent, padding included.
pub packet_parts :
    (g : Settings) (seed seq t : ℕ)
    → Fits g
    → let size = echo_size_for g seed seq in
      echo_packet g seed seq t ≡ head size seq t ++ fill_pad (size - echo_min) seed seq
unfolding echo_packet
packet_parts g seed seq t h =
    whole seed seq t (echo_size_for g seed seq) (echo_size_for-Fits g seed seq h).0

not_short : (size : ℕ) → echo_min ≤ size → ltb size echo_min ≡ false
not_short size h = ground (arith, h)

-- The parts of the check on what was read of a packet.
verdict : Settings → (size seq : ℕ) → (pad : List ℕ) → Checker → Checker
unfolding check_content check_order
verdict g size seq pad n = check_order g seq (check_content g size seq pad n)

same_number : (a : ℕ) → (a == a) ≡ true
same_number a = ground arith

and_false : (b : Bool) → (b && false) ≡ false
and_false true = refl
and_false false = refl

-- The number that is due.
in_order :
    (g : Settings) (n : Checker)
    → check_order g n.expect_recv n ≡ record n { expect_recv = (n.expect_recv + 1) % 2 ^ 64 }
unfolding check_order
in_order g n = let same = same_number n.expect_recv in rw same refl

verdict-sent :
    (g : Settings) (n : Checker)
    → let size = echo_size_for g n.seed n.expect_recv in
      verdict g size n.expect_recv (fill_pad (size - echo_min) n.seed n.expect_recv) n
      ≡ record n { expect_recv = (n.expect_recv + 1) % 2 ^ 64 }
unfolding verdict check_content check_order
verdict-sent g n =
    let size = echo_size_for g n.seed n.expect_recv in
    let pad = fill_pad (size - echo_min) n.seed n.expect_recv in
    let same_size : not (size == size) ≡ false = ap not (same_number size) in
    let same_pad : (ltb echo_min size && not (same_bytes pad pad)) ≡ false =
      ap (λ b. ltb echo_min size && not b) (same_bytes_refl pad) ∙ and_false (ltb echo_min size) in
    let Bad : Bool → Checker → Checker = λ b m. if b then note_damage g n else m in
    let clean : check_content g size n.expect_recv pad n ≡ n =
      ap (λ b. Bad b (Bad (ltb echo_min size && not (same_bytes pad pad)) n)) same_size
      ∙ ap (λ b. Bad b n) same_pad in
    ap (check_order g n.expect_recv) clean ∙ in_order g n

-- The case of ECHO, from what was read.
judge : Settings → (now size seq : ℕ) → (pad : List ℕ) → (t : ℕ) → Checker → Checker
unfolding verdict note_arrival note_damage
judge g now size seq pad t c =
    let noted = note_arrival now t c in
    if ltb size echo_min
    then record (note_damage g c) { killed = true }
    else if g.verify
    then verdict g size seq pad noted
    else noted

on_echo-judge :
    (g : Settings) (now : ℕ) (msg : List ℕ) (c : Checker)
    → on_echo g now msg c
      ≡ judge g now
          (header_bytes msg).0
          (read_le 8 (skip 4 msg))
          (skip echo_min msg)
          (read_le 8 (skip 12 msg))
          c
unfolding on_echo judge verdict
on_echo-judge g now msg c = refl

judge-sent :
    (g : Settings) (now t : ℕ) (c : Checker)
    → Fits g
    → g.verify ≡ true
    → let size = echo_size_for g c.seed c.expect_recv in
      judge g now size c.expect_recv (fill_pad (size - echo_min) c.seed c.expect_recv) t c
      ≡ record (note_arrival now t c) { expect_recv = (c.expect_recv + 1) % 2 ^ 64 }
unfolding judge note_arrival
judge-sent g now t c fits verify =
    let size = echo_size_for g c.seed c.expect_recv in
    let long : ltb size echo_min ≡ false =
      not_short size (echo_size_for-Fits g c.seed c.expect_recv fits).0 in
    rw (long, verify) (verdict-sent g (note_arrival now t c))

-- A packet that comes back as it was sent, with the number that is due, passes: nothing is counted but
-- its arrival, and the next number is due.
pub on_echo-echo_packet :
    (g : Settings) (now t : ℕ) (c : Checker)
    → Fits g
    → g.verify ≡ true
    → c.expect_recv < 2 ^ 64
    → t < 2 ^ 64
    → on_echo g now (echo_packet g c.seed c.expect_recv t) c
      ≡ record (note_arrival now t c) { expect_recv = (c.expect_recv + 1) % 2 ^ 64 }
on_echo-echo_packet g now t c fits verify due time =
    let seq = c.expect_recv in
    let size = echo_size_for g c.seed seq in
    let pad = fill_pad (size - echo_min) c.seed seq in
    let small : size < 2 ^ 16 = omega (arith, (echo_size_for-Fits g c.seed seq fits).1) in
    let Read : List ℕ → Checker = λ m.
      judge g now (header_bytes m).0 (read_le 8 (skip 4 m)) (skip echo_min m)
        (read_le 8 (skip 12 m)) c in
    let m = head size seq t ++ pad in
    on_echo-judge g now (echo_packet g c.seed seq t) c
    ∙ ap Read (packet_parts g c.seed seq t fits)
    ∙ ap (λ x. judge g now x (read_le 8 (skip 4 m)) (skip echo_min m) (read_le 8 (skip 12 m)) c)
        (head-size size seq t pad small)
    ∙ ap (λ x. judge g now size x (skip echo_min m) (read_le 8 (skip 12 m)) c)
        (head-seq size seq t pad due)
    ∙ ap (λ x. judge g now size seq x (read_le 8 (skip 12 m)) c) (head-pad size seq t pad)
    ∙ ap (λ x. judge g now size seq pad x c) (head-time size seq t pad time)
    ∙ judge-sent g now t c fits verify
