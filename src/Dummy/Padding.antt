-- ===== src/Dummy/Padding.antt =====
-- The packets of the load generator's echo mode (dummy/dummy_main.cpp): their sizes and their
-- padding.
use mo_belt.Prelude.{
  ℕ, zero, suc, ◌+◌, ◌-◌, ◌%◌, ◌^◌, ◌≤◌, ◌<◌, ◌≡◌, ◌≢◌, ◌*◌, ◌∙◌, refl, ap, arith, Bool, true,
  if_cases, if◌then◌else◌, ltb, leb, ◌==◌, List, [], ◌∷◌, ◌++◌, length, length-append, take,
  length-take,
}
use native.Mathlib.Nat.{mod-lt}
use mo_belt.Prelude.Int.{ℤ, pos, ◌≤ℤ◌}
use mo_belt.Protocol.Bytes.{le, length-le}
use mo_belt.Dummy.{
  Settings, echo_min, mix64, bit_xor, echo_size_for, fill_on, fill_pad, same_bytes, clamp_sizes,
}

-- The bytes of a round.
abbrev chunk_of : ℕ → ℕ
chunk_of n = if ltb n 8 then n else 8

chunk_bounds : (n : ℕ) → (chunk_of n ≤ 8) × (chunk_of n ≤ n) × (n ≢ 0 → chunk_of n ≢ 0)
chunk_bounds n = (ground arith, ground arith, λ ne e. ne (ground (arith, e)))

length-fill_on : (fuel n s : ℕ) → n ≤ fuel → length (fill_on fuel n s) ≡ n
unfolding fill_on
length-fill_on zero n s h = omega arith
length-fill_on (suc fuel) n s h =
    let t = mix64 s in
    let (small, less, some_left) = chunk_bounds n in
    let piece = take (chunk_of n) (le 8 t) in
    let rest = fill_on fuel (n - chunk_of n) t in
    let few : chunk_of n ≤ length (le 8 t) = omega (arith, small, length-le 8 t) in
    if_cases (λ l. length l ≡ n) (n == 0) [] (piece ++ rest) (λ e. ground (arith, e))
      (λ e.
        let ne : n ≢ 0 = ground (arith, e) in
        let ih : length rest ≡ n - chunk_of n =
          length-fill_on fuel (n - chunk_of n) t (omega (arith, h, some_left ne, less)) in
        length-append piece rest
        ∙ ap (λ k. k + length rest) (length-take (chunk_of n) (le 8 t) few)
        ∙ ap (λ k. chunk_of n + k) ih
        ∙ omega (arith, less))

-- `FillPad` fills the whole padding.
pub length-fill_pad : (n seed seq : ℕ) → length (fill_pad n seed seq) ≡ n
unfolding fill_pad
length-fill_pad n seed seq = length-fill_on n n (bit_xor 64 seed seq) (omega arith)

pub same_bytes_refl : (l : List ℕ) → same_bytes l l ≡ true
same_bytes_refl [] = refl
same_bytes_refl (b ∷ l) = ground (arith, same_bytes_refl l)

pub same_bytes_eq : (l m : List ℕ) → same_bytes l m ≡ true → l ≡ m
same_bytes_eq [] [] h = refl
same_bytes_eq [] (b ∷ m) h = absurd ground (arith, h)
same_bytes_eq (a ∷ l) [] h = absurd ground (arith, h)
same_bytes_eq (a ∷ l) (b ∷ m) h =
    let head : a ≡ b = ground (arith, h) in
    let tail : same_bytes l m ≡ true = ground (arith, h) in
    ap (λ x. x ∷ l) head ∙ ap (λ k. b ∷ k) (same_bytes_eq l m tail)

-- Bounds under which a packet fits the buffer.
pub record Fits (g : Settings) : Type 0 where
  pub low : echo_min ≤ g.pkt_min
  pub order : g.pkt_min ≤ g.pkt_max
  pub high : g.pkt_max ≤ 1024

-- `main` makes such bounds of any two ints, if the lower one is not above the largest message.
clamp_sizes-Fits :
    (low high : ℤ) (verify fail_fast : Bool)
    → low ≤ℤ pos 1024
    → Fits (clamp_sizes low high verify fail_fast)
unfolding clamp_sizes
clamp_sizes-Fits low high verify fail_fast h = record {
  low = ground arith;
  order = ground arith;
  high = ground (arith, h);
}

-- A draw between the bounds.
between :
    (g : Settings) (draw : ℕ)
    → Fits g
    → let size = (g.pkt_min + draw % (g.pkt_max - g.pkt_min + 1)) % 2 ^ 16 in
      (echo_min ≤ size) × (size ≤ 1024)
between g draw h =
    let pos : 0 < g.pkt_max - g.pkt_min + 1 = omega arith in
    let part = mod-lt draw pos in
    (omega (arith, part, h.low, h.order, h.high), omega (arith, part, h.low, h.order, h.high))

-- Every packet has a header's length at least and fits the buffer.
pub echo_size_for-Fits :
    (g : Settings) (seed seq : ℕ)
    → Fits g
    → (echo_min ≤ echo_size_for g seed seq) × (echo_size_for g seed seq ≤ 1024)
unfolding echo_size_for
echo_size_for-Fits g seed seq h =
    let draw = mix64 (bit_xor 64 seed (seq * 15111065706836454659 % 2 ^ 64)) in
    if_cases (λ size. (echo_min ≤ size) × (size ≤ 1024)) (leb g.pkt_max g.pkt_min)
      (g.pkt_min % 2 ^ 16) ((g.pkt_min + draw % (g.pkt_max - g.pkt_min + 1)) % 2 ^ 16)
      (λ e. (omega (arith, h.low, h.order, h.high), omega (arith, h.low, h.order, h.high)))
      (λ e. between g draw h)

-- With the bounds that `main` makes of any two ints, where the lower one is at most 1024, every packet has
-- a head and fits the buffer of 1024 bytes.
pub echo_size_for-clamp_sizes :
    (low high : ℤ) (verify fail_fast : Bool) (seed seq : ℕ)
    → low ≤ℤ pos 1024
    → let size = echo_size_for (clamp_sizes low high verify fail_fast) seed seq in
      (echo_min ≤ size) × (size ≤ 1024)
echo_size_for-clamp_sizes low high verify fail_fast seed seq h =
    echo_size_for-Fits (clamp_sizes low high verify fail_fast) seed seq
      (clamp_sizes-Fits low high verify fail_fast h)
