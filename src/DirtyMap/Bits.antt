-- ===== src/DirtyMap/Bits.antt =====
-- The bits of a number, and what the operations of `DirtyMap` do to them.
use mo_belt.Prelude.{
  ℕ, zero, suc, ◌/◌, ◌%◌, ◌^◌, ◌<◌, ◌≡◌, ◌∙◌, refl, ap, arith, ◌==◌, Bool, false, ◌||◌,
}
use native.Mathlib.Nat.{pow-suc}
use mo_belt.DirtyMap.{bit_or, bit_and}

-- Bit `j`.
abbrev pub bit : ℕ → ℕ → Bool
bit zero v = v % 2 == 1
bit (suc j) v = bit j (v / 2)

pub bit-zero : (j : ℕ) → bit j 0 ≡ false
bit-zero zero = refl
bit-zero (suc j) = bit-zero j

-- `1 << b` has bit `b` alone.
bit-pow : (b j : ℕ) → bit j (2 ^ b) ≡ (b == j)
bit-pow zero zero = refl
bit-pow zero (suc j) = bit-zero j ∙ ground arith
bit-pow (suc b) zero = ground (arith, pow-suc 2 b)
bit-pow (suc b) (suc j) =
    let half : 2 ^ suc b / 2 ≡ 2 ^ b = omega (arith, pow-suc 2 b) in
    ap (bit j) half ∙ bit-pow b j ∙ ground arith

bit-bit_or : (n j a b : ℕ) → j < n → bit j (bit_or n a b) ≡ (bit j a || bit j b)
unfolding bit_or
bit-bit_or zero j a b lt = absurd omega arith
bit-bit_or (suc n) zero a b lt = ground arith
bit-bit_or (suc n) (suc j) a b lt =
    let half : bit_or (suc n) a b / 2 ≡ bit_or n (a / 2) (b / 2) = ground arith in
    ap (bit j) half ∙ bit-bit_or n j (a / 2) (b / 2) (omega arith)

pub bit_or-lt : (n a b : ℕ) → bit_or n a b < 2 ^ n
unfolding bit_or
bit_or-lt zero a b = omega arith
bit_or-lt (suc n) a b = ground (arith, pow-suc 2 n, bit_or-lt n (a / 2) (b / 2))

-- A number below `2 ^ n` is the and of itself.
pub bit_and_self : (n v : ℕ) → v < 2 ^ n → bit_and n v v ≡ v
unfolding bit_and
bit_and_self zero v lt = omega arith
bit_and_self (suc n) v lt =
    let small : v / 2 < 2 ^ n = omega (arith, pow-suc 2 n) in
    ground (arith, bit_and_self n (v / 2) small)

-- Setting one bit.
pub bit-mark : (n b j v : ℕ) → j < n → bit j (bit_or n v (2 ^ b)) ≡ (bit j v || b == j)
bit-mark n b j v lt = bit-bit_or n j v (2 ^ b) lt ∙ ap (λ t. bit j v || t) (bit-pow b j)
