-- ===== src/Double.antt =====
-- C++ `double`. Its arithmetic is the processor's and stays a parameter: a value is its 64-bit
-- pattern, and the operations are those that Sim.cpp, Room.h and Protocol.h use.
use mo_belt.Prelude.{ℕ, ◌-◌, ◌≤◌, ◌^◌, ◌≡◌, Bool, false, ltb}
use mo_belt.Prelude.Int.{ℤ, pos}

pub record Fpu : Type 0 where
  pub add : ℕ → ℕ → ℕ
  pub sub : ℕ → ℕ → ℕ
  pub mul : ℕ → ℕ → ℕ
  pub div : ℕ → ℕ → ℕ
  pub fabs : ℕ → ℕ
  -- `<` and `<=`; both are false when an argument is NaN.
  pub lt : ℕ → ℕ → Bool
  pub le : ℕ → ℕ → Bool
  -- Conversion from `int`.
  pub of_int : ℤ → ℕ
  -- The literal m / 10^k.
  pub literal : ℕ → ℕ → ℕ
  -- `static_cast<uint16_t>` of a value that fits.
  pub to_u16 : ℕ → ℕ

-- IEEE 754: no value is less than itself; whole numbers up to 2^53 are exact, so are their order
-- and their differences and products where these stay below 2^53.
pub record IsIeee (f : Fpu) : Type 0 where
  pub lt_irrefl : (a : ℕ) → f.lt a a ≡ false
  pub lt_exact :
      (m n : ℕ) → m ≤ 2 ^ 53 → n ≤ 2 ^ 53 → f.lt (f.of_int (pos m)) (f.of_int (pos n)) ≡ ltb m n
  pub sub_exact :
      (m n : ℕ)
      → m ≤ 2 ^ 53
      → n ≤ m
      → f.sub (f.of_int (pos m)) (f.of_int (pos n)) ≡ f.of_int (pos (m - n))
