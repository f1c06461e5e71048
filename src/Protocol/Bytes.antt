-- ===== src/Protocol/Bytes.antt =====
-- Packed little-endian fields as bytes, the form that `#pragma pack(1)` structures have on the
-- server's machine (server/src/Protocol.h), and how a field is read back.
use mo_belt.Prelude.{
  ℕ, zero, suc, ◌+◌, ◌-◌, ◌*◌, ◌/◌, ◌%◌, ◌^◌, ◌<◌, ◌≡◌, refl, List, [], ◌∷◌, ◌++◌, arith, ltb,
  if◌then◌else◌, length, length-append, skip,
}
use mo_belt.Prelude.Int.{ℤ, pos, negsuc, ◌≤ℤ◌}
use native.Mathlib.Nat.{pow-suc}

-- An unsigned field of `n` bytes.
abbrev pub le : ℕ → ℕ → List ℕ
le zero v = []
le (suc n) v = (v % 256) ∷ le n (v / 256)

-- The number that `n` bytes hold, and the bytes behind them.
abbrev pub read_le : ℕ → List ℕ → ℕ
read_le zero bs = 0
read_le (suc n) [] = 0
read_le (suc n) (b ∷ bs) = b + 256 * read_le n bs

-- An `int8_t` as a byte, two's complement.
abbrev pub byte_of_int8 : ℤ → ℕ
byte_of_int8 (pos n) = n % 256
byte_of_int8 (negsuc n) = 255 - n % 256

abbrev pub int8_of_byte : ℕ → ℤ
int8_of_byte b = if ltb b 128 then pos b else negsuc (255 - b)

-- An array member, elements `0` to `n - 1`.
abbrev pub le_array : ℕ → (ℕ → List ℕ) → List ℕ
le_array zero g = []
le_array (suc n) g = le_array n g ++ g n

pub length-le : (n v : ℕ) → length (le n v) ≡ n
length-le zero v = refl
length-le (suc n) v = omega (arith, length-le n (v / 256))

pub length-le_array :
    (n w : ℕ) (g : ℕ → List ℕ) → ((i : ℕ) → length (g i) ≡ w) → length (le_array n g) ≡ n * w
length-le_array zero w g h = omega arith
length-le_array (suc n) w g h =
    omega (arith, length-append (le_array n g) (g n), length-le_array n w g h, h n)

pub read_le-append : (n v : ℕ) (rest : List ℕ) → v < 256 ^ n → read_le n (le n v ++ rest) ≡ v
read_le-append zero v rest h = omega arith
read_le-append (suc n) v rest h = omega (arith, read_le-append n (v / 256) rest smaller)
  where
    smaller : v / 256 < 256 ^ n
    smaller = omega (arith, pow-suc 256 n)

pub skip-append : (n v : ℕ) (rest : List ℕ) → skip n (le n v ++ rest) ≡ rest
skip-append zero v rest = refl
skip-append (suc n) v rest = skip-append n (v / 256) rest

-- Every `int8_t` survives the byte.
pub int8_of_byte-byte_of_int8 :
    (z : ℤ) → negsuc 127 ≤ℤ z → z ≤ℤ pos 127 → int8_of_byte (byte_of_int8 z) ≡ z
int8_of_byte-byte_of_int8 (pos n) lo hi = ground arith
int8_of_byte-byte_of_int8 (negsuc n) lo hi = ground arith
