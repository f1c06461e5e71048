-- ===== src/DirtyMap.antt =====
-- `DirtyMap` of server/src/Session.h: which sessions have something new in their send ring, one bit
-- each, in 64-bit words.
pub mod Bits
pub mod Scan
pub mod Drain
use mo_belt.Prelude.{
  ℕ, zero, suc, ◌+◌, ◌-◌, ◌*◌, ◌/◌, ◌%◌, ◌^◌, if◌then◌else◌, ◌==◌, Bool, List, [], ◌∷◌, update,
  for_below,
}

-- `_words` and `_stride`.
pub record DirtyMap : Type 0 where
  pub words : ℕ → ℕ
  pub stride : ℕ

-- `a | b` and `a & b` on the low `n` bits.
unfoldable pub bit_or : ℕ → ℕ → ℕ → ℕ
bit_or zero a b = 0
bit_or (suc n) a b = (if a % 2 + b % 2 == 0 then 0 else 1) + 2 * bit_or n (a / 2) (b / 2)

unfoldable pub bit_and : ℕ → ℕ → ℕ → ℕ
bit_and zero a b = 0
bit_and (suc n) a b = (if a % 2 + b % 2 == 2 then 1 else 0) + 2 * bit_and n (a / 2) (b / 2)

-- `__builtin_ctzll` of `n` bits that are not all 0.
unfoldable pub ctz : ℕ → ℕ → ℕ
ctz zero v = 0
ctz (suc n) v = if v % 2 == 1 then 0 else suc (ctz n (v / 2))

-- `Init`.
unfoldable pub init : (max_sessions : ℕ) → DirtyMap
init max_sessions = record { words = λ k. 0; stride = (max_sessions + 63) / 64 }

-- `Mark`.
unfoldable pub mark_bit : (worker sess_idx : ℕ) → DirtyMap → DirtyMap
unfolding bit_or
mark_bit worker sess_idx m =
    let at = worker * m.stride + sess_idx / 64 in
    record m { words = update m.words at (bit_or 64 (m.words at) (2 ^ (sess_idx % 64))) }

module _ {ℓ} {S : Type ℓ} where
  -- The inner loop of `Drain` on `n` bits: `fuel` rounds at most, and one for each bit is enough.
  unfoldable pub scan : (n fuel : ℕ) → (ℕ → S → S) → ℕ → S → S
  unfolding ctz bit_and
  scan n zero fn v s = s
  scan n (suc fuel) fn v s =
      let more = scan n fuel fn (bit_and n v (v - 1)) (fn (ctz n v) s) in if v == 0 then s else more

  -- One word, exchanged for 0 and scanned.
  unfoldable pub drain_word : (worker : ℕ) → (ℕ → S → S) → ℕ → DirtyMap × S → DirtyMap × S
  unfolding scan
  drain_word worker fn w (m, s) =
      let at = worker * m.stride + w in
      (record m { words = update m.words at 0 }, scan 64 64 (λ b. fn (w * 64 + b)) (m.words at) s)

  -- `Drain`.
  unfoldable pub drain : (worker : ℕ) → (ℕ → S → S) → DirtyMap → S → DirtyMap × S
  unfolding drain_word
  drain worker fn m s = for_below m.stride (drain_word worker fn) (m, s)
