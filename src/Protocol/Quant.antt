-- ===== src/Protocol/Quant.antt =====
-- `QuantPos` of server/src/Protocol.h: a coordinate in steps of 1/32 pixel.
use mo_belt.Prelude.{ℕ, if◌then◌else◌}
use mo_belt.Prelude.Int.{pos}
use mo_belt.Double.{Fpu}

module _ (f : Fpu) where
  unfoldable pub quant_pos : ℕ → ℕ
  quant_pos v =
      let w = if f.lt v (f.of_int (pos 0)) then f.of_int (pos 0) else v in
      f.to_u16 (f.add (f.mul w (f.literal 320 1)) (f.literal 5 1))
