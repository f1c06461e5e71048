-- ===== src/GameWorker/Enough.antt =====
-- The rounds of the loop of `TickOnce` (server/src/GameWorker.cpp).
use mo_belt.Prelude.{
  ℕ, zero, suc, ◌≤◌, ◌≡◌, refl, ap, Bool, true, false, List, [], ◌∷◌, arith, length,
}
use mo_belt.Double.{Fpu}
use mo_belt.RingBuffer.{Ring}
use mo_belt.RoomManager.{Server}
use mo_belt.RoomManager.Queues.{process_room_queues}
use mo_belt.RoomManager.Tick.{room_tick}
use mo_belt.GameWorker.{back_first, moved_or, tick_rooms}

pub length-back_first : (l : List ℕ) → length (back_first l) ≡ length l
unfolding back_first
length-back_first [] = refl
length-back_first (x ∷ l) = moved (back_first l) (length-back_first l)
  where
    moved :
        (b : List ℕ)
        → length b ≡ length l
        → length (elim b as (λ _. List ℕ) [ [] ↦ x ∷ [] | b ∷ front ↦ b ∷ x ∷ front ])
          ≡ suc (length l)
    moved [] e = omega (arith, e)
    moved (b ∷ front) e = omega (arith, e)

module _ (f : Fpu) {Buf : Type 0} (r : Ring Buf) where
  -- As many rounds as the list has rooms are enough for the loop of a tick: any two bounds that large
  -- give the same server and the same list, whatever rooms die or move while it runs.
  pub tick_rooms-enough :
      (n m : ℕ) (l : List ℕ) (s : Server Buf)
      → length l ≤ n
      → length l ≤ m
      → tick_rooms f r n l s ≡ tick_rooms f r m l s
  unfolding tick_rooms
  tick_rooms-enough zero zero [] s le le' = refl
  tick_rooms-enough zero (suc m) [] s le le' = refl
  tick_rooms-enough (suc n) zero [] s le le' = refl
  tick_rooms-enough (suc n) (suc m) [] s le le' = refl
  tick_rooms-enough zero m (i ∷ rest) s le le' = absurd omega (arith, le)
  tick_rooms-enough (suc n) zero (i ∷ rest) s le le' = absurd omega (arith, le')
  tick_rooms-enough (suc n) (suc m) (i ∷ rest) s le le' =
      go (process_room_queues f i s).0
        (tick_rooms-enough n m (back_first rest) t (omega (arith, le, length-back_first rest))
          (omega (arith, le', length-back_first rest)))
        (let (moved, u) = room_tick f r i t in
          tick_rooms-enough n m rest u (omega (arith, le)) (omega (arith, le')))
    where
      t : Server Buf
      t = (process_room_queues f i s).1

      body : ℕ → Bool → List ℕ × Server Buf
      body fuel died = elim died [
        | true ↦ tick_rooms f r fuel (back_first rest) t
        | false ↦
            let (moved, u) = room_tick f r i t in
            let (more, v) = tick_rooms f r fuel rest u in (moved_or moved i ∷ more, v)
      ]

      go :
          (died : Bool)
          → tick_rooms f r n (back_first rest) t ≡ tick_rooms f r m (back_first rest) t
          → (let (moved, u) = room_tick f r i t in
              tick_rooms f r n rest u ≡ tick_rooms f r m rest u)
          → body n died ≡ body m died
      go true e e' = e
      go false e e' = ap (λ x. (moved_or (room_tick f r i t).0 i ∷ x.0, x.1)) e'
