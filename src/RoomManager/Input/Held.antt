-- ===== src/RoomManager/Input/Held.antt =====
-- What a player's character does from tick to tick (`RoomTick` of server/src/RoomManager.cpp), with the
-- inputs that are queued and after them.
use mo_belt.Prelude.{ℕ, zero, suc, ◌+◌, ◌||◌, if◌then◌else◌, leb, ◌==◌, List, [], ◌∷◌}
use mo_belt.Room.{Member, InputCmd}
use mo_belt.RoomManager.Input.{neutral, take_input}

-- `n` ticks in which no input comes in.
abbrev pub ticks : ℕ → Member → Member
ticks zero m = m
ticks (suc n) m = ticks n (take_input m)

-- The last of a list, or what came before it.
abbrev pub last_of : InputCmd → List InputCmd → InputCmd
last_of d [] = d
last_of d (c ∷ q) = last_of c q

-- The empty ticks that count when the queue has run out.
abbrev pub streak_then : ℕ → List InputCmd → ℕ
streak_then s [] = s
streak_then s (c ∷ q) = 0

-- The input that `n` empty ticks after `s` others leave: the same up to the tenth, and then none.
abbrev pub left_of : (s n : ℕ) → InputCmd → InputCmd
left_of s n c = if n == 0 || leb (s + n) 10 then c else neutral c
