-- ===== src/EpollWorker/Frames.antt =====
-- What a stream of bytes means to `ParseFrames` of server/src/EpollWorker.cpp, apart from any ring,
-- socket or session: its messages, in order, and how it ends.
pub mod Streams
use mo_belt.Prelude.{
  ℕ, zero, suc, ◌+◌, ◌≤◌, ◌<◌, ◌≡◌, ◌∙◌, refl, sym, ap, arith, Bool, true, false, ◌||◌,
  if_else_congr, if_cases, if◌then◌else◌, Bool-cases, inl, inr, ltb, List, [], ◌∷◌, ◌++◌, length,
  length-append, take, skip, length-skip,
}
use mo_belt.Protocol.{header_bytes, header_size, max_packet_size}

-- The messages at the front, whether a length field is then out of bounds, and the bytes left.
pub record Cut : Type 0 where
  pub messages : List (List ℕ)
  pub broken : Bool
  pub left : List ℕ

abbrev pub with_first : List ℕ → Cut → Cut
with_first msg c = record c { messages = msg ∷ c.messages }

-- The length field at the front.
unfoldable pub frame_size : List ℕ → ℕ
unfolding header_bytes
frame_size l = (header_bytes l).0

-- A length that no message has.
abbrev pub bad_size : ℕ → Bool
bad_size size = ltb size header_size || ltb max_packet_size size

unfoldable pub split : ℕ → List ℕ → Cut
unfolding frame_size
split zero l = record { messages = []; broken = false; left = l }
split (suc fuel) l =
    let size = frame_size l in
    let more = with_first (take size l) (split fuel (skip size l)) in
    if ltb (length l) header_size
    then record { messages = []; broken = false; left = l }
    else if bad_size size
    then record { messages = []; broken = true; left = l }
    else if ltb (length l) size
    then record { messages = []; broken = false; left = l }
    else more

-- A byte stream that starts with a whole message of a length in bounds.
pub record Starts (l : List ℕ) : Type 0 where
  pub header : header_size ≤ length l
  pub good : bad_size (frame_size l) ≡ false
  pub whole : frame_size l ≤ length l

pub shorter : (l : List ℕ) → Starts l → length (skip (frame_size l) l) + header_size ≤ length l
shorter l h =
    let big : header_size ≤ frame_size l = ground (arith, h.good) in
    omega (arith, length-skip (frame_size l) l h.whole, big)

pub starts :
    (l : List ℕ)
    → ltb (length l) header_size ≡ false
    → bad_size (frame_size l) ≡ false
    → ltb (length l) (frame_size l) ≡ false
    → Starts l
starts l a b c = record { header = ground (arith, a); good = b; whole = ground (arith, c) }

pub split_step :
    (n : ℕ) (l : List ℕ)
    → Starts l
    → split (suc n) l ≡ with_first (take (frame_size l) l) (split n (skip (frame_size l) l))
unfolding split
split_step n l h =
    let a : ltb (length l) header_size ≡ false = ground (arith, h.header) in
    let c : ltb (length l) (frame_size l) ≡ false = ground (arith, h.whole) in
    rw (a, h.good, c) refl

-- As much fuel as there are bytes, and one more, is enough: the result does not depend on it.
pub split-fuel : (n m : ℕ) (l : List ℕ) → length l < n → length l < m → split n l ≡ split m l
unfolding split
split-fuel zero m l h g = absurd omega arith
split-fuel (suc n) zero l h g = absurd omega arith
split-fuel (suc n) (suc m) l h g =
    let size = frame_size l in
    if_else_congr _ _ _ _ (λ a. if_else_congr _ _ _ _ (λ b. if_else_congr _ _ _ _ (λ c.
      let fewer = shorter l (starts l a b c) in
      ap (with_first (take size l))
        (split-fuel n m (skip size l) (omega (arith, fewer)) (omega (arith, fewer))))))

-- `split` with a round for each byte, and one more.
unfoldable pub cut_stream : List ℕ → Cut
unfolding split
cut_stream l = split (length l + 1) l

-- The messages of a list, one behind the other.
abbrev pub join_all : List (List ℕ) → List ℕ
join_all [] = []
join_all (msg ∷ msgs) = msg ++ join_all msgs

-- What comes after some messages, and bytes that come after a stream was cut.
abbrev pub with_messages : List (List ℕ) → Cut → Cut
with_messages msgs c = record c { messages = msgs ++ c.messages }

unfoldable pub later : Cut → List ℕ → Cut
unfolding cut_stream
later c bytes =
    if c.broken
    then record c { left = c.left ++ bytes }
    else with_messages c.messages (cut_stream (c.left ++ bytes))
