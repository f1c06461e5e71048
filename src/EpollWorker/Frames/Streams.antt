-- ===== src/EpollWorker/Frames/Streams.antt =====
-- Streams of bytes, cut up in arriving, as `ReadSession` of server/src/EpollWorker.cpp meets them.
use mo_belt.Prelude.{
  ℕ, zero, suc, ◌+◌, ◌≤◌, ◌<◌, ◌≡◌, ◌∙◌, refl, sym, ap, arith, true, false, if_cases, Bool-cases,
  inl, inr, ltb, List, [], ◌∷◌, ◌++◌, append_assoc, length, length-append, take, skip, take-append,
  take-skip, skip-more, take-length, skip-length,
}
use mo_belt.Protocol.{header_bytes, header_size, max_packet_size}
use mo_belt.EpollWorker.Frames.{
  Cut, with_first, later, frame_size, bad_size, split, split-fuel, split_step, Starts, starts,
  shorter, cut_stream, join_all,
}

frame_size-append : (l m : List ℕ) → header_size ≤ length l → frame_size (l ++ m) ≡ frame_size l
unfolding frame_size header_bytes
frame_size-append (a ∷ b ∷ l) m h = refl
frame_size-append (a ∷ []) m h = absurd omega arith
frame_size-append [] m h = absurd omega arith

later-first :
    (msg : List ℕ) (c : Cut) (m : List ℕ) → later (with_first msg c) m ≡ with_first msg (later c m)
unfolding later
later-first msg c m = elim (Bool-cases c.broken) [ inl e ↦ rw e refl | inr e ↦ rw e refl ]

split_broken :
    (n : ℕ) (l : List ℕ)
    → header_size ≤ length l
    → bad_size (frame_size l) ≡ true
    → split (suc n) l ≡ record { messages = []; broken = true; left = l }
unfolding split
split_broken n l h bad =
    let a : ltb (length l) header_size ≡ false = ground (arith, h) in rw (a, bad) refl

-- A whole message in front is followed by what follows.
module _ (l m : List ℕ) (h : Starts l) where
  Starts-append : Starts (l ++ m)
  Starts-append =
      let same = frame_size-append l m h.header in
      let len = length-append l m in
      record {
        header = omega (arith, h.header, len);
        good = ap bad_size same ∙ h.good;
        whole = omega (arith, same, h.whole, len);
      }

  split_first :
      (n : ℕ)
      → split (suc n) (l ++ m)
        ≡ with_first (take (frame_size l) l) (split n (skip (frame_size l) l ++ m))
  split_first n =
      let same = frame_size-append l m h.header in
      split_step n (l ++ m) Starts-append
      ∙ ap (λ k. with_first (take k (l ++ m)) (split n (skip k (l ++ m)))) same
      ∙ ap (λ k. with_first k (split n (skip (frame_size l) (l ++ m))))
          (take-append (frame_size l) l m h.whole)
      ∙ ap (λ k. with_first (take (frame_size l) l) (split n k))
          (skip-more (frame_size l) l m h.whole)

split-append :
    (n f : ℕ) (l m : List ℕ)
    → length l < n
    → length (l ++ m) < f
    → split f (l ++ m) ≡ later (split n l) m
unfolding later cut_stream split
split-append zero f l m h g = absurd omega arith
split-append (suc n) zero l m h g = absurd omega arith
split-append (suc n) (suc f) l m h g =
    let size = frame_size l in
    let Right : Cut → Type 0 = λ c. split (suc f) (l ++ m) ≡ later c m in
    let waits : Right (record { messages = []; broken = false; left = l }) =
      split-fuel (suc f) (length (l ++ m) + 1) (l ++ m) g (omega arith) in
    if_cases Right (ltb (length l) header_size) _ _ (λ a. waits)
      (λ a.
        if_cases Right (bad_size size) _ _
          (λ b.
            let enough : header_size ≤ length l = ground (arith, a) in
            split_broken f (l ++ m) (omega (arith, enough, length-append l m))
              (ap bad_size (frame_size-append l m enough) ∙ b))
          (λ b.
            if_cases Right (ltb (length l) size) _ _ (λ c. waits)
              (λ c.
                let s = starts l a b c in
                let fewer = shorter l s in
                let more = length-append (skip size l) m in
                split_first l m s f
                ∙ ap (with_first (take size l)) (
                    split-append n f (skip size l) m (omega (arith, fewer))
                      (omega (arith, fewer, more, g, length-append l m)))
                ∙ sym (later-first (take size l) (split n (skip size l)) m))))

-- However the bytes of a stream are cut up in arriving, the messages are those of the whole stream:
-- those of a first part `l`, and then, unless a length was out of bounds, those of what it left
-- followed by `m`.
pub cut_stream-append : (l m : List ℕ) → cut_stream (l ++ m) ≡ later (cut_stream l) m
unfolding cut_stream
cut_stream-append l m =
    split-append (length l + 1) (length (l ++ m) + 1) l m (omega arith) (omega arith)

-- No byte is lost: the messages and what is left are the stream.
split-join : (n : ℕ) (l : List ℕ) → let c = split n l in join_all c.messages ++ c.left ≡ l
unfolding split
split-join zero l = refl
split-join (suc n) l =
    let size = frame_size l in
    let Whole : Cut → Type 0 = λ c. join_all c.messages ++ c.left ≡ l in
    if_cases Whole (ltb (length l) header_size) _ _ (λ a. refl)
      (λ a.
        if_cases Whole (bad_size size) _ _ (λ b. refl)
          (λ b.
            if_cases Whole (ltb (length l) size) _ _ (λ c. refl)
              (λ c.
                let d : Cut = split n (skip size l) in
                append_assoc (take size l) (join_all d.messages) d.left
                ∙ ap (λ k. take size l ++ k) (split-join n (skip size l))
                ∙ take-skip size l)))

-- A message as the protocol has them: its length field is its length, within bounds.
pub record IsFrame (msg : List ℕ) : Type 0 where
  pub header : header_size ≤ length msg
  pub bound : length msg ≤ max_packet_size
  pub size : frame_size msg ≡ length msg

IsFrame-Starts : (msg : List ℕ) → IsFrame msg → Starts msg
IsFrame-Starts msg h = record {
  header = h.header;
  good = ground (arith, h.header, h.bound, h.size);
  whole = omega (arith, h.size);
}

pub cut_stream-frame :
    (msg rest : List ℕ) → IsFrame msg → cut_stream (msg ++ rest) ≡ with_first msg (cut_stream rest)
unfolding cut_stream
cut_stream-frame msg rest h =
    let n = length (msg ++ rest) in
    split-fuel (n + 1) (suc n) (msg ++ rest) (omega arith) (omega arith)
    ∙ split_first msg rest (IsFrame-Starts msg h) n
    ∙ ap (λ k. with_first (take k msg) (split n (skip k msg ++ rest))) h.size
    ∙ ap (λ k. with_first k (split n (skip (length msg) msg ++ rest))) (take-length msg)
    ∙ ap (λ k. with_first msg (split n (k ++ rest))) (skip-length msg)
    ∙ ap (with_first msg) (
        split-fuel n (length rest + 1) rest (omega (arith, h.header, length-append msg rest))
          (omega arith))

split_short :
    (n : ℕ) (l : List ℕ)
    → length l < header_size
    → split (suc n) l ≡ record { messages = []; broken = false; left = l }
unfolding split
split_short n l h = let a : ltb (length l) header_size ≡ true = ground (arith, h) in rw a refl

unfoldable pub AllFrames : List (List ℕ) → Type 0
AllFrames [] = Unit
AllFrames (msg ∷ msgs) = IsFrame msg × AllFrames msgs

-- Messages sent back to back, and part of another (fewer bytes than its header), are cut as they were
-- sent.
pub cut_stream-join_all :
    (msgs : List (List ℕ)) (rest : List ℕ)
    → AllFrames msgs
    → length rest < header_size
    → cut_stream (join_all msgs ++ rest) ≡ record { messages = msgs; broken = false; left = rest }
unfolding AllFrames cut_stream
cut_stream-join_all [] rest h few =
    split-fuel (length rest + 1) (suc (length rest)) rest (omega arith) (omega arith)
    ∙ split_short (length rest) rest few
cut_stream-join_all (msg ∷ msgs) rest h few =
    ap cut_stream (append_assoc msg (join_all msgs) rest)
    ∙ cut_stream-frame msg (join_all msgs ++ rest) h.0
    ∙ ap (with_first msg) (cut_stream-join_all msgs rest h.1 few)
