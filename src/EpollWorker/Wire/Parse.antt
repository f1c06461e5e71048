-- ===== src/EpollWorker/Wire/Parse.antt =====
-- `ParseFrames` of server/src/EpollWorker.cpp against the messages of the byte stream, from round
-- to round.
use mo_belt.Prelude.{
  ℕ, zero, suc, ◌+◌, ◌≤◌, ◌<◌, ◌≡◌, ◌∙◌, refl, sym, ap, arith, Bool, if_cases, if_map,
  if_else_congr, if◌then◌else◌, ltb, List, [], ◌∷◌, update_self, length, take, skip, length-take,
}
use mo_belt.Double.{Fpu}
use mo_belt.RingBuffer.{Ring, IsQueue}
use mo_belt.Protocol.{header_bytes, header_size}
use mo_belt.EpollWorker.{World, slot, put, count, disconnect}
use mo_belt.EpollWorker.Dispatch.{dispatch}
use mo_belt.EpollWorker.Read.{pull, parse_on}
use mo_belt.EpollWorker.Wire.Stream.{dispatch-Unparsed}
use mo_belt.EpollWorker.Frames.{
  Cut, frame_size, bad_size, split, split-fuel, starts, shorter, cut_stream,
}

module _ (f : Fpu) {Buf : Type 0} (r : Ring Buf) (i : ℕ) where
  -- What is to be done once no whole message is left.
  abbrev pub finish : Bool → List ℕ → World Buf → World Buf
  finish broken left w =
      if broken
      then disconnect i w
      else if ltb (length left) header_size
      then w
      else count (λ c. record c { frame_wait = c.frame_wait + 1 }) w

  -- Message by message, each out of the ring and dispatched, until one of them is the end of the
  -- session.
  unfoldable pub deliver_on : List (List ℕ) → Bool → List ℕ → World Buf → World Buf
  unfolding pull dispatch
  deliver_on [] broken left w = finish broken left w
  deliver_on (msg ∷ msgs) broken left w =
      let u = dispatch f r i msg (pull r (length msg) i w).1 in
      let more = deliver_on msgs broken left u in if (slot u i).dead then u else more

  abbrev pub deliver : Cut → World Buf → World Buf
  deliver c w = deliver_on c.messages c.broken c.left w

  pull-recv :
      (size : ℕ) (w : World Buf)
      → (slot (pull r size i w).1 i).recv_q ≡ (r.dequeue (slot w i).recv_q size).1
  unfolding pull
  pull-recv size w =
      let s = slot w i in
      let x = r.dequeue s.recv_q size in
      let v = put i (record s { recv_q = x.1 }) w in
      let at =
        ap (λ t. t.recv_q) (update_self w.server.sessions.slots i (record s { recv_q = x.1 })) in
      if_cases (λ (u : World Buf). (slot u i).recv_q ≡ x.1) (ltb (r.direct_read_size s.recv_q) size)
        (count (λ c. record c { ring_split_read = c.ring_split_read + 1 }) v) v (λ e. at) (λ e. at)

  module _ (law : IsQueue r) where
    abbrev bytes_of : World Buf → List ℕ
    bytes_of w = law.contents (slot w i).recv_q

    size_front : (l : List ℕ) → (header_bytes (take header_size l)).0 ≡ frame_size l
    unfolding header_bytes frame_size
    size_front [] = refl
    size_front (a ∷ []) = refl
    size_front (a ∷ b ∷ l) = refl

    -- One round, by the number of bytes in the ring and the length field.
    abbrev round : ℕ → World Buf → (d size : ℕ) → World Buf
    round fuel w d size =
        let x = pull r size i w in
        let u = dispatch f r i x.0 x.1 in
        if ltb d header_size
        then w
        else if bad_size size
        then disconnect i w
        else if ltb d size
        then count (λ c. record c { frame_wait = c.frame_wait + 1 }) w
        else if (slot u i).dead
        then u
        else parse_on f r fuel i u

    parse_on-round :
        (fuel : ℕ) (w : World Buf)
        → parse_on f r (suc fuel) i w ≡ round fuel w (length (bytes_of w)) (frame_size (bytes_of w))
    unfolding parse_on
    parse_on-round fuel w =
        let q = (slot w i).recv_q in
        ap (λ d. round fuel w d (header_bytes (r.peek q header_size)).0) (law.size_is q)
        ∙ ap (λ l. round fuel w (length (bytes_of w)) (header_bytes l).0)
            (law.peek_is q header_size)
        ∙ ap (round fuel w (length (bytes_of w))) (size_front (bytes_of w))

    pull-msg :
        (size : ℕ) (w : World Buf)
        → size ≤ length (bytes_of w)
        → (pull r size i w).0 ≡ take size (bytes_of w)
    unfolding pull
    pull-msg size w h = (law.dequeue_is (slot w i).recv_q size h).0

    -- A message leaves the ring, and its handling no other byte.
    dispatch-bytes :
        (msg : List ℕ) (size : ℕ) (w : World Buf)
        → size ≤ length (bytes_of w)
        → bytes_of (dispatch f r i msg (pull r size i w).1) ≡ skip size (bytes_of w)
    dispatch-bytes msg size w h =
        ap law.contents (dispatch-Unparsed r i _ f msg (pull r size i w).1 (pull-recv size w))
        ∙ (law.dequeue_is (slot w i).recv_q size h).1

    parse_on_lem :
        (fuel : ℕ) (w : World Buf)
        → length (bytes_of w) < fuel
        → parse_on f r fuel i w ≡ deliver (split fuel (bytes_of w)) w
    unfolding split deliver_on
    parse_on_lem zero w h = absurd omega arith
    parse_on_lem (suc fuel) w h =
        let l = bytes_of w in
        let size = frame_size l in
        let To : Cut → World Buf = λ c. deliver c w in
        parse_on-round fuel w
        ∙ if_map To (ltb (length l) header_size) _ _ _ _ (λ a. rw a refl)
            (λ a.
              if_map To (bad_size size) _ _ _ _ (λ b. refl)
                (λ b.
                  if_map To (ltb (length l) size) _ _ _ _ (λ c. let a' = a in rw a' refl)
                    (λ c.
                      let s = starts l a b c in
                      let msg = take size l in
                      let len = length-take size l s.whole in
                      let After : List ℕ → ℕ → World Buf =
                        λ m n. dispatch f r i m (pull r n i w).1 in
                      let Then : World Buf → World Buf =
                        λ u. if (slot u i).dead then u else parse_on f r fuel i u in
                      let u = After msg (length msg) in
                      let left : bytes_of u ≡ skip size l =
                        dispatch-bytes msg (length msg) w (omega (arith, len, s.whole))
                        ∙ ap (λ n. skip n l) len in
                      ap (λ m. Then (After m size)) (pull-msg size w s.whole)
                      ∙ ap (λ n. Then (After msg n)) (sym len)
                      ∙ if_else_congr (slot u i).dead u _ _ (λ alive.
                        parse_on_lem fuel u (omega (arith, ap length left, shorter l s))
                        ∙ ap (λ k. deliver (split fuel k) u) left))))

    -- With a round for each byte and one more, or any number above, `ParseFrames` hands over exactly
    -- the messages of the byte stream in the ring, in order, until one of them ends the session; it
    -- disconnects the session at a length field out of bounds and leaves the rest of the bytes.
    pub parse_on-deliver :
        (fuel : ℕ) (w : World Buf)
        → length (law.contents (slot w i).recv_q) < fuel
        → parse_on f r fuel i w ≡ deliver (cut_stream (law.contents (slot w i).recv_q)) w
    unfolding cut_stream
    parse_on-deliver fuel w h =
        parse_on_lem fuel w h
        ∙ ap (λ c. deliver c w)
            (split-fuel fuel (length (bytes_of w) + 1) (bytes_of w) h (omega arith))
