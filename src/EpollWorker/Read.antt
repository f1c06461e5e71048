-- ===== src/EpollWorker/Read.antt =====
-- `ParseFrames`, `ReadSession` and `HandleSession` of EpollWorker.cpp: from bytes to messages.
use mo_belt.Prelude.{
  ℕ, zero, suc, ◌+◌, Bool, not, ◌&&◌, ◌||◌, if◌then◌else◌, ltb, leb, ◌==◌, List, [], ◌∷◌, length,
  take,
}
use mo_belt.Double.{Fpu}
use mo_belt.RingBuffer.{Ring}
use mo_belt.Protocol.{header_size, max_packet_size, header_bytes}
use mo_belt.EpollWorker.{
  World, ReadAnswer, bytes, closed, read_again, read_interrupted, read_failed, slot, put, count,
  with_kernel, disconnect, flush_send,
}
use mo_belt.EpollWorker.Dispatch.{dispatch}

-- The bits of an event: one of EPOLLERR, EPOLLHUP and EPOLLRDHUP; EPOLLIN; EPOLLOUT.
pub record Ready : Type 0 where
  pub broken : Bool
  pub readable : Bool
  pub writable : Bool

module _ {Buf : Type 0} (r : Ring Buf) where
  -- A message of `size` bytes out of the receive ring.
  unfoldable pub pull : ℕ → ℕ → World Buf → List ℕ × World Buf
  pull size i w =
      let s = slot w i in
      let (msg, q) = r.dequeue s.recv_q size in
      let v = put i (record s { recv_q = q }) w in
      (
        msg,
        if ltb (r.direct_read_size s.recv_q) size
            then count (λ c. record c { ring_split_read = c.ring_split_read + 1 }) v
            else v,
      )

  -- The bytes that a `read` brings into the ring.
  unfoldable pub received : List ℕ → ℕ → World Buf → World Buf
  received data_in i w =
      let s = slot w i in
      let got = take (r.direct_write_size s.recv_q) data_in in
      count (λ c. record c { recv_bytes = c.recv_bytes + length got })
        (put i (record s { recv_q = r.append_direct s.recv_q got }) w)

module _ (f : Fpu) {Buf : Type 0} (r : Ring Buf) where
  -- `ParseFrames`, `fuel` rounds of it at most: each takes a message of 4 bytes or more.
  unfoldable pub parse_on : ℕ → ℕ → World Buf → World Buf
  unfolding pull dispatch disconnect header_bytes
  parse_on zero i w = w
  parse_on (suc fuel) i w =
      let q = (slot w i).recv_q in
      let size = (header_bytes (r.peek q header_size)).0 in
      let wait = count (λ c. record c { frame_wait = c.frame_wait + 1 }) w in
      let (msg, v) = pull r size i w in
      let u = dispatch f r i msg v in
      let more = parse_on fuel i u in
      if ltb (r.data_size q) header_size
      then w
      else if ltb size header_size || ltb max_packet_size size
      then disconnect i w
      else if ltb (r.data_size q) size
      then wait
      else if (slot u i).dead
      then u
      else more

  -- `ParseFrames`: a round for each byte is more than enough.
  unfoldable pub parse_frames : ℕ → World Buf → World Buf
  unfolding parse_on
  parse_frames i w = parse_on (r.data_size (slot w i).recv_q + 1) i w

  -- `ReadSession`, by the answers to `read`: each round takes one.
  unfoldable pub read_on : List ReadAnswer → ℕ → World Buf → World Buf
  unfolding received parse_frames disconnect
  read_on [] i w = if r.direct_write_size (slot w i).recv_q == 0 then disconnect i w else w
  read_on (bytes b others ∷ rest) i w =
      let v = with_kernel (λ k. record k { reads = rest }) w in
      let u = parse_frames i (received r (b ∷ others) i v) in
      let more = read_on rest i u in
      if r.direct_write_size (slot w i).recv_q == 0
      then disconnect i w
      else if (slot u i).dead
      then u
      else more
  read_on (closed ∷ rest) i w =
      let v = with_kernel (λ k. record k { reads = rest }) w in
      disconnect i (if r.direct_write_size (slot w i).recv_q == 0 then w else v)
  read_on (read_again ∷ rest) i w =
      let v = with_kernel (λ k. record k { reads = rest }) w in
      if r.direct_write_size (slot w i).recv_q == 0 then disconnect i w else v
  read_on (read_interrupted ∷ rest) i w =
      let v = with_kernel (λ k. record k { reads = rest }) w in
      let more = read_on rest i v in
      if r.direct_write_size (slot w i).recv_q == 0 then disconnect i w else more
  read_on (read_failed ∷ rest) i w =
      let v = with_kernel (λ k. record k { reads = rest }) w in
      disconnect i (if r.direct_write_size (slot w i).recv_q == 0 then w else v)

  -- `ReadSession`.
  unfoldable pub read_session : ℕ → World Buf → World Buf
  unfolding read_on
  read_session i w = read_on w.kernel.reads i w

  -- What is left of an event once it is known that the session is meant and the socket is whole.
  unfoldable pub serve : Ready → ℕ → World Buf → World Buf
  unfolding read_session flush_send
  serve e i w =
      let u = if e.readable then read_session i w else w in
      if e.readable && (slot u i).dead then u else if e.writable then flush_send r i u else u

  -- `HandleSession`: an event of a session that is gone, or cut already, is dropped.
  unfoldable pub handle_session : (i gen : ℕ) → Ready → World Buf → World Buf
  unfolding serve disconnect
  handle_session i gen e w =
      let s = slot w i in
      if leb w.server.sessions.cap i
      then w
      else if not (s.gen == gen) || s.dead
      then w
      else if e.broken
      then disconnect i w
      else serve e i w
