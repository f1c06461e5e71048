-- ===== src/EpollWorker/Wire/Arrival.antt =====
-- Which messages the bytes bring that a `read` of `ReadSession` (server/src/EpollWorker.cpp) hands over.
use mo_belt.Prelude.{
  ℕ, ◌<◌, ◌≡◌, ◌∙◌, ap, false, List, ◌++◌, length, take, length-le-take, update_self,
}
use mo_belt.Double.{Fpu}
use mo_belt.RingBuffer.{Ring, IsQueue}
use mo_belt.Protocol.{header_size}
use mo_belt.Session.{Session}
use mo_belt.EpollWorker.{World, slot}
use mo_belt.EpollWorker.Read.{received, parse_on}
use mo_belt.EpollWorker.Frames.{cut_stream, later, join_all}
use mo_belt.EpollWorker.Frames.Streams.{AllFrames, cut_stream-append, cut_stream-join_all}
use mo_belt.EpollWorker.Wire.Parse.{deliver, deliver_on, parse_on-deliver}

module _ (f : Fpu) {Buf : Type 0} (r : Ring Buf) (i : ℕ) (law : IsQueue r) where
  abbrev unparsed : World Buf → List ℕ
  unparsed w = law.contents (slot w i).recv_q

  -- A client that has sent whole messages back to back, and less than a header of another, has each of
  -- them dispatched as it was sent, until one of them ends the session; the rest stays in the ring.
  pub parse_on-join_all :
      (fuel : ℕ) (msgs : List (List ℕ)) (rest : List ℕ) (w : World Buf)
      → length (unparsed w) < fuel
      → unparsed w ≡ join_all msgs ++ rest
      → AllFrames msgs
      → length rest < header_size
      → parse_on f r fuel i w ≡ deliver_on f r i msgs false rest w
  parse_on-join_all fuel msgs rest w enough sent frames few =
      parse_on-deliver f r i law fuel w enough
      ∙ ap (λ l. deliver f r i (cut_stream l) w) sent
      ∙ ap (λ c. deliver f r i c w) (cut_stream-join_all msgs rest frames few)

  unparsed-received :
      (l : List ℕ) (w : World Buf)
      → unparsed (received r l i w) ≡ unparsed w ++ take (r.direct_write_size (slot w i).recv_q) l
  unfolding received
  unparsed-received l w =
      let s = slot w i in
      let got = take (r.direct_write_size s.recv_q) l in
      let t : Session Buf = record s { recv_q = r.append_direct s.recv_q got } in
      ap (λ (u : Session Buf). law.contents u.recv_q) (update_self w.server.sessions.slots i t)
      ∙ law.append_is s.recv_q got (length-le-take (r.direct_write_size s.recv_q) l)

  -- Bytes that arrive are parsed together with those that were waiting: the messages are those of the
  -- stream before, and unless a length in it was out of bounds, those of what it left followed by what
  -- has arrived. So it does not matter where the kernel cuts the stream.
  pub parse_on-received :
      (fuel : ℕ) (l : List ℕ) (w : World Buf)
      → length (unparsed (received r l i w)) < fuel
      → parse_on f r fuel i (received r l i w)
        ≡ deliver f r i
            (later (cut_stream (unparsed w)) (take (r.direct_write_size (slot w i).recv_q) l))
            (received r l i w)
  parse_on-received fuel l w enough =
      let v = received r l i w in
      parse_on-deliver f r i law fuel v enough
      ∙ ap (λ k. deliver f r i (cut_stream k) v) (unparsed-received l w)
      ∙ ap (λ c. deliver f r i c v)
          (cut_stream-append (unparsed w) (take (r.direct_write_size (slot w i).recv_q) l))
