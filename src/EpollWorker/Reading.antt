-- ===== src/EpollWorker/Reading.antt =====
-- `ParseFrames`, `ReadSession` and `HandleSession` of server/src/EpollWorker.cpp and what an epoll
-- worker keeps.
use mo_belt.Prelude.{
  ℕ, zero, suc, ◌+◌, ◌≡◌, ◌∙◌, refl, false, not, ◌&&◌, ◌||◌, if_cases, if◌then◌else◌, ltb, leb,
  ◌==◌, List, [], ◌∷◌, arith,
}
use mo_belt.Double.{Fpu}
use mo_belt.RingBuffer.{Ring}
use mo_belt.Protocol.{header_bytes, header_size, max_packet_size}
use mo_belt.EpollWorker.{
  World, ReadAnswer, bytes, closed, read_again, read_interrupted, read_failed, slot, put, count,
  with_kernel, disconnect, flush_send,
}
use mo_belt.EpollWorker.Dispatch.{dispatch}
use mo_belt.EpollWorker.Read.{
  pull, received, parse_on, parse_frames, read_on, read_session, Ready, serve, handle_session,
}
use mo_belt.EpollWorker.NetOk.{NetOk, Quiet, Quiet-trans, put-Quiet, Quiet-NetOk}
use mo_belt.EpollWorker.Disconnecting.{disconnect-NetOk}
use mo_belt.EpollWorker.Sending.{aside, flush_send-NetOk}
use mo_belt.EpollWorker.Serving.{dispatch-NetOk}

module _ {Buf : Type 0} (r : Ring Buf) where
  pub pull-Quiet : (size i : ℕ) (w : World Buf) → Quiet w (pull r size i w).1
  unfolding pull
  pull-Quiet size i w =
      let s = slot w i in
      let s' = record s { recv_q = (r.dequeue s.recv_q size).1 } in
      let q = put-Quiet i s' w refl refl refl refl refl refl in
      if_cases (Quiet w) (ltb (r.direct_read_size s.recv_q) size) _ (put i s' w)
        (λ e. record {
          mine = q.mine;
          rooms = q.rooms;
          noted = q.noted;
          dead = q.dead;
          id = q.id;
          owner = q.owner;
          opened = q.opened;
        })
        (λ e. q)

  pub received-Quiet : (l : List ℕ) (i : ℕ) (w : World Buf) → Quiet w (received r l i w)
  unfolding received
  received-Quiet l i w =
      let s = slot w i in
      let q =
        put-Quiet i (record s { recv_q = r.append_direct s.recv_q _ }) w refl refl refl refl refl
          refl in
      record {
        mine = q.mine;
        rooms = q.rooms;
        noted = q.noted;
        dead = q.dead;
        id = q.id;
        owner = q.owner;
        opened = q.opened;
      }

module _ (f : Fpu) {Buf : Type 0} (r : Ring Buf) (elsewhere owned : ℕ → ℕ) (theirs : ℕ → ℕ → ℕ)
    (me : ℕ) (known : ℕ → Type 0) where
  abbrev Good : World Buf → Type 0
  Good = NetOk elsewhere owned theirs me known

  parse_on-NetOk :
      (fuel i : ℕ) (w : World Buf)
      → known i
      → (slot w i).dead ≡ false
      → Good w
      → Good (parse_on f r fuel i w)
  unfolding parse_on
  parse_on-NetOk zero i w k living h = h
  parse_on-NetOk (suc fuel) i w k living h =
      let q = (slot w i).recv_q in
      let size = (header_bytes (r.peek q header_size)).0 in
      let wait = count (λ c. record c { frame_wait = c.frame_wait + 1 }) w in
      let x = pull r size i w in
      let p = pull-Quiet r size i w in
      let u = dispatch f r i x.0 x.1 in
      let done : Good u =
        dispatch-NetOk f r elsewhere owned theirs me known i x.0 x.1 k (p.dead i ∙ living)
          (Quiet-NetOk p h) in
      if_cases Good (ltb (r.data_size q) header_size) w _ (λ e. h)
        (λ e.
          if_cases Good (ltb size header_size || ltb max_packet_size size) (disconnect i w) _
            (λ e. disconnect-NetOk i w k h)
            (λ e.
              if_cases Good (ltb (r.data_size q) size) wait _
                (λ e. record {
                  books = h.books;
                  once = h.once;
                  alive = h.alive;
                  heard = h.heard;
                  bound = h.bound;
                  claims = h.claims;
                  number = h.number;
                })
                (λ e.
                  if_cases Good (slot u i).dead u (parse_on f r fuel i u) (λ e. done)
                    (λ e. parse_on-NetOk fuel i u k e done))))

  read_on-NetOk :
      (answers : List ReadAnswer) (i : ℕ) (w : World Buf)
      → known i
      → (slot w i).dead ≡ false
      → Good w
      → Good (read_on f r answers i w)
  unfolding read_on parse_frames
  read_on-NetOk [] i w k living h =
      if_cases Good (r.direct_write_size (slot w i).recv_q == 0) (disconnect i w) w
        (λ e. disconnect-NetOk i w k h) (λ e. h)
  read_on-NetOk (bytes b l ∷ rest) i w k living h =
      let v = with_kernel (λ k. record k { reads = rest }) w in
      let t = received r (b ∷ l) i v in
      let q : Quiet w t = Quiet-trans (aside v.kernel w) (received-Quiet r (b ∷ l) i v) in
      let u = parse_frames f r i t in
      let done : Good u = parse_on-NetOk _ i t k (q.dead i ∙ living) (Quiet-NetOk q h) in
      if_cases Good (r.direct_write_size (slot w i).recv_q == 0) (disconnect i w) _
        (λ e. disconnect-NetOk i w k h)
        (λ e.
          if_cases Good (slot u i).dead u (read_on f r rest i u) (λ e. done)
            (λ e. read_on-NetOk rest i u k e done))
  read_on-NetOk (closed ∷ rest) i w k living h =
      let v = with_kernel (λ k. record k { reads = rest }) w in
      disconnect-NetOk i (if r.direct_write_size (slot w i).recv_q == 0 then w else v) k (
        if_cases Good (r.direct_write_size (slot w i).recv_q == 0) w v (λ e. h)
          (λ e. Quiet-NetOk (aside v.kernel w) h))
  read_on-NetOk (read_again ∷ rest) i w k living h =
      let v = with_kernel (λ k. record k { reads = rest }) w in
      if_cases Good (r.direct_write_size (slot w i).recv_q == 0) (disconnect i w) v
        (λ e. disconnect-NetOk i w k h) (λ e. Quiet-NetOk (aside v.kernel w) h)
  read_on-NetOk (read_interrupted ∷ rest) i w k living h =
      let v = with_kernel (λ k. record k { reads = rest }) w in
      if_cases Good (r.direct_write_size (slot w i).recv_q == 0) (disconnect i w)
        (read_on f r rest i v) (λ e. disconnect-NetOk i w k h)
        (λ e. read_on-NetOk rest i v k living (Quiet-NetOk (aside v.kernel w) h))
  read_on-NetOk (read_failed ∷ rest) i w k living h =
      let v = with_kernel (λ k. record k { reads = rest }) w in
      disconnect-NetOk i (if r.direct_write_size (slot w i).recv_q == 0 then w else v) k (
        if_cases Good (r.direct_write_size (slot w i).recv_q == 0) w v (λ e. h)
          (λ e. Quiet-NetOk (aside v.kernel w) h))

  serve-NetOk :
      (e : Ready) (i : ℕ) (w : World Buf)
      → known i
      → (slot w i).dead ≡ false
      → Good w
      → Good (serve f r e i w)
  unfolding serve read_session
  serve-NetOk e i w k living h =
      let u = if e.readable then read_session f r i w else w in
      let done : Good u =
        if_cases Good e.readable (read_session f r i w) w
          (λ z. read_on-NetOk w.kernel.reads i w k living h) (λ z. h) in
      if_cases Good (e.readable && (slot u i).dead) u _ (λ z. done)
        (λ z.
          if_cases Good e.writable (flush_send r i u) u
            (λ z. flush_send-NetOk r elsewhere owned theirs me known i u k done) (λ z. done))

  -- Whatever the event, the kernel's answers and the bytes of the client, an epoll worker keeps its
  -- books in handling it.
  pub handle_session-NetOk :
      (i gen : ℕ) (e : Ready) (w : World Buf)
      → ((slot w i).gen ≡ gen → known i)
      → Good w
      → Good (handle_session f r i gen e w)
  unfolding handle_session
  handle_session-NetOk i gen e w k h =
      let s = slot w i in
      if_cases Good (leb w.server.sessions.cap i) w _ (λ z. h)
        (λ z.
          if_cases Good (not (s.gen == gen) || s.dead) w _ (λ z. h)
            (λ ours.
              if_cases Good e.broken (disconnect i w) (serve f r e i w)
                (λ z. disconnect-NetOk i w (k (ground (arith, ours))) h)
                (λ z. serve-NetOk e i w (k (ground (arith, ours))) (ground (arith, ours)) h)))
