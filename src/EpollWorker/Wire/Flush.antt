-- ===== src/EpollWorker/Wire/Flush.antt =====
-- `FlushSend` and `SendBytes` of server/src/EpollWorker.cpp: the bytes that are written and those
-- that wait.
use mo_belt.Prelude.{
  ℕ, ◌+◌, ◌≤◌, ◌≡◌, ◌⊎◌, ◌∙◌, refl, sym, ap, arith, inl, inr, true, false, if_cases, ltb, ◌==◌,
  Option, some, none, List, [], ◌++◌, append_assoc, update, update_self, length, skip, take,
  take-skip, take-take, nothing_left,
}
use mo_belt.RingBuffer.{Ring, IsQueue}
use mathlib.Core.Path.{subst}
use mo_belt.Session.{Session}
use mo_belt.Session.Link.{release-SameLink}
use mo_belt.RoomManager.Join.{on_session_leave}
use mo_belt.RoomManager.Join.Link.{on_session_leave-SameLink}
use mo_belt.EpollWorker.{
  World, next_ctl, slot, put, count, with_kernel, close_fd, cut, disconnect, flush_done, taken,
  sent, flush_send, send_bytes, update_write_interest, note_split,
}
use mo_belt.EpollWorker.NetOk.{close_fd-Quiet}
use mo_belt.EpollWorker.Flushing.{
  update_write_interest_cases, Sends, flush_done_inv, flush_send_inv,
}
use mo_belt.EpollWorker.Wire.{SameWire, update_write_interest-SameWire, disconnect-SameWire}

obeyed : (next_ctl []).0 ≡ true
unfolding next_ctl
obeyed = refl

module _ {Buf : Type 0} where
  -- `Disconnect` leaves nobody alive.
  pub disconnect-dead : (i : ℕ) (w : World Buf) → (slot (disconnect i w) i).dead ≡ true
  unfolding disconnect cut
  disconnect-dead i w =
      let v = put i (record (slot w i) { dead = true }) w in
      let d = close_fd i v in
      let left = on_session_leave i d.server in
      if_cases (λ (u : World Buf). (slot u i).dead ≡ true) (slot w i).dead w (cut i w) (λ e. e)
        (λ e.
          (release-SameLink left.sessions i).dead i
          ∙ (on_session_leave-SameLink i d.server).dead i
          ∙ (close_fd-Quiet i v).dead i
          ∙ ap (λ t. t.dead)
              (update_self w.server.sessions.slots i (record (slot w i) { dead = true })))

module _ {Buf : Type 0} (r : Ring Buf) (law : IsQueue r) (i fd : ℕ) where
  -- What the socket has taken, and what is still to be sent.
  abbrev pub sent_and_left : World Buf → List ℕ
  sent_and_left w = w.kernel.written fd ++ law.contents (slot w i).send_q

  module _ (total : List ℕ) where
    abbrev Open : World Buf → Type 0
    Open w = ((slot w i).fd ≡ some fd) × (sent_and_left w ≡ total)

    abbrev Whole : World Buf → Type 0
    Whole w = sent_and_left w ≡ total

    carried : (w v : World Buf) → SameWire i w v → Whole w → Whole v
    carried w v same h =
        ap (λ g. g fd ++ law.contents (slot v i).send_q) same.written
        ∙ ap (λ q. w.kernel.written fd ++ law.contents q) same.send
        ∙ h

    -- The first bytes of the ring go to the socket.
    sent-Open :
        (n : ℕ) (w : World Buf)
        → n ≤ r.direct_read_size (slot w i).send_q
        → Open w
        → Open (sent r n i w)
    unfolding sent
    sent-Open n w le h =
        let q = (slot w i).send_q in
        let k = w.kernel in
        let fits : n ≤ length (law.contents q) =
          omega (arith, le, law.direct_le q, law.size_is q) in
        let new = k.written fd ++ take n (r.send_bytes q) in
        let s : Session Buf = record (slot w i) { send_q = r.consume q n } in
        let at : update w.server.sessions.slots i s i ≡ s =
          update_self w.server.sessions.slots i s in
        let after : Option ℕ → World Buf = λ o.
          count (λ c. record c { send_bytes = c.send_bytes + n })
            (put i s (elim o as (λ _. World Buf) [
              | none ↦ w
              | some d ↦
                  with_kernel
                    (λ k. record k {
                      written = update k.written d (k.written d ++ take n (r.send_bytes q));
                    })
                    w
            ])) in
        subst (λ o. Open (after o)) (sym h.0)
          (
            ap (λ t. t.fd) at ∙ h.0,
            ap (λ t. update k.written fd new fd ++ law.contents t.send_q) at
                ∙ ap (λ l. l ++ law.contents (r.consume q n)) (update_self k.written fd new)
                ∙ ap (λ l. new ++ l) (law.consume_is q n fits)
                ∙ append_assoc (k.written fd) (take n (r.send_bytes q)) (skip n (law.contents q))
                ∙ ap (λ l. k.written fd ++ (l ++ skip n (law.contents q)))
                    (ap (take n) (law.send_is q)
                      ∙ take-take n (r.direct_read_size q) (law.contents q) le)
                ∙ ap (λ l. k.written fd ++ l) (take-skip n (law.contents q))
                ∙ h.1,
          )

    note_split-Open : (w : World Buf) → Open w → Open (note_split r i w)
    unfolding note_split
    note_split-Open w h =
        let q = (slot w i).send_q in
        if_cases Open (ltb (r.direct_read_size q) (r.data_size q))
          (count (λ c. record c { ring_split_send = c.ring_split_send + 1 }) w) w (λ e. h) (λ e. h)

    taken-le :
        (more : ℕ) (w v : World Buf)
        → slot v i ≡ slot w i
        → taken r more i w ≤ r.direct_read_size (slot v i).send_q
    unfolding taken
    taken-le more w v same =
        let q = (slot w i).send_q in
        let some_of : taken r more i w ≤ r.direct_read_size q = ground arith in
        omega (arith, some_of, ap (λ t. r.direct_read_size t.send_q) same)

    Open-Sends : Sends r Open Whole i
    Open-Sends = record {
      split = λ w h. note_split-Open w h;
      answered = λ rest w h. h;
      moved = λ more w v same h. sent-Open _ v (taken-le more w v same) h;
      partial = λ w h. h;
      done = λ w z h.
          flush_done_inv r Whole i w h.1
            (carried w _ (update_write_interest-SameWire i false w) h.1);
      waits = λ w h. carried w _ (update_write_interest-SameWire i true w) h.1;
      cut = λ w h. carried w _ (disconnect-SameWire i w) h.1;
    }

  -- For a session with a socket, whatever `write` answers, what the socket has taken and what is left
  -- in the ring make up what they made up before `FlushSend`: no byte is lost, sent twice or out of
  -- order.
  pub flush_send-sent_and_left :
      (w : World Buf) → (slot w i).fd ≡ some fd → sent_and_left (flush_send r i w) ≡ sent_and_left w
  flush_send-sent_and_left w open_fd =
      let total = sent_and_left w in
      flush_send_inv r (Open total) (Whole total) i (Open-Sends total) w (open_fd, refl)

  -- For a session with a socket, a message comes behind all that was sent before it, or nothing of it
  -- is sent and the session is dead.
  pub send_bytes-sent_and_left :
      (msg : List ℕ) (w : World Buf)
      → (slot w i).fd ≡ some fd
      → let v = send_bytes r i msg w in
        (sent_and_left v ≡ sent_and_left w ++ msg)
        ⊎ ((sent_and_left v ≡ sent_and_left w) × ((slot v i).dead ≡ true))
  unfolding send_bytes
  send_bytes-sent_and_left msg w open_fd =
      let s = slot w i in
      let x = r.enqueue s.send_q msg in
      let t : Session Buf = record s { send_q = x.1 } in
      let v = put i t w in
      let full = count (λ c. record c { send_ring_full = c.send_ring_full + 1 }) v in
      let at : slot v i ≡ t = update_self w.server.sessions.slots i t in
      let Result : World Buf → Type 0 = λ u.
        (sent_and_left u ≡ sent_and_left w ++ msg)
        ⊎ ((sent_and_left u ≡ sent_and_left w) × ((slot u i).dead ≡ true)) in
      let ring : sent_and_left v ≡ w.kernel.written fd ++ law.contents x.1 =
        ap (λ u. w.kernel.written fd ++ law.contents u.send_q) at in
      let stays : (l : List ℕ) → sent_and_left v ≡ l → sent_and_left (disconnect i full) ≡ l =
        λ l. carried l full (disconnect i full) (disconnect-SameWire i full) in
      elim (law.enqueue_is s.send_q msg) [
        | inl (taken_none, same) ↦
            if_cases Result (x.0 == 0) (disconnect i full) (flush_send r i v)
              (λ e. inr (
                stays (sent_and_left w) (ring ∙ ap (λ l. w.kernel.written fd ++ l) same),
                disconnect-dead i full,
              ))
              (λ e. absurd ground (arith, e, taken_none))
        | inr (taken_all, more) ↦
            let behind : sent_and_left v ≡ sent_and_left w ++ msg =
              ring
              ∙ ap (λ l. w.kernel.written fd ++ l) more
              ∙ sym (append_assoc (w.kernel.written fd) (law.contents s.send_q) msg) in
            if_cases Result (x.0 == 0) (disconnect i full) (flush_send r i v)
              (λ e. inl (stays (sent_and_left w ++ msg) behind))
              (λ e. inl (flush_send-sent_and_left v (ap (λ u. u.fd) at ∙ open_fd) ∙ behind))
      ]

  -- Every `epoll_ctl` to come succeeds.
  abbrev Obeyed : World Buf → Type 0
  Obeyed w = w.kernel.ctls ≡ []

  abbrev Settled : World Buf → Type 0
  Settled w =
      ((slot w i).dead ≡ true)
      ⊎ ((law.contents (slot w i).send_q ≡ []) ⊎ ((slot w i).want_write ≡ true))

  note_split-Obeyed : (w : World Buf) → Obeyed w → Obeyed (note_split r i w)
  unfolding note_split
  note_split-Obeyed w h =
      let q = (slot w i).send_q in
      if_cases Obeyed (ltb (r.direct_read_size q) (r.data_size q))
        (count (λ c. record c { ring_split_send = c.ring_split_send + 1 }) w) w (λ e. h) (λ e. h)

  sent-ctls : (n : ℕ) (w : World Buf) → (sent r n i w).kernel.ctls ≡ w.kernel.ctls
  unfolding sent
  sent-ctls n w = ground arith

  waits-Settled : (w : World Buf) → Obeyed w → Settled (update_write_interest i true w)
  waits-Settled w h =
      let t : Session Buf = record (slot w i) { want_write = true } in
      let at : update w.server.sessions.slots i t i ≡ t = update_self w.server.sessions.slots i t in
      update_write_interest_cases Settled i true w (λ e. inr (inr e))
        (λ e. absurd ground (arith, e, ap (λ l. (next_ctl l).0) h, obeyed))
        (inr (inr (ap (λ u. u.want_write) at))) (inr (inr (ap (λ u. u.want_write) at)))

  empty-Settled : (w : World Buf) → r.data_size (slot w i).send_q ≡ 0 → Settled (flush_done r i w)
  empty-Settled w z =
      let nil : law.contents (slot w i).send_q ≡ [] =
        nothing_left _ (sym (law.size_is (slot w i).send_q) ∙ z) in
      flush_done_inv r Settled i w (inr (inl nil))
        (inr (inl (ap law.contents (update_write_interest-SameWire i false w).send ∙ nil)))

  Settled-Sends : Sends r Obeyed Settled i
  Settled-Sends = record {
    split = note_split-Obeyed;
    answered = λ rest w h. h;
    moved = λ more w v same h. sent-ctls _ v ∙ h;
    partial = λ w h. h;
    done = λ w z h. empty-Settled w z;
    waits = waits-Settled;
    cut = λ w h. inl (disconnect-dead i w);
  }

  -- Unless an `epoll_ctl` fails, `FlushSend` leaves a session dead, or with nothing left to send, or
  -- waiting for its socket to be writable.
  pub flush_send_lem :
      (w : World Buf)
      → w.kernel.ctls ≡ []
      → let v = flush_send r i w in
        ((slot v i).dead ≡ true)
        ⊎ ((law.contents (slot v i).send_q ≡ []) ⊎ ((slot v i).want_write ≡ true))
  flush_send_lem w h = flush_send_inv r Obeyed Settled i Settled-Sends w h
