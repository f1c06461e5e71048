-- ===== src/EpollWorker/Sending.antt =====
-- `SendBytes` and `FlushSend` of server/src/EpollWorker.cpp and what an epoll worker keeps.
use mo_belt.Prelude.{
  take, ℕ, ◌+◌, refl, Bool, true, false, if_cases, ltb, ◌==◌, Option, none, some, List, ◌++◌,
  update,
}
use mo_belt.RingBuffer.{Ring}
use mo_belt.Session.Noted.{Noted-refl}
use mo_belt.EpollWorker.{
  World, Kernel, next_ctl, slot, put, count, with_kernel, update_write_interest, disconnect,
  note_split, sent, flush_send, send_bytes,
}
use mo_belt.EpollWorker.Flushing.{
  update_write_interest_cases, Sends, flush_done_inv, flush_send_inv,
}
use mo_belt.Metrics.{Counters}
use mo_belt.EpollWorker.NetOk.{NetOk, Quiet, Quiet-refl, put-Quiet, Quiet-NetOk}
use mo_belt.EpollWorker.Disconnecting.{disconnect-NetOk}

module _ {Buf : Type 0} where
  -- Only the kernel and the counters change.
  pub aside : (k : Kernel) (w : World Buf) → Quiet w (record w { kernel = k })
  aside k w = record {
    mine = refl;
    rooms = refl;
    noted = Noted-refl w.server.sessions;
    dead = λ j. refl;
    id = refl;
    owner = λ j. refl;
    opened = λ j o. o;
  }

  -- Such a change beside another quiet step.
  beside :
      {w v : World Buf} (k : Kernel) (c : Counters)
      → Quiet w v
      → Quiet w (record v { kernel = k; server = record (v.server) { counters = c } })
  beside k c q = record {
    mine = q.mine;
    rooms = q.rooms;
    noted = q.noted;
    dead = q.dead;
    id = q.id;
    owner = q.owner;
    opened = q.opened;
  }

  pub update_write_interest-Quiet :
      (i : ℕ) (want : Bool) (w : World Buf) → Quiet w (update_write_interest i want w)
  update_write_interest-Quiet i want w =
      let k : Kernel = record (w.kernel) { ctls = (next_ctl w.kernel.ctls).1 } in
      let only =
        put-Quiet i (record (slot w i) { want_write = want }) w refl refl refl refl refl refl in
      update_write_interest_cases (Quiet w) i want w (λ e. Quiet-refl w) (λ e. aside k w)
        (beside k _ only) (beside k _ only)

  module _ (r : Ring Buf) where
    note_split-Quiet : (i : ℕ) (w : World Buf) → Quiet w (note_split r i w)
    unfolding note_split
    note_split-Quiet i w =
        let q = (slot w i).send_q in
        if_cases (Quiet w) (ltb (r.direct_read_size q) (r.data_size q)) _ w
          (λ e. record {
            mine = refl;
            rooms = refl;
            noted = Noted-refl w.server.sessions;
            dead = λ j. refl;
            id = refl;
            owner = λ j. refl;
            opened = λ j o. o;
          })
          (λ e. Quiet-refl w)

    sent-Quiet : (n i : ℕ) (w : World Buf) → Quiet w (sent r n i w)
    unfolding sent
    sent-Quiet n i w = logged (slot w i).fd
      where
        s : ℕ → Buf
        s k = r.consume (slot w i).send_q k

        done : Quiet w (put i (record (slot w i) { send_q = s n }) w)
        done = put-Quiet i (record (slot w i) { send_q = s n }) w refl refl refl refl refl refl

        logged :
            (fd : Option ℕ)
            → Quiet w (
                count
                  (λ c. record c { send_bytes = c.send_bytes + n })
                  (put i
                    (record (slot w i) { send_q = s n })
                    (elim fd as (λ _. World Buf) [
                      | none ↦ w
                      | some fd ↦
                          with_kernel
                            (λ k. record k {
                              written =
                                  update k.written fd
                                    (k.written fd ++ take n (r.send_bytes (slot w i).send_q));
                            })
                            w
                    ])))
        logged none = record {
          mine = done.mine;
          rooms = done.rooms;
          noted = done.noted;
          dead = done.dead;
          id = done.id;
          owner = done.owner;
          opened = done.opened;
        }
        logged (some fd) = record {
          mine = done.mine;
          rooms = done.rooms;
          noted = done.noted;
          dead = done.dead;
          id = done.id;
          owner = done.owner;
          opened = done.opened;
        }

    module _ (elsewhere owned : ℕ → ℕ) (theirs : ℕ → ℕ → ℕ) (me : ℕ) (known : ℕ → Type 0) where
      abbrev Good : World Buf → Type 0
      Good = NetOk elsewhere owned theirs me known

      Good-Sends : (i : ℕ) → known i → Sends r Good Good i
      Good-Sends i k = record {
        done = λ w z h.
            flush_done_inv r Good i w h (Quiet-NetOk (update_write_interest-Quiet i false w) h);
        waits = λ w. Quiet-NetOk (update_write_interest-Quiet i true w);
        split = λ w. Quiet-NetOk (note_split-Quiet i w);
        answered = λ rest w. Quiet-NetOk (aside _ w);
        moved = λ more w v e. Quiet-NetOk (sent-Quiet _ i v);
        partial = λ w. Quiet-NetOk (beside w.kernel _ (Quiet-refl w));
        cut = λ w. disconnect-NetOk i w k;
      }

      pub flush_send-NetOk : (i : ℕ) (w : World Buf) → known i → Good w → Good (flush_send r i w)
      flush_send-NetOk i w k h = flush_send_inv r Good Good i (Good-Sends i k) w h

      pub send_bytes-NetOk :
          (i : ℕ) (msg : List ℕ) (w : World Buf) → known i → Good w → Good (send_bytes r i msg w)
      unfolding send_bytes
      send_bytes-NetOk i msg w k h =
          let s = slot w i in
          let x = r.enqueue s.send_q msg in
          let v = put i (record s { send_q = x.1 }) w in
          let full = count (λ c. record c { send_ring_full = c.send_ring_full + 1 }) v in
          let q : Quiet w v =
            put-Quiet i (record s { send_q = x.1 }) w refl refl refl refl refl refl in
          let q' : Quiet w full = record {
            mine = q.mine;
            rooms = q.rooms;
            noted = q.noted;
            dead = q.dead;
            id = q.id;
            owner = q.owner;
            opened = q.opened;
          } in
          if_cases Good (x.0 == 0) (disconnect i full) (flush_send r i v)
            (λ e. disconnect-NetOk i full k (Quiet-NetOk q' h))
            (λ e. flush_send-NetOk i v k (Quiet-NetOk q h))
