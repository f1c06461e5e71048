-- ===== src/EpollWorker/Flushing.antt =====
-- `UpdateWriteInterest` and `FlushSend` of server/src/EpollWorker.cpp, by cases and by induction on
-- the kernel's answers.
use mo_belt.Prelude.{
  ℕ, ◌+◌, ◌≡◌, refl, arith, Bool, true, false, not, if_cases, if◌then◌else◌, ltb, ◌==◌, List, [],
  ◌∷◌,
}
use mo_belt.RingBuffer.{Ring}
use mo_belt.EpollWorker.{
  World, WriteAnswer, wrote, write_again, write_interrupted, write_failed, next_ctl, slot, put,
  count, with_kernel, update_write_interest, disconnect, flush_done, note_split, taken, sent,
  note_partial, flush_on, flush_send,
}

module _ {Buf : Type 0} where
  -- Nothing to do, a failed `epoll_ctl`, or a change, counted where it arms.
  pub update_write_interest_cases {κ} :
      (P : World Buf → Type κ) (i : ℕ) (want : Bool) (w : World Buf)
      → let (ok, ctls) = next_ctl w.kernel.ctls in
        let asked = with_kernel (λ k. record k { ctls = ctls }) w in
        let set = put i (record (slot w i) { want_write = want }) asked in
        ((slot w i).want_write ≡ want → P w)
        → (ok ≡ false → P asked)
        → P set
        → P (count (λ c. record c { epollout_arm = c.epollout_arm + 1 }) set)
        → P (update_write_interest i want w)
  unfolding update_write_interest
  update_write_interest_cases P i want w same failed set armed =
      let x = next_ctl w.kernel.ctls in
      let asked = with_kernel (λ k. record k { ctls = x.1 }) w in
      let v = put i (record (slot w i) { want_write = want }) asked in
      let u = count (λ c. record c { epollout_arm = c.epollout_arm + 1 }) v in
      if_cases P (if want then (slot w i).want_write else not (slot w i).want_write) w
        (if not x.0 then asked else if want then u else v) (λ e. same (ground (arith, e)))
        (λ e.
          if_cases P (not x.0) asked (if want then u else v) (λ e. failed (ground (arith, e)))
            (λ e. if_cases P want u v (λ e. armed) (λ e. set)))

module _ {Buf : Type 0} (r : Ring Buf) where
  -- What every step of `FlushSend` for session `i` keeps, and what each of its ends brings about.
  pub record Sends {κ} (P Q : World Buf → Type κ) (i : ℕ) : Type κ where
    pub split : (w : World Buf) → P w → P (note_split r i w)
    pub answered :
        (rest : List WriteAnswer) (w : World Buf)
        → P w
        → P (with_kernel (λ k. record k { writes = rest }) w)
    pub moved :
        (more : ℕ) (w v : World Buf) → slot v i ≡ slot w i → P v → P (sent r (taken r more i w) i v)
    pub partial : (w : World Buf) → P w → P (note_partial w)
    pub done : (w : World Buf) → r.data_size (slot w i).send_q ≡ 0 → P w → Q (flush_done r i w)
    pub waits : (w : World Buf) → P w → Q (update_write_interest i true w)
    pub cut : (w : World Buf) → P w → Q (disconnect i w)

  pub flush_done_inv {κ} :
      (P : World Buf → Type κ) (i : ℕ) (w : World Buf)
      → P w
      → P (update_write_interest i false w)
      → P (flush_done r i w)
  unfolding flush_done
  flush_done_inv P i w h g =
      if_cases P (slot w i).want_write (update_write_interest i false w) w (λ e. g) (λ e. h)

  pub note_split-slot : (i : ℕ) (w : World Buf) → slot (note_split r i w) i ≡ slot w i
  unfolding note_split
  note_split-slot i w =
      let q = (slot w i).send_q in
      if_cases (λ (v : World Buf). slot v i ≡ slot w i) (ltb (r.direct_read_size q) (r.data_size q))
        (count (λ c. record c { ring_split_send = c.ring_split_send + 1 }) w) w (λ e. refl)
        (λ e. refl)

  module _ {κ} (P Q : World Buf → Type κ) (i : ℕ) (s : Sends P Q i) where
    empty :
        (i : ℕ) (w : World Buf)
        → (r.data_size (slot w i).send_q == 0) ≡ true
        → r.data_size (slot w i).send_q ≡ 0
    empty i w e = ground (arith, e)

    flush_on_inv : (answers : List WriteAnswer) (w : World Buf) → P w → Q (flush_on r answers i w)
    unfolding flush_on
    flush_on_inv [] w h =
        if_cases Q (r.data_size (slot w i).send_q == 0) (flush_done r i w)
          (update_write_interest i true (note_split r i w)) (λ e. s.done w (empty i w e) h)
          (λ e. s.waits _ (s.split w h))
    flush_on_inv (write_again ∷ rest) w h =
        let v = with_kernel (λ k. record k { writes = rest }) (note_split r i w) in
        if_cases Q (r.data_size (slot w i).send_q == 0) (flush_done r i w)
          (update_write_interest i true v) (λ e. s.done w (empty i w e) h)
          (λ e. s.waits v (s.answered rest _ (s.split w h)))
    flush_on_inv (write_interrupted ∷ rest) w h =
        let v = with_kernel (λ k. record k { writes = rest }) (note_split r i w) in
        if_cases Q (r.data_size (slot w i).send_q == 0) (flush_done r i w) (flush_on r rest i v)
          (λ e. s.done w (empty i w e) h)
          (λ e. flush_on_inv rest v (s.answered rest _ (s.split w h)))
    flush_on_inv (write_failed ∷ rest) w h =
        let v = with_kernel (λ k. record k { writes = rest }) (note_split r i w) in
        if_cases Q (r.data_size (slot w i).send_q == 0) (flush_done r i w) (disconnect i v)
          (λ e. s.done w (empty i w e) h) (λ e. s.cut v (s.answered rest _ (s.split w h)))
    flush_on_inv (wrote more ∷ rest) w h =
        let v = with_kernel (λ k. record k { writes = rest }) (note_split r i w) in
        let n = taken r more i w in
        let u = sent r n i v in
        let done : P u = s.moved more w v (note_split-slot i w) (s.answered rest _ (s.split w h)) in
        if_cases Q (r.data_size (slot w i).send_q == 0) (flush_done r i w)
          (if ltb n (r.direct_read_size (slot w i).send_q)
            then update_write_interest i true (note_partial u)
            else flush_on r rest i u)
          (λ e. s.done w (empty i w e) h)
          (λ e.
            if_cases Q (ltb n (r.direct_read_size (slot w i).send_q))
              (update_write_interest i true (note_partial u)) (flush_on r rest i u)
              (λ e. s.waits _ (s.partial u done)) (λ e. flush_on_inv rest u done))

    pub flush_send_inv : (w : World Buf) → P w → Q (flush_send r i w)
    unfolding flush_send
    flush_send_inv w h = flush_on_inv w.kernel.writes w h
