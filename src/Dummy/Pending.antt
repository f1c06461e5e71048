-- ===== src/Dummy/Pending.antt =====
-- The bytes of a client of the load generator (dummy/dummy_main.cpp) in `SendBytes` and
-- `FlushPend`.
use mo_belt.Prelude.{
  ℕ, ◌+◌, ◌≤◌, ◌≡◌, ◌⊎◌, ◌∙◌, refl, sym, ap, arith, inl, inr, Bool, true, false, if_cases, ltb,
  ◌==◌, List, [], ◌∷◌, ◌++◌, append_assoc, append-nil, length, length-skip, take, skip, take-skip,
  nothing_left,
}
use mo_belt.EpollWorker.{WriteAnswer, wrote, write_again, write_interrupted, write_failed}
use mo_belt.Dummy.Send.{
  Sender, Churn, kill, is_dead, hand_over, taken_of, keep_rest, write_now, send_bytes, flush_on,
  flush_pend, pend_max,
}

-- What the socket has taken, and what waits.
abbrev pub sent_and_pending : Sender → List ℕ
sent_and_pending c = c.written ++ c.pend

kill-sent_and_pending :
    (t : Churn) (b : Bool) (c : Sender) → sent_and_pending (kill t b c) ≡ sent_and_pending c
unfolding kill
kill-sent_and_pending t b c =
    if_cases (λ d. sent_and_pending d ≡ sent_and_pending c) (is_dead c.state) c _ (λ e. refl)
      (λ e. refl)

pub is_dead-kill : (t : Churn) (b : Bool) (c : Sender) → is_dead (kill t b c).state ≡ true
unfolding kill
is_dead-kill t b c =
    if_cases (λ (d : Sender). is_dead d.state ≡ true) (is_dead c.state) c _ (λ e. e) (λ e. refl)

le-taken_of : (more len : ℕ) → taken_of more len ≤ len
le-taken_of more len = ground arith

module _ (data_out : List ℕ) where
  -- The socket has taken nothing.
  keep_rest-none :
      (c : Sender) → sent_and_pending (keep_rest 0 data_out c) ≡ sent_and_pending c ++ data_out
  unfolding keep_rest
  keep_rest-none c =
      if_cases (λ d. sent_and_pending d ≡ sent_and_pending c ++ data_out) (ltb 0 (length data_out))
        _ c (λ e. sym (append_assoc c.written c.pend data_out))
        (λ e.
          let nil : data_out ≡ [] = nothing_left data_out (ground (arith, e)) in
          sym (append-nil (sent_and_pending c)) ∙ ap (λ l. sent_and_pending c ++ l) (sym nil))

  -- The socket has taken the first `n` bytes.
  keep_rest-taken :
      (n : ℕ) (c : Sender)
      → c.pend ≡ []
      → n ≤ length data_out
      → sent_and_pending (keep_rest n data_out (hand_over n data_out c))
        ≡ sent_and_pending c ++ data_out
  unfolding keep_rest
  keep_rest-taken n c clear le =
      let written_only : sent_and_pending c ≡ c.written =
        ap (λ l. c.written ++ l) clear ∙ append-nil c.written in
      let whole : c.written ++ (take n data_out ++ skip n data_out)
          ≡ sent_and_pending c ++ data_out =
        ap (λ l. c.written ++ l) (take-skip n data_out)
        ∙ ap (λ l. l ++ data_out) (sym written_only) in
      if_cases (λ d. sent_and_pending d ≡ sent_and_pending c ++ data_out) (ltb n (length data_out))
        _ (hand_over n data_out c)
        (λ e.
          append_assoc c.written (take n data_out) (c.pend ++ skip n data_out)
          ∙ ap (λ l. c.written ++ (take n data_out ++ (l ++ skip n data_out))) clear
          ∙ whole)
        (λ e.
          let len = length-skip n data_out le in
          let nil : skip n data_out ≡ [] =
            nothing_left (skip n data_out) (ground (arith, e, len)) in
          append_assoc c.written (take n data_out) c.pend
          ∙ ap (λ l. c.written ++ (take n data_out ++ l)) (clear ∙ sym nil)
          ∙ whole)

  -- All is sent or waits behind what was there, or the client is dead and nothing of it was sent.
  abbrev Sent : Sender → Sender → Type 0
  Sent c d =
      (sent_and_pending d ≡ sent_and_pending c ++ data_out)
      ⊎ ((sent_and_pending d ≡ sent_and_pending c) × (is_dead d.state ≡ true))

  write_now-Sent :
      (t : Churn) (answers : List WriteAnswer) (c : Sender)
      → c.pend ≡ []
      → Sent c (write_now t data_out answers c)
  unfolding write_now
  write_now-Sent t [] c clear = inl (keep_rest-none c)
  write_now-Sent t (write_again ∷ rest) c clear = inl (keep_rest-none (record c { writes = rest }))
  write_now-Sent t (write_interrupted ∷ rest) c clear =
      inl (keep_rest-none (record c { writes = rest }))
  write_now-Sent t (write_failed ∷ rest) c clear =
      let d : Sender = record c { writes = rest } in
      inr (kill-sent_and_pending t true d, is_dead-kill t true d)
  write_now-Sent t (wrote more ∷ rest) c clear = inl (
      keep_rest-taken (taken_of more (length data_out)) (record c { writes = rest }) clear
        (le-taken_of more (length data_out)))

  -- Whatever `write` answers, `SendBytes` puts the bytes behind all that was sent before, taken by the
  -- socket or pending; or it sends none of them and the client is dead.
  pub send_bytes-sent_and_pending :
      (t : Churn) (c : Sender)
      → let d = send_bytes t data_out c in
        (sent_and_pending d ≡ sent_and_pending c ++ data_out)
        ⊎ ((sent_and_pending d ≡ sent_and_pending c) × (is_dead d.state ≡ true))
  unfolding send_bytes
  send_bytes-sent_and_pending t c =
      let full : Sender = record c { pend_overflow = c.pend_overflow + 1 } in
      if_cases (Sent c) (length c.pend == 0) (write_now t data_out c.writes c) _
        (λ e. write_now-Sent t c.writes c (nothing_left c.pend (ground (arith, e))))
        (λ e.
          if_cases (Sent c) (ltb pend_max (length c.pend + length data_out)) (kill t false full) _
            (λ e'. inr (kill-sent_and_pending t false full, is_dead-kill t false full))
            (λ e'. inl (sym (append_assoc c.written c.pend data_out))))

-- `FlushPend` moves bytes to the socket in order.
flush_on-sent_and_pending :
    (t : Churn) (answers : List WriteAnswer) (c : Sender)
    → sent_and_pending (flush_on t answers c) ≡ sent_and_pending c
unfolding flush_on
flush_on-sent_and_pending t [] c = refl
flush_on-sent_and_pending t (write_again ∷ rest) c =
    if_cases (λ d. sent_and_pending d ≡ sent_and_pending c) (length c.pend == 0) c
      (record c { writes = rest }) (λ e. refl) (λ e. refl)
flush_on-sent_and_pending t (write_interrupted ∷ rest) c =
    let v : Sender = record c { writes = rest } in
    if_cases (λ d. sent_and_pending d ≡ sent_and_pending c) (length c.pend == 0) c
      (flush_on t rest v) (λ e. refl) (λ e. flush_on-sent_and_pending t rest v)
flush_on-sent_and_pending t (write_failed ∷ rest) c =
    let v : Sender = record c { writes = rest } in
    if_cases (λ d. sent_and_pending d ≡ sent_and_pending c) (length c.pend == 0) c (kill t true v)
      (λ e. refl) (λ e. kill-sent_and_pending t true v)
flush_on-sent_and_pending t (wrote k ∷ rest) c =
    let n = taken_of k (length c.pend) in
    let v : Sender = record (hand_over n c.pend c) { pend = skip n c.pend; writes = rest } in
    if_cases (λ d. sent_and_pending d ≡ sent_and_pending c) (length c.pend == 0) c
      (flush_on t rest v) (λ e. refl)
      (λ e.
        flush_on-sent_and_pending t rest v
        ∙ append_assoc c.written (take n c.pend) (skip n c.pend)
        ∙ ap (λ l. c.written ++ l) (take-skip n c.pend))

-- A client of the load generator loses no byte: what is sent by `SendBytes` and then flushed by
-- `FlushPend` stands, taken by the socket or pending, behind all that was sent before; or none of it
-- was sent and the client was dead before the flush.
pub flush_pend-send_bytes :
    (t : Churn) (data_out : List ℕ) (c : Sender)
    → let d = send_bytes t data_out c in
      (sent_and_pending (flush_pend t d) ≡ sent_and_pending c ++ data_out)
      ⊎ ((sent_and_pending (flush_pend t d) ≡ sent_and_pending c) × (is_dead d.state ≡ true))
unfolding flush_pend
flush_pend-send_bytes t data_out c =
    let d = send_bytes t data_out c in
    let kept = flush_on-sent_and_pending t d.writes d in
    elim (send_bytes-sent_and_pending data_out t c) [
      | inl all ↦ inl (kept ∙ all)
      | inr (nothing, gone) ↦ inr (kept ∙ nothing, gone)
    ]
