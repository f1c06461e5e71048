-- ===== src/Dummy/Sending.antt =====
-- The state of a client of the load generator (dummy/dummy_main.cpp) and its share of the count of
-- active clients, in sending.
use mo_belt.Prelude.{
  ℕ, ◌+◌, ◌%◌, ◌^◌, ◌≡◌, Bool, true, false, if_cases, if◌then◌else◌, not, ltb, ◌==◌, none, some,
  List, [], ◌∷◌, length, skip,
}
use mo_belt.Prelude.Int.{ℤ, pos, ◌-ℤ◌}
use mo_belt.EpollWorker.{WriteAnswer, wrote, write_again, write_interrupted, write_failed, next_ctl}
use mo_belt.Dummy.{Settings, echo_packet}
use mo_belt.Dummy.Send.{
  Sender, Churn, CState, dead, is_dead, is_active, kill, hand_over, taken_of, keep_rest, write_now,
  send_bytes, flush_on, flush_pend, update_write, send_echo, pend_max,
}

-- What becomes of the count when a client dies.
abbrev pub count_after : CState → ℤ → ℤ
count_after s n = if is_active s then n -ℤ pos 1 else n

module _ (P : CState → ℤ → Type 0)
    (dies : (s : CState) (n : ℤ) → is_dead s ≡ false → P s n → P dead (count_after s n)) where
  abbrev pub Has : Sender → Type 0
  Has c = P c.state c.active_count

  pub kill-Has : (t : Churn) (b : Bool) (c : Sender) → Has c → Has (kill t b c)
  unfolding kill
  kill-Has t b c h =
      if_cases Has (is_dead c.state) c _ (λ e. h) (λ e. dies c.state c.active_count e h)

  keep_rest-Has : (n : ℕ) (l : List ℕ) (c : Sender) → Has c → Has (keep_rest n l c)
  unfolding keep_rest
  keep_rest-Has n l c h = if_cases Has (ltb n (length l)) _ c (λ e. h) (λ e. h)

  write_now-Has :
      (t : Churn) (l : List ℕ) (answers : List WriteAnswer) (c : Sender)
      → Has c
      → Has (write_now t l answers c)
  unfolding write_now
  write_now-Has t l [] c h = keep_rest-Has 0 l c h
  write_now-Has t l (write_again ∷ rest) c h = keep_rest-Has 0 l (record c { writes = rest }) h
  write_now-Has t l (write_interrupted ∷ rest) c h =
      keep_rest-Has 0 l (record c { writes = rest }) h
  write_now-Has t l (write_failed ∷ rest) c h = kill-Has t true (record c { writes = rest }) h
  write_now-Has t l (wrote more ∷ rest) c h =
      let n = taken_of more (length l) in
      keep_rest-Has n l (hand_over n l (record c { writes = rest })) h

  pub send_bytes-Has : (t : Churn) (l : List ℕ) (c : Sender) → Has c → Has (send_bytes t l c)
  unfolding send_bytes
  send_bytes-Has t l c h =
      if_cases Has (length c.pend == 0) (write_now t l c.writes c) _
        (λ e. write_now-Has t l c.writes c h)
        (λ e.
          if_cases Has (ltb pend_max (length c.pend + length l)) _ _
            (λ z. kill-Has t false (record c { pend_overflow = c.pend_overflow + 1 }) h) (λ z. h))

  flush_on-Has :
      (t : Churn) (answers : List WriteAnswer) (c : Sender) → Has c → Has (flush_on t answers c)
  unfolding flush_on
  flush_on-Has t [] c h = h
  flush_on-Has t (write_again ∷ rest) c h =
      if_cases Has (length c.pend == 0) c (record c { writes = rest }) (λ e. h) (λ e. h)
  flush_on-Has t (write_interrupted ∷ rest) c h =
      let v : Sender = record c { writes = rest } in
      if_cases Has (length c.pend == 0) c (flush_on t rest v) (λ e. h)
        (λ e. flush_on-Has t rest v h)
  flush_on-Has t (write_failed ∷ rest) c h =
      let v : Sender = record c { writes = rest } in
      if_cases Has (length c.pend == 0) c (kill t true v) (λ e. h) (λ e. kill-Has t true v h)
  flush_on-Has t (wrote k ∷ rest) c h =
      let n = taken_of k (length c.pend) in
      let v : Sender = record (hand_over n c.pend c) { pend = skip n c.pend; writes = rest } in
      if_cases Has (length c.pend == 0) c (flush_on t rest v) (λ e. h)
        (λ e. flush_on-Has t rest v h)

  pub flush_pend-Has : (t : Churn) (c : Sender) → Has c → Has (flush_pend t c)
  unfolding flush_pend
  flush_pend-Has t c h = flush_on-Has t c.writes c h

  pub update_write-Has : (want : Bool) (c : Sender) → Has c → Has (update_write want c)
  unfolding update_write
  update_write-Has want c h =
      let (ok, ctls) = next_ctl c.ctls in
      let no_fd = elim c.fd as (λ _. Bool) [ none ↦ true | some fd ↦ false ] in
      let heard : Sender = record c { ctls = ctls } in
      let armed : Sender = record heard { want_write = want } in
      let asked = if ok then armed else heard in
      if_cases Has (if want then c.want_write else not c.want_write) c (if no_fd then c else asked)
        (λ e. h)
        (λ e.
          if_cases Has no_fd c asked (λ z. h) (λ z. if_cases Has ok armed heard (λ y. h) (λ y. h)))

  pub send_echo-Has :
      (g : Settings) (t : Churn) (sent_ns : ℕ) (c : Sender) → Has c → Has (send_echo g t sent_ns c)
  unfolding send_echo
  send_echo-Has g t sent_ns c h =
      let seq = (c.echo_seq + 1) % 2 ^ 64 in
      let v = send_bytes t (echo_packet g c.seed seq sent_ns) (record c { echo_seq = seq }) in
      let sent : Has v =
        send_bytes-Has t (echo_packet g c.seed seq sent_ns) (record c { echo_seq = seq }) h in
      if_cases Has (is_dead v.state) v _ (λ e. sent)
        (λ e.
          if_cases Has (length v.pend == 0) v (update_write true v) (λ z. sent)
            (λ z. update_write-Has true v sent))
