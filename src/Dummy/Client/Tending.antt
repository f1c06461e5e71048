-- ===== src/Dummy/Client/Tending.antt =====
-- How a client of the load generator (dummy/dummy_main.cpp) and `g_stats.active` go together: its
-- events and its turns.
use mo_belt.Prelude.{
  ℕ, ◌+◌, ◌%◌, ◌^◌, ◌≡◌, ◌∙◌, ap, refl, arith, Bool, true, false, ◌&&◌, ◌||◌, if_cases,
  if◌then◌else◌, not, ltb, leb, ◌==◌, Option, none, some,
}
use mo_belt.Prelude.Int.{ℤ, pos, ◌-ℤ◌}
use mo_belt.Protocol.{join_msg, protocol_version, input_msg}
use mo_belt.EpollWorker.Read.{Ready}
use mo_belt.Dummy.Send.{
  CState, idle, connecting, joining, active, dead, is_dead, is_active, send_bytes, update_write,
  send_echo, flush_pend,
}
use mo_belt.Dummy.Sending.{
  count_after, send_bytes-Has, update_write-Has, send_echo-Has, flush_pend-Has,
}
use mo_belt.Dummy.Client.{
  Mode, Client, kill_client, activate, is_slow, on_readable, ask, read_later, sender_to,
  waits_to_send, on_connected,
}
use mo_belt.Dummy.Client.Turn.{
  is_connecting, no_fd, on_writable, on_event, Place, not_connected, begin, start_connect,
  next_turn, note_silence, push, send_input, act, tend,
}
use mo_belt.Dummy.Client.Counted.{
  Counts, Counted, Counts-dies, uncounted, kill_client-Counted, activate-Counted,
  on_readable-Counted,
}

-- Who is not active stays so in sending.
abbrev Quiet : CState → ℤ → Type 0
Quiet s n = (is_active s ≡ false) × (n ≡ pos 0)

Quiet-dies : (s : CState) (n : ℤ) → is_dead s ≡ false → Quiet s n → Quiet dead (count_after s n)
Quiet-dies s n e h = (refl, ap (λ b. if b then n -ℤ pos 1 else n) h.0 ∙ h.1)

connecting_inactive : (s : CState) → is_connecting s ≡ true → is_active s ≡ false
connecting_inactive idle e = refl
connecting_inactive connecting e = refl
connecting_inactive joining e = refl
connecting_inactive active e = absurd ground (arith, e)
connecting_inactive dead e = refl

pub dead_inactive : (s : CState) → is_dead s ≡ true → is_active s ≡ false
dead_inactive idle e = refl
dead_inactive connecting e = refl
dead_inactive joining e = refl
dead_inactive active e = absurd ground (arith, e)
dead_inactive dead e = refl

module _ (m : Mode) where
  ask-Counted : (c : Client) → Counted c → Counted (ask c)
  unfolding ask
  ask-Counted c h = h

  armed-Counted : (want : Bool) (c : Client) → Counted c → Counted (sender_to (update_write want) c)
  armed-Counted want c h = update_write-Has Counts Counts-dies want c.sender h

  on_connected-Counted :
      (err : ℕ) (c : Client)
      → is_active c.sender.state ≡ false
      → Counted c
      → Counted (on_connected m err c)
  unfolding on_connected
  on_connected-Counted err c off h =
      let failed = kill_client m false c in
      let here = activate c in
      let right = activate-Counted m c off h in
      let deaf = sender_to (λ s. record s { want_write = false }) (ask here) in
      let deaf_right : Counted deaf = ask-Counted here right in
      let asked = sender_to (send_bytes m.churn (join_msg protocol_version)) c in
      let still =
        send_bytes-Has Quiet Quiet-dies m.churn (join_msg protocol_version) c.sender
          (off, uncounted c.sender.state c.sender.active_count off h) in
      let joins = sender_to (λ s. record s { state = joining }) asked in
      if_cases Counted (not (err == 0)) (record failed { connect_fail = failed.connect_fail + 1 }) _
        (λ e. kill_client-Counted m false c h)
        (λ e.
          if_cases Counted m.echo_mode _ (sender_to (update_write (waits_to_send joins)) joins)
            (λ z.
              if_cases Counted c.attacker (if ltb 0 m.slow_recv_ms then read_later m deaf else deaf)
                (sender_to (update_write (waits_to_send here)) here)
                (λ y.
                  if_cases Counted (ltb 0 m.slow_recv_ms) (read_later m deaf) deaf (λ x. deaf_right)
                    (λ x. deaf_right))
                (λ y. armed-Counted (waits_to_send here) here right))
            (λ z. armed-Counted (waits_to_send joins) joins still.1))

  on_writable-Counted : (c : Client) → Counted c → Counted (on_writable m c)
  unfolding on_writable
  on_writable-Counted c h =
      let v = sender_to (flush_pend m.churn) c in
      let right : Counted v = flush_pend-Has Counts Counts-dies m.churn c.sender h in
      if_cases Counted (waits_to_send v) v (sender_to (update_write false) v) (λ e. right)
        (λ e. armed-Counted false v right)

  pub on_event-Counted :
      (err : ℕ) (e : Ready) (c : Client) → Counted c → Counted (on_event m err e c)
  unfolding on_event
  on_event-Counted err e c h =
      let v = if e.writable then on_writable m c else c in
      let u = on_readable m v in
      let heard = if is_slow m u && is_active u.sender.state then read_later m (ask u) else u in
      let v_right : Counted v =
        if_cases Counted e.writable (on_writable m c) c (λ y. on_writable-Counted c h) (λ y. h) in
      let u_right = on_readable-Counted m v v_right in
      if_cases Counted (is_dead c.sender.state || no_fd c) c _ (λ z. h)
        (λ z.
          if_cases Counted e.broken (kill_client m true c) _ (λ y. kill_client-Counted m true c h)
            (λ y.
              if_cases Counted (is_connecting c.sender.state && e.writable) (on_connected m err c) _
                (λ x.
                  on_connected-Counted err c
                    (connecting_inactive c.sender.state (ground (arith, x))) h)
                (λ x.
                  if_cases Counted e.readable heard v
                    (λ w.
                      if_cases Counted (is_slow m u && is_active u.sender.state)
                        (read_later m (ask u)) u (λ s. ask-Counted u u_right) (λ s. u_right))
                    (λ w. v_right))))

  pub start_connect-Counted :
      (p : Place) (c : Client)
      → is_active c.sender.state ≡ false
      → Counted c
      → Counted (start_connect m p c)
  unfolding start_connect not_connected begin ask
  start_connect-Counted p c off h = answer p.socket
    where
      zero_now : c.sender.active_count ≡ pos 0
      zero_now = uncounted c.sender.state c.sender.active_count off h

      answer :
          (o : Option ℕ)
          → Counted (elim o as (λ _. Client) [
            | none ↦ not_connected c
            | some fd ↦ if p.connects then begin m p fd c else not_connected c
          ])
      answer none = zero_now
      answer (some fd) =
          if_cases Counted p.connects (begin m p fd c) (not_connected c) (λ e. zero_now)
            (λ e. zero_now)

  push-Counted : (c : Client) → Counted c → Counted (push m c)
  unfolding push ask
  push-Counted c h =
      let listening : Client = record (ask c) { next_recv = 0 } in
      let due = ltb 0 m.slow_recv_ms && (not (c.next_recv == 0) && leb c.next_recv m.churn.now) in
      if_cases (λ d. Counted (sender_to (send_echo m.sizes m.churn m.churn.now) d)) due listening c
        (λ e. send_echo-Has Counts Counts-dies m.sizes m.churn m.churn.now listening.sender h)
        (λ e. send_echo-Has Counts Counts-dies m.sizes m.churn m.churn.now c.sender h)

  send_input-Counted : (period : ℕ) (c : Client) → Counted c → Counted (send_input m period c)
  unfolding send_input next_turn
  send_input-Counted period c h =
      let seq = (c.seq + 1) % 2 ^ 32 in
      let msg = input_msg (record { seq = seq; mx = pos 0; my = pos 0; attack = 0; skill = 0 }) in
      let sent = sender_to (send_bytes m.churn msg) (record c { seq = seq }) in
      let right : Counted sent = send_bytes-Has Counts Counts-dies m.churn msg c.sender h in
      let armed = if waits_to_send sent then sender_to (update_write true) sent else sent in
      if_cases Counted (is_dead sent.sender.state) sent _ (λ e. right)
        (λ e.
          if_cases Counted (waits_to_send sent) (sender_to (update_write true) sent) sent
            (λ y. armed-Counted true sent right) (λ y. right))

  act-Counted : (period : ℕ) (c : Client) → Counted c → Counted (act m period c)
  unfolding act next_turn
  act-Counted period c h =
      let echoed = sender_to (send_echo m.sizes m.churn m.churn.now) c in
      let right : Counted echoed =
        send_echo-Has Counts Counts-dies m.sizes m.churn m.churn.now c.sender h in
      if_cases Counted (m.echo_mode && c.attacker) (push m c) _ (λ e. push-Counted c h)
        (λ e.
          if_cases Counted (ltb m.churn.now c.next_input) c _ (λ y. h)
            (λ y.
              if_cases Counted (not m.echo_mode) (send_input m period c) _
                (λ x. send_input-Counted period c h)
                (λ x.
                  if_cases Counted (ltb 0 m.over_send && leb m.over_send c.sender.pending)
                    (next_turn m period c) _ (λ w. h)
                    (λ w.
                      if_cases Counted (is_dead echoed.sender.state) echoed
                        (next_turn m period echoed) (λ v. right) (λ v. right)))))

  note_silence-Counted : (c : Client) → Counted c → Counted (note_silence m c)
  unfolding note_silence
  note_silence-Counted c h = if_cases Counted _ _ c (λ e. h) (λ e. h)

  pub tend-Counted : (period : ℕ) (p : Place) (c : Client) → Counted c → Counted (tend m period p c)
  unfolding tend
  tend-Counted period p c h =
      let again = start_connect m p c in
      let back =
        is_dead c.sender.state
        && (not (c.sender.reconnect_at == 0) && leb c.sender.reconnect_at m.churn.now) in
      if_cases Counted back (record again { reconnects = again.reconnects + 1 }) _
        (λ e. start_connect-Counted p c (dead_inactive c.sender.state (ground (arith, e))) h)
        (λ e.
          if_cases Counted (not (is_active c.sender.state)) c _ (λ y. h)
            (λ y.
              if_cases Counted (not (c.churn_at == 0) && leb c.churn_at m.churn.now)
                (kill_client m false c) (act m period (note_silence m c))
                (λ x. kill_client-Counted m false c h)
                (λ x. act-Counted period (note_silence m c) (note_silence-Counted c h))))
