-- ===== src/Dummy/Client/Counted.antt =====
-- How a client of the load generator (dummy/dummy_main.cpp) and `g_stats.active` go together: what
-- it receives.
use mo_belt.Prelude.{
  ℕ, zero, suc, ◌+◌, ◌≡◌, ◌∙◌, ap, refl, arith, Bool, true, false, if_cases, if◌then◌else◌, not,
  ltb, ◌==◌, Option, none, some, List, [], ◌∷◌, ◌++◌, length, take, skip, to_ℕ,
}
use mo_belt.Prelude.Int.{ℤ, pos, ◌+ℤ◌, ◌-ℤ◌}
use mo_belt.Protocol.{
  header_bytes, header_size, type_code, echo, s2c_join_ok, s2c_join_fail, s2c_snapshot,
}
use mo_belt.EpollWorker.{ReadAnswer, bytes, closed, read_again, read_interrupted, read_failed}
use mo_belt.EpollWorker.Frames.{bad_size}
use mo_belt.Dummy.Send.{CState, idle, connecting, joining, active, dead, is_dead, is_active}
use mo_belt.Dummy.Sending.{count_after, kill-Has}
use mo_belt.Dummy.Client.{
  Mode, Client, kill_client, is_joining, activate, take_echo, take_frame, parse_on, parse_frames,
  recv_size, is_slow, room_for, read_on, on_readable,
}

abbrev pub Counts : CState → ℤ → Type 0
Counts s n = n ≡ pos (to_ℕ (is_active s))

-- A client's share of the count is right.
abbrev pub Counted : Client → Type 0
Counted c = Counts c.sender.state c.sender.active_count

pub Counts-dies :
    (s : CState) (n : ℤ) → is_dead s ≡ false → Counts s n → Counts dead (count_after s n)
unfolding ◌-ℤ◌
Counts-dies idle n e h = h
Counts-dies connecting n e h = h
Counts-dies joining n e h = h
Counts-dies active n e h = ap (λ k. k -ℤ pos 1) h
Counts-dies dead n e h = h

pub joining_inactive : (s : CState) → is_joining s ≡ true → is_active s ≡ false
joining_inactive idle e = refl
joining_inactive connecting e = refl
joining_inactive joining e = refl
joining_inactive active e = absurd ground (arith, e)
joining_inactive dead e = refl

-- Who is not active does not count.
pub uncounted : (s : CState) (n : ℤ) → is_active s ≡ false → Counts s n → n ≡ pos 0
uncounted s n e h = h ∙ ap (λ b. pos (to_ℕ b)) e

module _ (m : Mode) where
  pub kill_client-Counted : (b : Bool) (c : Client) → Counted c → Counted (kill_client m b c)
  kill_client-Counted b c h = kill-Has Counts Counts-dies m.churn b c.sender h

  pub activate-Counted :
      (c : Client) → is_active c.sender.state ≡ false → Counted c → Counted (activate c)
  unfolding activate ◌+ℤ◌
  activate-Counted c e h = ap (λ k. k +ℤ pos 1) (uncounted c.sender.state c.sender.active_count e h)

  take_echo-Counted : (msg : List ℕ) (c : Client) → Counted c → Counted (take_echo m msg c)
  unfolding take_echo
  take_echo-Counted msg c h = h

  take_frame-Counted : (msg : List ℕ) (c : Client) → Counted c → Counted (take_frame m msg c).1
  unfolding take_frame
  take_frame-Counted msg c h =
      let Fine : Bool × Client → Type 0 = λ x. Counted x.1 in
      let kind = (header_bytes msg).1 in
      let checked = take_echo m msg c in
      let killed = checked.checker.killed in
      let right = take_echo-Counted msg c h in
      if_cases Fine (kind == type_code echo)
        (killed, if killed then kill_client m false checked else checked) _
        (λ z.
          if_cases Counted killed (kill_client m false checked) checked
            (λ k. kill_client-Counted false checked right) (λ k. right))
        (λ z.
          if_cases Fine (kind == type_code s2c_join_ok)
            (false, if is_joining c.sender.state then activate c else c) _
            (λ z.
              if_cases Counted (is_joining c.sender.state) (activate c) c
                (λ j. activate-Counted c (joining_inactive c.sender.state j) h) (λ j. h))
            (λ z.
              if_cases Fine (kind == type_code s2c_join_fail)
                (true, kill_client m false (record c { join_fail = c.join_fail + 1 })) _
                (λ z. kill_client-Counted false (record c { join_fail = c.join_fail + 1 }) h)
                (λ z.
                  if_cases Fine (kind == type_code s2c_snapshot)
                    (false, record c { snapshots = c.snapshots + 1 }) (false, c) (λ z. h)
                    (λ z. h))))

  parse_on-Counted :
      (fuel : ℕ) (left : List ℕ) (c : Client) → Counted c → Counted (parse_on m fuel left c)
  unfolding parse_on
  parse_on-Counted zero left c h = h
  parse_on-Counted (suc fuel) left c h =
      let size = (header_bytes left).0 in
      let x = take_frame m (take size left) c in
      let more = parse_on m fuel (skip size left) x.1 in
      let rest = if x.0 then x.1 else more in
      let waits : Client = record c { recv = left } in
      let right = take_frame-Counted (take size left) c h in
      if_cases Counted (ltb (length left) header_size) waits
        (if bad_size size
          then kill_client m false c
          else if ltb (length left) size
          then waits
          else rest)
        (λ e. h)
        (λ e.
          if_cases Counted (bad_size size) (kill_client m false c)
            (if ltb (length left) size then waits else rest) (λ b. kill_client-Counted false c h)
            (λ b.
              if_cases Counted (ltb (length left) size) waits rest (λ s. h)
                (λ s.
                  if_cases Counted x.0 x.1 more (λ z. right)
                    (λ z. parse_on-Counted fuel (skip size left) x.1 right))))

  -- A read into a buffer that may be full.
  unless_full :
      (c d : Client)
      → Counted c
      → Counted d
      → Counted (if length c.recv == recv_size then kill_client m false c else d)
  unless_full c d h g =
      if_cases Counted (length c.recv == recv_size) (kill_client m false c) d
        (λ e. kill_client-Counted false c h) (λ e. g)

  read_on-Counted :
      (answers : List ReadAnswer) (c : Client) → Counted c → Counted (read_on m answers c)
  unfolding read_on parse_frames
  read_on-Counted [] c h = unless_full c c h h
  read_on-Counted (bytes b l ∷ rest) c h =
      let got = c.recv ++ take (room_for m c) (b ∷ l) in
      let v : Client = record c { reads = rest; recv = got } in
      let u = parse_frames m v in
      let more = read_on m rest u in
      let done : Counted u = parse_on-Counted (length got + 1) got v h in
      unless_full c (if is_dead u.sender.state then u else if is_slow m u then u else more) h (
        if_cases Counted (is_dead u.sender.state) u _ (λ z. done)
          (λ z.
            if_cases Counted (is_slow m u) u more (λ z. done) (λ z. read_on-Counted rest u done)))
  read_on-Counted (closed ∷ rest) c h =
      let v : Client = record c { reads = rest } in
      unless_full c (kill_client m true v) h (kill_client-Counted true v h)
  read_on-Counted (read_again ∷ rest) c h = unless_full c (record c { reads = rest }) h h
  read_on-Counted (read_interrupted ∷ rest) c h =
      let v : Client = record c { reads = rest } in
      unless_full c (read_on m rest v) h (read_on-Counted rest v h)
  read_on-Counted (read_failed ∷ rest) c h =
      let v : Client = record c { reads = rest } in
      unless_full c (kill_client m true v) h (kill_client-Counted true v h)

  pub on_readable-Counted : (c : Client) → Counted c → Counted (on_readable m c)
  unfolding on_readable
  on_readable-Counted c h = reads c.sender.fd
    where
      reads :
          (fd : Option ℕ)
          → Counted (elim fd as (λ _. Client) [
            | none ↦ kill_client m (not (length c.recv == recv_size)) c
            | some fd ↦ read_on m c.reads c
          ])
      reads none = kill_client-Counted _ c h
      reads (some fd) = read_on-Counted c.reads c h
