-- ===== src/Dummy/Client/Room.antt =====
-- The receive buffer of a client of the load generator (dummy/dummy_main.cpp): what `OnReadable`
-- leaves in it.
use mo_belt.Prelude.{
  ℕ, zero, suc, ◌+◌, ◌<◌, ◌≤◌, ◌≡◌, ◌⊎◌, inl, inr, refl, arith, Bool, true, false, if_cases, ltb,
  ◌==◌, if◌then◌else◌, Option, none, some, List, [], ◌∷◌, ◌++◌, length, take, skip, length-skip,
}
use mo_belt.Protocol.{
  header_bytes, header_size, max_packet_size, type_code, echo, s2c_join_ok, s2c_join_fail,
  s2c_snapshot,
}
use mo_belt.EpollWorker.{ReadAnswer, bytes, closed, read_again, read_interrupted, read_failed}
use mo_belt.EpollWorker.Frames.{bad_size}
use mo_belt.Dummy.Send.{is_dead}
use mo_belt.Dummy.Pending.{is_dead-kill}
use mo_belt.Dummy.Client.{
  Mode, Client, kill_client, is_joining, activate, take_echo, take_frame, parse_on, parse_frames,
  recv_size, is_slow, room_for, read_on, on_readable,
}

-- Dead, or with less in the buffer than the longest message.
abbrev pub HasRoom : Client → Type 0
HasRoom c = (is_dead c.sender.state ≡ true) ⊎ (length c.recv < max_packet_size)

-- What a length in bounds says.
good_size : (size : ℕ) → bad_size size ≡ false → (header_size ≤ size) × (size ≤ max_packet_size)
good_size size e = ground (arith, e)

waits_for : (n size : ℕ) → size ≤ max_packet_size → ltb n size ≡ true → n < max_packet_size
waits_for n size le e = ground (arith, le, e)

has_whole : (n size : ℕ) → ltb n size ≡ false → size ≤ n
has_whole n size e = ground (arith, e)

module _ (m : Mode) where
  killed-HasRoom : (b : Bool) (c : Client) → HasRoom (kill_client m b c)
  killed-HasRoom b c = inl (is_dead-kill m.churn b c.sender)

  -- What ends the parsing kills the client.
  take_frame-ends :
      (msg : List ℕ) (c : Client)
      → let (ends, d) = take_frame m msg c in ends ≡ true → is_dead d.sender.state ≡ true
  unfolding take_frame
  take_frame-ends msg c =
      let Kills : Bool × Client → Type 0 = λ x. x.0 ≡ true → is_dead x.1.sender.state ≡ true in
      let kind = (header_bytes msg).1 in
      let checked = take_echo m msg c in
      let killed = checked.checker.killed in
      if_cases Kills (kind == type_code echo)
        (killed, if killed then kill_client m false checked else checked) _
        (λ z e.
          if_cases (λ (d : Client). is_dead d.sender.state ≡ true) killed
            (kill_client m false checked) checked (λ k. is_dead-kill m.churn false checked.sender)
            (λ k. absurd ground (arith, e, k)))
        (λ z.
          if_cases Kills (kind == type_code s2c_join_ok)
            (false, if is_joining c.sender.state then activate c else c) _
            (λ z e. absurd ground (arith, e))
            (λ z.
              if_cases Kills (kind == type_code s2c_join_fail)
                (true, kill_client m false (record c { join_fail = c.join_fail + 1 })) _
                (λ z e. is_dead-kill m.churn false c.sender)
                (λ z.
                  if_cases Kills (kind == type_code s2c_snapshot)
                    (false, record c { snapshots = c.snapshots + 1 }) (false, c)
                    (λ z e. absurd ground (arith, e)) (λ z e. absurd ground (arith, e)))))

  parse_on-HasRoom :
      (fuel : ℕ) (left : List ℕ) (c : Client)
      → length left < fuel
      → HasRoom (parse_on m fuel left c)
  unfolding parse_on
  parse_on-HasRoom zero left c lt = absurd omega (arith, lt)
  parse_on-HasRoom (suc fuel) left c lt =
      let size = (header_bytes left).0 in
      let x = take_frame m (take size left) c in
      let more = parse_on m fuel (skip size left) x.1 in
      let rest = if x.0 then x.1 else more in
      let waits : Client = record c { recv = left } in
      if_cases HasRoom (ltb (length left) header_size) waits
        (if bad_size size
          then kill_client m false c
          else if ltb (length left) size
          then waits
          else rest)
        (λ e. inr (waits_for (length left) header_size (omega arith) e))
        (λ e.
          if_cases HasRoom (bad_size size) (kill_client m false c)
            (if ltb (length left) size then waits else rest) (λ b. killed-HasRoom false c)
            (λ b.
              if_cases HasRoom (ltb (length left) size) waits rest
                (λ s. inr (waits_for (length left) size (good_size size b).1 s))
                (λ s.
                  if_cases HasRoom x.0 x.1 more (λ z. inl (take_frame-ends (take size left) c z))
                    (λ z. parse_on-HasRoom fuel (skip size left) x.1 (
                      let big = (good_size size b).0 in
                      let whole = has_whole (length left) size s in
                      omega (arith, length-skip size left whole, big, whole, lt))))))

  read_on-HasRoom :
      (answers : List ReadAnswer) (c : Client) → HasRoom c → HasRoom (read_on m answers c)
  unfolding read_on parse_frames
  read_on-HasRoom [] c h =
      if_cases HasRoom (length c.recv == recv_size) (kill_client m false c) c
        (λ e. killed-HasRoom false c) (λ e. h)
  read_on-HasRoom (bytes b l ∷ rest) c h =
      let got = c.recv ++ take (room_for m c) (b ∷ l) in
      let u = parse_frames m (record c { reads = rest; recv = got }) in
      let done : HasRoom u =
        parse_on-HasRoom (length got + 1) got (record c { reads = rest; recv = got })
          (omega arith) in
      let more = read_on m rest u in
      let after = if is_slow m u then u else more in
      if_cases HasRoom (length c.recv == recv_size) (kill_client m false c)
        (if is_dead u.sender.state then u else after) (λ e. killed-HasRoom false c)
        (λ e.
          if_cases HasRoom (is_dead u.sender.state) u after (λ z. done)
            (λ z.
              if_cases HasRoom (is_slow m u) u more (λ z. done) (λ z. read_on-HasRoom rest u done)))
  read_on-HasRoom (closed ∷ rest) c h =
      if_cases HasRoom (length c.recv == recv_size) (kill_client m false c) _
        (λ e. killed-HasRoom false c) (λ e. killed-HasRoom true (record c { reads = rest }))
  read_on-HasRoom (read_again ∷ rest) c h =
      if_cases HasRoom (length c.recv == recv_size) (kill_client m false c)
        (record c { reads = rest }) (λ e. killed-HasRoom false c) (λ e. h)
  read_on-HasRoom (read_interrupted ∷ rest) c h =
      if_cases HasRoom (length c.recv == recv_size) (kill_client m false c)
        (read_on m rest (record c { reads = rest })) (λ e. killed-HasRoom false c)
        (λ e. read_on-HasRoom rest (record c { reads = rest }) h)
  read_on-HasRoom (read_failed ∷ rest) c h =
      if_cases HasRoom (length c.recv == recv_size) (kill_client m false c) _
        (λ e. killed-HasRoom false c) (λ e. killed-HasRoom true (record c { reads = rest }))

  -- A client that has less in its buffer than the longest message, or is dead, is so again when it has read
  -- all there was and cut the messages out of it.
  pub on_readable-HasRoom : (c : Client) → HasRoom c → HasRoom (on_readable m c)
  unfolding on_readable
  on_readable-HasRoom c h = reads c.sender.fd
    where
      reads :
          (fd : Option ℕ)
          → HasRoom (elim fd as (λ _. Client) [
            | none ↦ kill_client m (mo_belt.Prelude.not (length c.recv == recv_size)) c
            | some fd ↦ read_on m c.reads c
          ])
      reads none = killed-HasRoom _ c
      reads (some fd) = read_on-HasRoom c.reads c h
