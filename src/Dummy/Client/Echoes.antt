-- ===== src/Dummy/Client/Echoes.antt =====
-- `ParseFrames` of the load generator (dummy/dummy_main.cpp), on whole streams of echoes.
use mo_belt.Prelude.{
  ℕ, suc, ◌+◌, ◌-◌, ◌<◌, ◌%◌, ◌^◌, ◌==◌, if◌then◌else◌, ◌≡◌, ◌∙◌, refl, sym, ap, arith, Bool, true,
  false, List, [], ◌∷◌, ◌++◌, append-nil, length, if_cases,
}
use mathlib.Core.Path.{subst}
use mo_belt.Protocol.{header, header_bytes, type_code, echo}
use mo_belt.EpollWorker.Frames.{Cut, frame_size, cut_stream, join_all}
use mo_belt.EpollWorker.Frames.Streams.{IsFrame, AllFrames, cut_stream-join_all}
use mo_belt.Dummy.{
  Settings, Checker, echo_min, echo_size_for, fill_pad, echo_packet, on_echo, note_arrival,
}
use mo_belt.Dummy.Padding.{Fits, echo_size_for-Fits}
use mo_belt.Dummy.Check.{head, head-size, length-padded, packet_parts, on_echo-echo_packet}
use mo_belt.Dummy.Client.{Mode, Client, kill_client, take_echo, take_frame, parse_frames}
use mo_belt.Dummy.Client.Parsing.{take_frames, take_cut, parse_frames-take_cut}

-- The packets from number `seq` on, sent at `times`, one behind the other.
abbrev pub packets : Settings → (seed seq : ℕ) → List ℕ → List (List ℕ)
packets g seed seq [] = []
packets g seed seq (t ∷ times) = echo_packet g seed seq t ∷ packets g seed (seq + 1) times

abbrev pub AllBelow : ℕ → List ℕ → Type 0
AllBelow n [] = Unit
AllBelow n (t ∷ times) = (t < n) × AllBelow n times

module _ (g : Settings) (fits : Fits g) where
  -- A packet is a message of the protocol.
  echo_packet-IsFrame : (seed seq t : ℕ) → IsFrame (echo_packet g seed seq t)
  unfolding frame_size
  echo_packet-IsFrame seed seq t =
      let size = echo_size_for g seed seq in
      let (low, high) = echo_size_for-Fits g seed seq fits in
      let whole = head size seq t ++ fill_pad (size - echo_min) seed seq in
      let len : length whole ≡ size = length-padded seed seq t size low in
      subst IsFrame (sym (packet_parts g seed seq t fits)) (record {
        header = omega (arith, len, low);
        bound = omega (arith, len, high);
        size =
            head-size size seq t (fill_pad (size - echo_min) seed seq) (omega (arith, high))
            ∙ sym len;
      })

  -- Its type is ECHO.
  head-kind : (size seq t : ℕ) (pad : List ℕ) → (header_bytes (head size seq t ++ pad)).1 ≡ 1
  unfolding header header_bytes
  head-kind size seq t pad = refl

  echo_packet-kind : (seed seq t : ℕ) → (header_bytes (echo_packet g seed seq t)).1 ≡ 1
  echo_packet-kind seed seq t =
      ap (λ msg. (header_bytes msg).1) (packet_parts g seed seq t fits)
      ∙ head-kind (echo_size_for g seed seq) seq t _

  packets-AllFrames : (seed seq : ℕ) (times : List ℕ) → AllFrames (packets g seed seq times)
  unfolding AllFrames
  packets-AllFrames seed seq [] = tt
  packets-AllFrames seed seq (t ∷ times) =
      (echo_packet-IsFrame seed seq t, packets-AllFrames seed (seq + 1) times)

-- The checker before a packet, and after it has passed.
abbrev checker_of : Client → Checker
checker_of c = record (c.checker) {
  seed = c.sender.seed;
  pending = c.sender.pending;
  killed = false;
}

abbrev passed : ℕ → ℕ → Checker → Checker
passed now t k = record (note_arrival now t k) { expect_recv = (k.expect_recv + 1) % 2 ^ 64 }

abbrev with_checker : Checker → Client → Client
with_checker k c = record c { checker = k; sender = record (c.sender) { pending = k.pending } }

-- What a number of packets that have passed leave of a client.
record Unharmed (n : ℕ) (c d : Client) : Type 0 where
  expects : d.checker.expect_recv ≡ c.checker.expect_recv + n
  received : d.checker.echo_recv ≡ c.checker.echo_recv + n
  pad_error : d.checker.pad_error ≡ c.checker.pad_error
  order_error : d.checker.order_error ≡ c.checker.order_error
  late_arrival : d.checker.late_arrival ≡ c.checker.late_arrival
  stop : d.checker.stop ≡ c.checker.stop
  seed : d.sender.seed ≡ c.sender.seed
  state : d.sender.state ≡ c.sender.state
  recv : d.recv ≡ c.recv

-- What passing does to a client, seen from outside.
abbrev pub Clean : ℕ → Client → Client → Type 0
Clean n c d =
    (d.recv ≡ [])
    × (d.checker.expect_recv ≡ c.checker.expect_recv + n)
    × (d.checker.echo_recv ≡ c.checker.echo_recv + n)
    × (d.checker.pad_error ≡ c.checker.pad_error)
    × (d.checker.order_error ≡ c.checker.order_error)
    × (d.checker.late_arrival ≡ c.checker.late_arrival)
    × (d.checker.stop ≡ c.checker.stop)
    × (d.sender.state ≡ c.sender.state)

module _ (m : Mode) (fits : Fits m.sizes) (verify : m.sizes.verify ≡ true) where
  take_frame-packet :
      (t : ℕ) (c : Client)
      → c.checker.expect_recv < 2 ^ 64
      → t < 2 ^ 64
      → take_frame m (echo_packet m.sizes c.sender.seed c.checker.expect_recv t) c
        ≡ (false, with_checker (passed m.churn.now t (checker_of c)) c)
  unfolding take_frame take_echo note_arrival type_code
  take_frame-packet t c due time =
      let msg = echo_packet m.sizes c.sender.seed c.checker.expect_recv t in
      let kind : ((header_bytes msg).1 == type_code echo) ≡ true =
        ap (λ k. k == type_code echo)
          (echo_packet-kind m.sizes fits c.sender.seed c.checker.expect_recv t) in
      let judged : on_echo m.sizes m.churn.now msg (checker_of c)
          ≡ passed m.churn.now t (checker_of c) =
        on_echo-echo_packet m.sizes m.churn.now t (checker_of c) fits verify due time in
      let after : Checker → Bool × Client = λ k.
        (k.killed, if k.killed then kill_client m false (with_checker k c) else with_checker k c) in
      rw kind (ap after judged)

  one_more :
      (n t : ℕ) (c d : Client)
      → c.checker.expect_recv + suc n < 2 ^ 64
      → Unharmed n (with_checker (passed m.churn.now t (checker_of c)) c) d
      → Unharmed (suc n) c d
  unfolding note_arrival
  one_more n t c d due h = record {
    expects = omega (arith, h.expects, due);
    received = omega (arith, h.received);
    pad_error = h.pad_error;
    order_error = h.order_error;
    late_arrival = h.late_arrival;
    stop = h.stop;
    seed = h.seed;
    state = h.state;
    recv = h.recv;
  }

  take_frames-packets :
      (times : List ℕ) (c : Client)
      → c.checker.expect_recv + length times < 2 ^ 64
      → AllBelow (2 ^ 64) times
      → let (ends, d) =
          take_frames m (packets m.sizes c.sender.seed c.checker.expect_recv times) c in
        (ends ≡ false) × Unharmed (length times) c d
  unfolding take_frames
  take_frames-packets [] c due below = (
    refl,
    record {
      expects = omega arith;
      received = omega arith;
      pad_error = refl;
      order_error = refl;
      late_arrival = refl;
      stop = refl;
      seed = refl;
      state = refl;
      recv = refl;
    },
  )
  take_frames-packets (t ∷ times) c due below =
      let now_due : c.checker.expect_recv < 2 ^ 64 = omega (arith, due) in
      let d = with_checker (passed m.churn.now t (checker_of c)) c in
      let first = take_frame-packet t c now_due below.0 in
      let number : d.checker.expect_recv ≡ c.checker.expect_recv + 1 = omega (arith, due) in
      let later = take_frames-packets times d (omega (arith, due, number)) below.1 in
      let msgs = packets m.sizes c.sender.seed (c.checker.expect_recv + 1) times in
      let same : take_frames m (packets m.sizes d.sender.seed d.checker.expect_recv times) d
          ≡ take_frames m msgs d =
        ap (λ k. take_frames m (packets m.sizes c.sender.seed k times) d) number in
      let Good : Bool × Client → Type 0 =
        λ x. (x.0 ≡ false) × Unharmed (suc (length times)) c x.1 in
      let After : Bool × Client → Type 0 =
        λ x. Good (if x.0 then (true, x.1) else take_frames m msgs x.1) in
      let Later : Bool × Client → Type 0 = λ x. (x.0 ≡ false) × Unharmed (length times) d x.1 in
      let rest : Later (take_frames m msgs d) = subst Later same later in
      subst After (sym first)
        (rest.0, one_more (length times) t c (take_frames m msgs d).1 due rest.1)

  -- Packets that come back as they were sent, in order and however many of them in one buffer, all pass:
  -- nothing is left in the buffer, every packet is counted, no error is, and the number that is due next
  -- is the one after them.
  pub parse_frames-packets :
      (times : List ℕ) (c : Client)
      → c.checker.expect_recv + length times < 2 ^ 64
      → AllBelow (2 ^ 64) times
      → c.recv ≡ join_all (packets m.sizes c.sender.seed c.checker.expect_recv times)
      → Clean (length times) c (parse_frames m c)
  unfolding take_cut
  parse_frames-packets times c due below same =
      let msgs = packets m.sizes c.sender.seed c.checker.expect_recv times in
      let cut : Cut = record { messages = msgs; broken = false; left = [] } in
      let read : cut_stream c.recv ≡ cut =
        ap cut_stream (same ∙ sym (append-nil (join_all msgs)))
        ∙ cut_stream-join_all msgs []
            (packets-AllFrames m.sizes fits c.sender.seed c.checker.expect_recv times)
            (omega arith) in
      let (goes_on, h) = take_frames-packets times c due below in
      let x = take_frames m msgs c in
      subst (Clean (length times) c)
        (sym (parse_frames-take_cut m c ∙ ap (λ k. take_cut m k c) read))
        (if_cases (Clean (length times) c) x.0 x.1 (record (x.1) { recv = [] })
          (λ e. absurd ground (arith, e, goes_on))
          (λ e. (
            refl, h.expects, h.received, h.pad_error, h.order_error, h.late_arrival, h.stop,
            h.state,
          )))
