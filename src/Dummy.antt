-- ===== src/Dummy.antt =====
-- dummy/dummy_main.cpp, the load generator: the packets of its echo mode, whose size and padding follow
-- from a seed and a number, and the check of what the server sends back.
pub mod Padding
pub mod Check
pub mod Damage
pub mod Send
pub mod Pending
pub mod Sending
pub mod Client
pub mod Gate
pub mod Text
pub mod Start
use mo_belt.Prelude.{
  ℕ, zero, suc, ◌+◌, ◌-◌, ◌*◌, ◌/◌, ◌%◌, ◌^◌, Bool, true, false, not, ◌&&◌, if◌then◌else◌, ltb, leb,
  ◌==◌, List, [], ◌∷◌, ◌++◌, length, take, skip, update,
}
use mo_belt.Prelude.Int.{ℤ, pos, pos_part, ltb_ℤ}
use mo_belt.Protocol.{echo, header, header_bytes}
use mo_belt.Protocol.Bytes.{le, read_le}

-- `a ^ b` on the low `n` bits.
unfoldable pub bit_xor : ℕ → ℕ → ℕ → ℕ
bit_xor zero a b = 0
bit_xor (suc n) a b = (a + b) % 2 + 2 * bit_xor n (a / 2) (b / 2)

-- `Mix64`.
unfoldable pub mix64 : ℕ → ℕ
unfolding bit_xor
mix64 x =
    let a = (x + 11400714819323198485) % 2 ^ 64 in
    let b = bit_xor 64 a (a / 2 ^ 30) * 13787848793156543929 % 2 ^ 64 in
    let c = bit_xor 64 b (b / 2 ^ 27) * 10723151780598845931 % 2 ^ 64 in bit_xor 64 c (c / 2 ^ 31)

-- `g_pktMin`, `g_pktMax`, `g_verify` and `g_failFast`, as `main` leaves them.
pub record Settings : Type 0 where
  pub pkt_min : ℕ
  pub pkt_max : ℕ
  pub verify : Bool
  pub fail_fast : Bool

-- `EchoSizeFor`.
unfoldable pub echo_size_for : Settings → (seed seq : ℕ) → ℕ
unfolding mix64 bit_xor
echo_size_for g seed seq =
    let span = g.pkt_max - g.pkt_min + 1 in
    let draw = mix64 (bit_xor 64 seed (seq * 15111065706836454659 % 2 ^ 64)) in
    if leb g.pkt_max g.pkt_min then g.pkt_min % 2 ^ 16 else (g.pkt_min + draw % span) % 2 ^ 16

-- `FillPad`: eight bytes in each round, at most `fuel` rounds.
unfoldable pub fill_on : (fuel n s : ℕ) → List ℕ
unfolding mix64
fill_on zero n s = []
fill_on (suc fuel) n s =
    let t = mix64 s in
    let chunk = if ltb n 8 then n else 8 in
    let rest = fill_on fuel (n - chunk) t in if n == 0 then [] else take chunk (le 8 t) ++ rest

-- `FillPad`; a round for each byte is enough.
unfoldable pub fill_pad : (n seed seq : ℕ) → List ℕ
unfolding fill_on bit_xor
fill_pad n seed seq = fill_on n n (bit_xor 64 seed seq)

-- `kEchoMin`.
abbrev pub echo_min : ℕ
echo_min = 20

-- The packet that `SendEcho` builds, of which it sends `size` bytes.
unfoldable pub echo_packet : Settings → (seed seq sent_ns : ℕ) → List ℕ
unfolding echo_size_for fill_pad header
echo_packet g seed seq sent_ns =
    let size = echo_size_for g seed seq in
    let head = header echo size ++ le 8 seq ++ le 8 sent_ns in
    take size (if ltb echo_min size then head ++ fill_pad (size - echo_min) seed seq else head)

-- What the check reads and writes of a `Client`, of `_local` and of `g_stats`.
pub record Checker : Type 0 where
  pub seed : ℕ
  pub expect_recv : ℕ
  pub pending : ℕ
  pub last_recv_ns : ℕ
  pub not_recv_flagged : Bool
  pub killed : Bool
  pub echo_recv : ℕ
  pub rtt_max_us : ℕ
  pub rtt_buckets : ℕ → ℕ
  pub pad_error : ℕ
  pub order_error : ℕ
  pub late_arrival : ℕ
  pub stop : Bool

-- `memcmp(...) == 0` on equally long pieces.
abbrev pub same_bytes : List ℕ → List ℕ → Bool
same_bytes [] [] = true
same_bytes [] (b ∷ m) = false
same_bytes (a ∷ l) [] = false
same_bytes (a ∷ l) (b ∷ m) = a == b && same_bytes l m

-- `kRttBucketUs`, and the index of the first bound that a time does not pass.
abbrev pub rtt_bounds : List ℕ
rtt_bounds = 50 ∷ 100 ∷ 200 ∷ 500 ∷ 1000 ∷ 2000 ∷ 5000 ∷ 10000 ∷ 40000 ∷ []

unfoldable pub rtt_bucket : ℕ → List ℕ → ℕ
rtt_bucket us [] = 0
rtt_bucket us (b ∷ bs) = let more = rtt_bucket us bs in if ltb b us then suc more else 0

-- `(now - sentNs) / 1000` on int64_t. A negative time is 0 here: like 0 it belongs to the first bucket and
-- does not raise the maximum.
unfoldable pub round_trip : (now sent_ns : ℕ) → ℕ
round_trip now sent_ns =
    let apart = (now + 2 ^ 64 - sent_ns) % 2 ^ 64 in if ltb apart (2 ^ 63) then apart / 1000 else 0

-- What is noted of a packet before it is checked.
unfoldable pub note_arrival : (now sent_ns : ℕ) → Checker → Checker
unfolding rtt_bucket round_trip
note_arrival now sent_ns c =
    let us = round_trip now sent_ns in
    let b = rtt_bucket us rtt_bounds in
    record c {
      echo_recv = c.echo_recv + 1;
      rtt_max_us = if ltb c.rtt_max_us us then us else c.rtt_max_us;
      rtt_buckets = update c.rtt_buckets b (c.rtt_buckets b + 1);
      pending = c.pending - 1;
      last_recv_ns = now;
      not_recv_flagged = false;
    }

-- A size or a padding that is not the one of the number.
unfoldable pub note_damage : Settings → Checker → Checker
note_damage g c = record c {
  pad_error = c.pad_error + 1;
  stop = if g.fail_fast then true else c.stop;
}

-- The first two parts of the check.
unfoldable pub check_content : Settings → (size seq : ℕ) → (pad : List ℕ) → Checker → Checker
unfolding echo_size_for fill_pad note_damage
check_content g size seq pad c =
    let expect = fill_pad (size - echo_min) c.seed seq in
    if not (echo_size_for g c.seed seq == size)
    then note_damage g c
    else if ltb echo_min size && not (same_bytes expect pad)
    then note_damage g c
    else c

-- The third: the order of the numbers.
unfoldable pub check_order : Settings → ℕ → Checker → Checker
check_order g seq c =
    if seq == c.expect_recv
    then record c { expect_recv = (c.expect_recv + 1) % 2 ^ 64 }
    else if ltb seq c.expect_recv
    then record c { late_arrival = c.late_arrival + 1 }
    else record c {
      order_error = c.order_error + 1;
      stop = if g.fail_fast then true else c.stop;
      expect_recv = (seq + 1) % 2 ^ 64;
    }

-- The case of ECHO in `ParseFrames`.
unfoldable pub on_echo : Settings → (now : ℕ) → List ℕ → Checker → Checker
unfolding check_content check_order note_arrival note_damage header_bytes
on_echo g now msg c =
    let size = (header_bytes msg).0 in
    let seq = read_le 8 (skip 4 msg) in
    let noted = note_arrival now (read_le 8 (skip 12 msg)) c in
    if ltb size echo_min
    then record (note_damage g c) { killed = true }
    else if g.verify
    then check_order g seq (check_content g size seq (skip echo_min msg) noted)
    else noted

-- What `main` makes of the ints that it is given as bounds. They are not negative any more then.
unfoldable pub clamp_sizes : (pkt_min pkt_max : ℤ) → (verify fail_fast : Bool) → Settings
clamp_sizes pkt_min pkt_max verify fail_fast =
    let low = if ltb_ℤ pkt_min (pos echo_min) then pos echo_min else pkt_min in
    let high = if ltb_ℤ (pos 1024) pkt_max then pos 1024 else pkt_max in
    record {
      pkt_min = pos_part low;
      pkt_max = pos_part (if ltb_ℤ high low then low else high);
      verify = verify;
      fail_fast = fail_fast;
    }
