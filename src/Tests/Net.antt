-- ===== src/Tests/Net.antt =====
-- The theorems on the epoll worker, at a server that accepts one client.
use mo_belt.Prelude.{
  sym, take-length, ℕ, ◌≡◌, ◌≢◌, ◌⊎◌, refl, inl, inr, arith, true, false, some, List, [], ◌∷◌, ◌++◌,
  take, length, ◌<◌,
}
use mo_belt.RingBuffer.{IsQueue}
use mo_belt.Metrics.{no_counts}
use mo_belt.Room.{no_member}
use mo_belt.Session.{Session, blank_session}
use mo_belt.Session.Pool.{fill_free, put_slot}
use mo_belt.Session.Invariant.{init-PoolOk}
use mo_belt.RoomManager.{Server}
use mo_belt.RoomManager.Books.{BooksOk, mailed-none}
use mo_belt.RoomManager.Alloc.{fill_rooms, blank_room}
use mo_belt.EpollWorker.{
  World, Kernel, bytes, accepted, wrote, write_again, slot, put, send_bytes, flush_send, disconnect,
}
use mo_belt.EpollWorker.Dispatch.{dispatch}
use mo_belt.EpollWorker.Read.{Ready, parse_on, received}
use mo_belt.EpollWorker.Loop.{loop_round, listen_tag, cleanup, pack_tag, unpack_tag}
use mo_belt.EpollWorker.NetOk.{NetOk}
use mo_belt.EpollWorker.Rounds.{AllHeard, loop_round-NetOk}
use mo_belt.EpollWorker.Rounds.Cleanup.{cleanup_lem}
use mo_belt.EpollWorker.Frames.{cut_stream, frame_size, later}
use mo_belt.EpollWorker.Frames.Streams.{AllFrames}
use mo_belt.EpollWorker.Wire.Arrival.{parse_on-join_all, parse_on-received}
use mo_belt.EpollWorker.Wire.Parse.{deliver, deliver_on, parse_on-deliver}
use mo_belt.EpollWorker.Wire.Flush.{
  sent_and_left, flush_send-sent_and_left, send_bytes-sent_and_left, flush_send_lem,
}
use mo_belt.EpollWorker.Errors.{welcome_message, dispatch_other, unpack_tag-pack_tag}
use mo_belt.Tests.Values.{whole_fpu, list_ring, two_sessions, nowhere}

abbrev list_ring-IsQueue : IsQueue list_ring
list_ring-IsQueue = record {
  contents = λ b. b;
  size_is = λ b. refl;
  peek_is = λ b n. refl;
  dequeue_is = λ b n le. (refl, refl);
  enqueue_is = λ b d. inr (refl, refl);
  send_is = λ b. sym (take-length b);
  consume_is = λ b n le. refl;
  append_is = λ b d le. refl;
  direct_some = λ b n. n;
  direct_le = λ b. omega arith;
}

abbrev idle_server : Server (List ℕ)
idle_server = record {
  rooms = mo_belt.RoomManager.Alloc.init whole_fpu 2 1;
  sessions = two_sessions;
  dirty = λ w i. false;
  counters = no_counts;
}

-- A client waits to be accepted; the first bytes that it sends are an echo.
abbrev pub idle_kernel : Kernel
idle_kernel = record {
  reads = bytes 6 (0 ∷ 1 ∷ 0 ∷ 7 ∷ 8 ∷ []) ∷ [];
  writes = wrote 2 ∷ write_again ∷ [];
  accepts = accepted 7 ∷ [];
  ctls = [];
  written = λ d. [];
  closed_fds = [];
}

abbrev idle : World (List ℕ)
idle = record {
  id = 0;
  mine = [];
  listening = true;
  polling = true;
  kernel = idle_kernel;
  now = 0;
  next_tick = λ w. 0;
  server = idle_server;
}

abbrev no_lists : ℕ → ℕ → ℕ
no_lists k j = 0

abbrev Nobody : ℕ → Type 0
Nobody j = j ≢ j

idle-NetOk : NetOk nowhere nowhere no_lists 0 Nobody idle
unfolding mo_belt.Session.Pool.init fill_free blank_session mo_belt.RoomManager.Alloc.init
    fill_rooms blank_room no_member
idle-NetOk = record {
  books = record {
    workers = omega arith;
    pool = init-PoolOk list_ring 2;
    balance = λ j. ground arith;
    tagged = λ i lt. (λ k b on. ground arith, ground arith);
    seats = λ i lt. record {
      each = λ k b. ground arith;
      seated = ground arith;
      reserved = ground arith;
      counted = ground arith;
    };
    room_idx = λ i lt. ground arith;
    one_place = λ i. ground (arith, mailed-none i);
    vacant = λ i n. ground arith;
    opened = λ i. ground arith;
  };
  once = λ j. omega arith;
  alive = λ j n. absurd (n refl);
  heard = λ j k. absurd (k refl);
  bound = λ j o d e. absurd (e (ground arith));
  claims = λ j o d e. absurd (e (ground arith));
  number = refl;
}

abbrev on_input_only : Ready
on_input_only = record { broken = false; readable = true; writable = false }

-- The listening socket is ready.
abbrev pub knock : List (ℕ × Ready)
knock = (listen_tag, on_input_only) ∷ []

knock-AllHeard : AllHeard Nobody knock
unfolding AllHeard unpack_tag
knock-AllHeard = (inl refl, tt)

abbrev serving : World (List ℕ)
serving = loop_round whole_fpu list_ring knock idle

serving-NetOk : NetOk nowhere nowhere no_lists 0 Nobody serving
serving-NetOk =
    loop_round-NetOk whole_fpu list_ring nowhere nowhere no_lists 0 knock Nobody idle knock-AllHeard
      idle-NetOk

loop_round_example :
    NetOk nowhere nowhere no_lists 0 Nobody (loop_round whole_fpu list_ring knock idle)
loop_round_example =
    loop_round-NetOk whole_fpu list_ring nowhere nowhere no_lists 0 knock Nobody idle knock-AllHeard
      idle-NetOk

cleanup_example :
    let v = cleanup serving in
    (v.mine ≡ [])
    × ((j : ℕ) → mo_belt.Session.Invariant.times j serving.mine ≢ 0 → (slot v j).dead ≡ true)
    × BooksOk nowhere nowhere v.server.rooms v.server.sessions
    × (v.listening ≡ false)
    × (v.polling ≡ false)
cleanup_example = cleanup_lem nowhere nowhere no_lists 0 Nobody serving serving-NetOk

-- Session 0 with a socket, an echo and the start of another message in its receive ring, and two
-- bytes to be sent.
abbrev pub busy : World (List ℕ)
busy =
    put 0
      (record (slot idle 0) {
        fd = some 7;
        recv_q = 6 ∷ 0 ∷ 1 ∷ 0 ∷ 7 ∷ 8 ∷ 6 ∷ [];
        send_q = 1 ∷ 2 ∷ [];
      })
      idle

parse_example :
    parse_on whole_fpu list_ring 8 0 busy
    ≡ deliver whole_fpu list_ring 0 (cut_stream (6 ∷ 0 ∷ 1 ∷ 0 ∷ 7 ∷ 8 ∷ 6 ∷ [])) busy
parse_example = parse_on-deliver whole_fpu list_ring 0 list_ring-IsQueue 8 busy (omega arith)

-- The rest of the second message arrives, and one more.
abbrev rest_of_it : List ℕ
rest_of_it = 0 ∷ 1 ∷ 0 ∷ 9 ∷ 9 ∷ 4 ∷ 0 ∷ 1 ∷ 0 ∷ []

received_bytes : length (slot (received list_ring rest_of_it 0 busy) 0).recv_q < 17
unfolding received
received_bytes = omega arith

stream_example :
    parse_on whole_fpu list_ring 17 0 (received list_ring rest_of_it 0 busy)
    ≡ deliver whole_fpu list_ring 0
        (later (cut_stream (slot busy 0).recv_q) (take 8192 rest_of_it))
        (received list_ring rest_of_it 0 busy)
stream_example =
    parse_on-received whole_fpu list_ring 0 list_ring-IsQueue 17 rest_of_it busy received_bytes

abbrev two_echoes : List (List ℕ)
two_echoes = (6 ∷ 0 ∷ 1 ∷ 0 ∷ 7 ∷ 8 ∷ []) ∷ (4 ∷ 0 ∷ 1 ∷ 0 ∷ []) ∷ []

two_echoes-AllFrames : AllFrames two_echoes
unfolding AllFrames frame_size mo_belt.Protocol.header_bytes
two_echoes-AllFrames = (
  record { header = omega arith; bound = omega arith; size = refl },
  (record { header = omega arith; bound = omega arith; size = refl }, tt),
)

-- Both are in the ring, and the first byte of a third.
abbrev full_ring : World (List ℕ)
full_ring =
    put 0 (record (slot idle 0) { recv_q = 6 ∷ 0 ∷ 1 ∷ 0 ∷ 7 ∷ 8 ∷ 4 ∷ 0 ∷ 1 ∷ 0 ∷ 6 ∷ [] }) idle

frames_example :
    parse_on whole_fpu list_ring 12 0 full_ring
    ≡ deliver_on whole_fpu list_ring 0 two_echoes false (6 ∷ []) full_ring
frames_example =
    parse_on-join_all whole_fpu list_ring 0 list_ring-IsQueue 12 two_echoes (6 ∷ []) full_ring
      (omega arith) refl two_echoes-AllFrames (omega arith)

flush_example :
    sent_and_left list_ring list_ring-IsQueue 0 7 (flush_send list_ring 0 busy)
    ≡ sent_and_left list_ring list_ring-IsQueue 0 7 busy
flush_example = flush_send-sent_and_left list_ring list_ring-IsQueue 0 7 busy refl

send_example :
    let v = send_bytes list_ring 0 (3 ∷ []) busy in
    let all = sent_and_left list_ring list_ring-IsQueue 0 7 in
    (all v ≡ all busy ++ (3 ∷ [])) ⊎ ((all v ≡ all busy) × ((slot v 0).dead ≡ true))
send_example = send_bytes-sent_and_left list_ring list_ring-IsQueue 0 7 (3 ∷ []) busy refl

settled_example :
    let v = flush_send list_ring 0 busy in
    ((slot v 0).dead ≡ true)
    ⊎ ((list_ring-IsQueue.contents (slot v 0).send_q ≡ []) ⊎ ((slot v 0).want_write ≡ true))
settled_example = flush_send_lem list_ring list_ring-IsQueue 0 7 busy refl

unknown : welcome_message (4 ∷ 0 ∷ 99 ∷ 0 ∷ []) ≡ false
unfolding welcome_message mo_belt.Protocol.header_bytes mo_belt.Protocol.type_code
unknown = refl

other_example :
    (dispatch whole_fpu list_ring 0 (4 ∷ 0 ∷ 99 ∷ 0 ∷ []) busy ≡ disconnect 0 busy)
    × ((slot (dispatch whole_fpu list_ring 0 (4 ∷ 0 ∷ 99 ∷ 0 ∷ []) busy) 0).dead ≡ true)
other_example = dispatch_other whole_fpu list_ring 0 (4 ∷ 0 ∷ 99 ∷ 0 ∷ []) busy unknown

tag_example :
    (unpack_tag (pack_tag 3 9) ≡ (3, 9))
    × (3 ≢ listen_tag → (unpack_tag (pack_tag 3 9)).0 ≢ listen_tag)
tag_example = unpack_tag-pack_tag 3 9 (omega arith)
