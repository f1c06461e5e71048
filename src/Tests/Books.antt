-- ===== src/Tests/Books.antt =====
-- The theorems on the books, at a server where one session joins.
use mo_belt.Prelude.{ℕ, ◌+◌, ◌≡◌, ◌≢◌, refl, List, [], arith, if◌then◌else◌, update}
use mo_belt.Session.Invariant.{times}
use mo_belt.RoomManager.{Server}
use mo_belt.RoomManager.Books.{BooksOk}
use mo_belt.RoomManager.Alloc.{fill_rooms, alloc_slot, alloc_from, least_loaded}
use mo_belt.RoomManager.Join.{join, find_seat, seek_room, sit, found_room, admit}
use mo_belt.RoomManager.Join.Books.{join-BooksOk}
use mo_belt.RoomManager.Queues.{process_room_queues}
use mo_belt.RoomManager.Queues.Process.{process_room_queues-BooksOk}
use mo_belt.RoomManager.Transfer.Books.Settle.{after_move}
use mo_belt.RoomManager.Transfer.Books.Carries.{Carries}
use mo_belt.RoomManager.Tick.{room_tick}
use mo_belt.RoomManager.Tick.Books.{room_tick-BooksOk}
use mo_belt.GameWorker.{drain_room_add_q, tick_once}
use mo_belt.GameWorker.Rooms.{BooksFor, drain-BooksFor, tick_once-BooksFor}
use mo_belt.Tests.Values.{
  whole_fpu, list_ring, empty_server, live_one, nowhere, empty_server-BooksOk,
}

abbrev joined_server : Server (List ℕ)
joined_server = (join whole_fpu 0 empty_server).1

alive : live_one 0 ≢ 0
alive e = omega arith

joined-BooksOk : BooksOk live_one nowhere joined_server.rooms joined_server.sessions
joined-BooksOk = join-BooksOk live_one nowhere whole_fpu 0 empty_server empty_server-BooksOk alive

-- The worker has taken room 0 from its mailbox.
abbrev owned_server : Server (List ℕ)
owned_server = (drain_room_add_q 0 [] joined_server).1

abbrev owned_rooms : ℕ → ℕ
owned_rooms k = nowhere k + times k (drain_room_add_q 0 [] joined_server).0

owned-BooksOk : BooksOk live_one owned_rooms owned_server.rooms owned_server.sessions
owned-BooksOk =
    drain-BooksFor live_one whole_fpu list_ring 0 nowhere [] joined_server (omega arith)
      joined-BooksOk

mine : owned_rooms 0 ≡ 1
unfolding drain_room_add_q join find_seat seek_room sit alloc_slot alloc_from least_loaded
    found_room admit mo_belt.RoomManager.Alloc.init fill_rooms
mine = refl

tick_once_example : BooksFor live_one nowhere (tick_once whole_fpu list_ring 0 ([], joined_server))
tick_once_example =
    tick_once-BooksFor live_one whole_fpu list_ring 0 nowhere [] joined_server (omega arith)
      joined-BooksOk

join_example :
    let t = (join whole_fpu 0 empty_server).1 in BooksOk live_one nowhere t.rooms t.sessions
join_example = join-BooksOk live_one nowhere whole_fpu 0 empty_server empty_server-BooksOk alive

process_room_queues_example :
    let (died, t) = process_room_queues whole_fpu 0 owned_server in
    BooksOk live_one (if died then update owned_rooms 0 0 else owned_rooms) t.rooms t.sessions
process_room_queues_example =
    process_room_queues-BooksOk whole_fpu owned_server 0 owned-BooksOk mine

room_tick_example :
    let (got, t) = room_tick whole_fpu list_ring 0 owned_server in
    BooksOk live_one (after_move owned_rooms 0 got) t.rooms t.sessions
room_tick_example =
    room_tick-BooksOk live_one owned_rooms whole_fpu list_ring 0 owned_server owned-BooksOk mine

-- The joined session is a member now.
abbrev seated_server : Server (List ℕ)
seated_server = (process_room_queues whole_fpu 0 owned_server).1
