-- ===== src/Lib.antt =====
-- The belt server (server/src): clients hold sessions, sessions sit in rooms of four, and game
-- workers tick the rooms 60 times a second.
--
-- Parts and files
--   Session, Session/Pool     server/src/Session.h: `Session`, and `SessionPool` with `Init`, `Alloc`,
--                             `AddRef`, `Release`; Session/Invariant and Session/Noted are on them.
--   Protocol                  server/src/Protocol.h: the messages as bytes; Protocol/Bytes and
--                             Protocol/Quant hold fields and coordinates, Protocol/Layout the laws.
--   Room                      server/src/Room.h: the structures and the spawn tables. Room/Seats is
--                             the seat ledger, Room/Holds the references that a room holds.
--   Sim                       server/src/Sim.cpp and Constants.h: `SimStep`; Sim/Bounds is on it.
--   RoomManager               server/src/RoomManager.cpp. RoomManager/Alloc: `Init`, `ResetWorld`,
--                             `AllocRoomSlotLocked`, `FreeRoomIfDrained`. RoomManager/Join: `Join`
--                             and `OnSessionLeave`. RoomManager/Queues: `ProcessRoomQueues`.
--                             RoomManager/Input, RoomManager/Snapshot and RoomManager/Tick:
--                             `PushInput`, `RoomTick` and `ExitCheckAndMaybeTransfer`.
--                             RoomManager/Transfer: `TransferRoom`, with Transfer/Whole and
--                             Transfer/Books/Carries on it. RoomManager/Books is the invariant that
--                             these share.
--   GameWorker                server/src/GameWorker.cpp: `RecordOversleep`, `Loop`, `TickOnce` and
--                             `DrainRoomAddQ`; GameWorker/Pacing and GameWorker/Rooms are on them.
--   EpollWorker               server/src/EpollWorker.h and EpollWorker.cpp: the state, the kernel's
--                             answers, `SendBytes`, `FlushSend`, `UpdateWriteInterest` and
--                             `Disconnect`. EpollWorker/Dispatch: `Dispatch`. EpollWorker/Read:
--                             `ParseFrames`, `ReadSession`, `HandleSession`. EpollWorker/Loop:
--                             `HandleAccept`, `Loop`, `CleanupInThread`. EpollWorker/NetOk is what a
--                             worker keeps; Disconnecting, Flushing, Sending, Serving, Reading and
--                             Rounds are on it.
--                             EpollWorker/Frames is the framing of a byte stream apart from any
--                             ring, EpollWorker/Wire the bytes in the rings, EpollWorker/Errors what
--                             breaks the protocol. RoomManager/Ping: `GetPingInfo`.
--   DirtyMap                  `DirtyMap` of server/src/Session.h, word by word; DirtyMap/Bits,
--                             DirtyMap/Scan and DirtyMap/Drain are on it, EpollWorker/Rounds/Dirty
--                             on its use. `Server` has a set of flags in its place.
--   Dummy                     dummy/dummy_main.cpp: the packets of the echo mode (`Mix64`,
--                             `EchoSizeFor`, `FillPad`, `SendEcho`) and the check of the replies in
--                             `ParseFrames`; Dummy/Padding, Dummy/Check and Dummy/Damage are on them.
--                             Dummy/Send: `SendBytes`, `FlushPend`, `UpdateWrite` and `Kill`, with
--                             Dummy/Pending on it.
--                             Dummy/Client: `ParseFrames`, `OnReadable` and a socket that has
--                             connected; Dummy/Client/Turn: `OnEvent`, `StartConnect` and a round of
--                             `Loop`; Dummy/Client/Loop: `Start` and all its rounds; Parsing, Echoes,
--                             Room, Counted, Tending and Loop/Counting are on them, and Dummy/Sending
--                             on how they send. Dummy/Gate: `p99Of` and
--                             the verdict of `main`; Dummy/Text: `BuildDummyText` and
--                             `Local::Flush`; Dummy/Start: the arguments and the shares of workers.
--   Metrics                   the counters of server/src/Metrics.h that this code writes.
--                             Metrics/Text: `BuildText` of server/src/Metrics.cpp, as rows;
--                             Metrics/Histogram is on it. Metrics/Http: a connection of
--                             `metrics::Server::Loop`.
--   System                    server/src/main.cpp, with `NetService` and `GameService`: the pools of
--                             `main`, the workers, and their steps in any order; System/Ledger is
--                             the invariant of the whole, System/Rounds and System/Ticks say what a
--                             step does to it, System/Reachable what follows, and System/Startup is
--                             `main` up to the point where all threads run.
--   RingBuffer, Double        parameters: the ring buffers of the ServerCore submodule, and the
--                             arithmetic of C++ doubles with its IEEE laws.
--   Prelude, Tests            shared helpers; concrete inputs for the theorems.
--
-- How they interact: the kernel wakes an epoll worker (`loop_round`), which accepts clients, reads
-- and cuts up their bytes and calls `join`, `on_session_leave` and `push_input`, which write to the
-- queues of a room. The game worker that owns the room applies the queues, routes the inputs,
-- steps the world and writes snapshots to the send rings (`tick_once`). A session keeps its slot
-- while somebody refers to it: its epoll worker, a member, or a join in a queue.
--
-- The workers as one system: `Step` is a round of one epoll worker, its end, or a tick of one game
-- worker, on what `main` shares between them and on what the worker keeps to itself; `Reach` is any
-- sequence of such steps, `Stopping` one that ends with `NetService::Stop`.
--
-- Conventions: the state is the record `Server`, passed along; a method is one step, so the
-- interleavings between two critical sections of one method are not modelled, nor those within a
-- round or a tick. Memory orders and locks are left out. A vector that is used as a stack is a list
-- whose head is its back. 32-bit generations, ticks and loads wrap around; counters of metrics,
-- reference counts and `emptyStreak` stay far below their bounds and are plain numbers. An int of the
-- load generator that is only asked whether it is above 0 is a plain number too. The counter of its active
-- clients is signed: each client keeps what it has added, and the counter is the sum.
--
-- Bounds and fuel: the do-while loop of `Loop` runs at most 3 rounds (`kMaxCatchupSteps`), its fuel.
-- The loop of `TickOnce` drops or passes one room in each round, so the length of the list is fuel
-- enough. The search of `RecordOversleep` passes 8 bounds. `ParseFrames` has a round for each byte in the
-- ring, and one more, where each round takes 4 bytes or more. `Drain` has a round for each of 64
-- bits, `FillPad` one for each byte. The loops around `read`, `write` and
-- `accept4` run along the list of the kernel's answers; past its end a call would block. Other loops
-- are over fixed ranges or lists.
--
-- The loop of `p99Of` and those of the texts run along the bounds of the buckets; the reads and
-- writes of the metrics server run along lists of what each call hands over.
--
-- Not modelled: threads and the handling of signals; the digits that `snprintf` prints, the clocks of
-- threads, and the accept loop of the metrics server with its start and stop; SelfTest.cpp, which tests
-- the ring buffers of the submodule; and the file that the load generator dumps violations to.
-- `EPOLL_CTL_DEL` and `close` have no answer, since the code ignores it, and the events that a socket of
-- the load generator is registered for are not kept. The clock of the load generator does not run
-- backwards and stands still during one of its rounds.
pub mod Prelude
pub mod Double
pub mod RingBuffer
pub mod Protocol
pub mod Metrics
pub mod Session
pub mod DirtyMap
pub mod Room
pub mod Sim
pub mod RoomManager
pub mod GameWorker
pub mod System
pub mod EpollWorker
pub mod Dummy
pub mod Tests
