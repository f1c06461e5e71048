-- ===== src/GameWorker/Sockets.antt =====
-- A tick of a game worker (server/src/GameWorker.cpp) and the socket side of the sessions.
use mo_belt.Prelude.{
  ℕ, zero, suc, refl, not, ◌||◌, if_cases, ◌==◌, Bool, true, false, Option, none, some, List, [],
  ◌∷◌, for_below, for_below_inv, length, ◌%◌,
}
use mathlib.Core.Path.{subst}
use mo_belt.Double.{Fpu}
use mo_belt.RingBuffer.{Ring}
use mo_belt.Room.{Room, Member, RoomJoinEntry, RoomLeaveEntry, room_members}
use mo_belt.Session.Pool.{SessionPool, release}
use mo_belt.Session.Link.{
  SameSocket, SameSocket-refl, SameSocket-trans, SameLink-SameSocket, put_slot-SameSocket,
  release-SameLink,
}
use mo_belt.Protocol.{snapshot_msg, room_event_msg}
use mo_belt.RoomManager.{Server, put_room}
use mo_belt.RoomManager.Input.{route_all, consume_all}
use mo_belt.RoomManager.Join.Link.{alloc_from-sessions}
use mo_belt.RoomManager.Alloc.{alloc_slot, free_room}
use mo_belt.RoomManager.Queues.{
  Work, is_stale, apply_join, apply_joins, find_member, apply_leave, apply_leaves, drain_queues,
  is_drained, retire, process_room_queues,
}
use mo_belt.RoomManager.Snapshot.{
  is_gone, enqueue_to, offer_snapshot, send_snapshots, snapshot_size, snapshot,
}
use mo_belt.RoomManager.Transfer.{
  Moving, redirect, move_one, move_member, carry_join, carry_joins, move_in, notify, settle,
  transfer_to, transfer_room, room_event_size, reserve_seat, move_event,
}
use mo_belt.RoomManager.Tick.{exit_check, tick_body, room_tick, all_arrived, advance}
use mo_belt.GameWorker.{drain_room_add_q, back_first, moved_or, tick_rooms, tick_once}

module _ {Buf : Type 0} where
  release-SameSocket : (p : SessionPool Buf) (k : ℕ) → SameSocket p (release p k)
  release-SameSocket p k = SameLink-SameSocket (release-SameLink p k)

  -- The queues of a room: references are given back, no more.
  apply_joins-SameSocket :
      (f : Fpu) (es : List RoomJoinEntry) (w : Work Buf)
      → SameSocket w.sessions (apply_joins f es w).sessions
  unfolding apply_joins apply_join
  apply_joins-SameSocket f [] w = SameSocket-refl w.sessions
  apply_joins-SameSocket f (e ∷ es) w =
      SameSocket-trans
        (if_cases (λ (v : Work Buf). SameSocket w.sessions v.sessions) (is_stale w.sessions e) _ _
          (λ z. release-SameSocket w.sessions e.sess_idx) (λ z. SameSocket-refl w.sessions))
        (apply_joins-SameSocket f es (apply_join f e w))

  apply_leaves-SameSocket :
      (es : List RoomLeaveEntry) (w : Work Buf) → SameSocket w.sessions (apply_leaves es w).sessions
  unfolding apply_leaves apply_leave
  apply_leaves-SameSocket [] w = SameSocket-refl w.sessions
  apply_leaves-SameSocket (e ∷ es) w =
      SameSocket-trans (left (find_member e w.room.members))
        (apply_leaves-SameSocket es (apply_leave e w))
    where
      left :
          (seat : Option ℕ)
          → SameSocket w.sessions
              (elim seat as (λ _. Work Buf) [
                | none ↦ w
                | some i ↦ record {
                  room =
                      mo_belt.RoomManager.Queues.give_back i
                        (mo_belt.RoomManager.Queues.unseat i w.room);
                  sessions = release w.sessions e.sess_idx;
                }
              ]).sessions
      left none = SameSocket-refl w.sessions
      left (some i) = release-SameSocket w.sessions e.sess_idx

  process_room_queues-SameSocket :
      (f : Fpu) (i : ℕ) (s : Server Buf)
      → SameSocket s.sessions (process_room_queues f i s).1.sessions
  unfolding process_room_queues drain_queues retire free_room
  process_room_queues-SameSocket f i s =
      let r = s.rooms.slots i in
      let start : Work Buf = record {
        room = record r { pending_join = []; pending_leave = [] };
        sessions = s.sessions;
      } in
      let done =
        SameSocket-trans (apply_joins-SameSocket f r.pending_join start)
          (apply_leaves-SameSocket r.pending_leave (apply_joins f r.pending_join start)) in
      if_cases (λ (v : Bool × Server Buf). SameSocket s.sessions v.1.sessions)
        (is_drained (drain_queues f (record { room = r; sessions = s.sessions })).room) _ _
        (λ z. done) (λ z. done)

  -- The move to another room: sessions learn of their new room.
  redirect-SameSocket :
      (i gen room : ℕ) (p : SessionPool Buf) → SameSocket p (redirect i gen room p)
  unfolding redirect
  redirect-SameSocket i gen room p =
      if_cases (SameSocket p) ((p.slots i).gen == gen) _ p
        (λ z. put_slot-SameSocket p i _ refl refl refl) (λ z. SameSocket-refl p)

  carry_joins-SameSocket :
      (es : List RoomJoinEntry) (t : Moving Buf) → SameSocket t.sessions (carry_joins es t).sessions
  unfolding carry_joins carry_join
  carry_joins-SameSocket [] t = SameSocket-refl t.sessions
  carry_joins-SameSocket (e ∷ es) t =
      SameSocket-trans (redirect-SameSocket e.sess_idx e.sess_gen t.room.idx t.sessions)
        (carry_joins-SameSocket es (carry_join e t))

  move_member-SameSocket :
      (f : Fpu) (i : ℕ) (t : Moving Buf) → SameSocket t.sessions (move_member f i t).sessions
  unfolding move_member move_one
  move_member-SameSocket f i t =
      let m = t.old_members i in
      if_cases (λ (u : Moving Buf). SameSocket t.sessions u.sessions) m.used (move_one f i t) t
        (λ z. redirect-SameSocket m.sess_idx m.sess_gen t.room.idx t.sessions)
        (λ z. SameSocket-refl t.sessions)

  move_in-SameSocket :
      (f : Fpu) (old new : Room) (p : SessionPool Buf) → SameSocket p (move_in f old new p).sessions
  unfolding move_in
  move_in-SameSocket f old new p =
      let start : Moving Buf = record {
        old_members = old.members;
        room = new;
        sessions = p;
        moved = 0;
      } in
      let a = for_below room_members (move_member f) start in
      let b = record (a.room) {
        world = record (a.room.world) { tick = old.world.tick };
        tick_atomic = old.world.tick;
        ever_reserved = true;
      } in
      SameSocket-trans
        (for_below_inv (λ (t : Moving Buf). SameSocket p t.sessions) (move_member f) room_members
          start (λ i t lt h. SameSocket-trans h (move_member-SameSocket f i t)) (SameSocket-refl p))
        (carry_joins-SameSocket old.pending_join
          (record a { room = for_below room_members reserve_seat b }))

  module _ (r : Ring Buf) where
    -- What is sent from a room goes to a send ring.
    enqueue_to-SameSocket :
        (m : Member) (bytes : List ℕ) (s : Server Buf)
        → SameSocket s.sessions (enqueue_to r m bytes s).1.sessions
    unfolding enqueue_to
    enqueue_to-SameSocket m bytes s = put_slot-SameSocket s.sessions m.sess_idx _ refl refl refl

    offer_snapshot-SameSocket :
        (bytes : List ℕ) (m : Member) (s : Server Buf)
        → SameSocket s.sessions (offer_snapshot r bytes m s).sessions
    unfolding offer_snapshot
    offer_snapshot-SameSocket bytes m s =
        let t = enqueue_to r m bytes s in
        let sent = enqueue_to-SameSocket m bytes s in
        let Same : Server Buf → Type 0 = λ u. SameSocket s.sessions u.sessions in
        if_cases Same (not m.used || is_gone r m s) s _ (λ z. SameSocket-refl s.sessions)
          (λ z. if_cases Same (t.0 == snapshot_size) _ _ (λ z. sent) (λ z. sent))

    notify-SameSocket :
        (f : Fpu) (room : Room) (i : ℕ) (s : Server Buf)
        → SameSocket s.sessions (notify f r room i s).sessions
    unfolding notify
    notify-SameSocket f room i s =
        let m = room.members i in
        let bytes = room_event_msg (move_event f r room.idx i) in
        let t = enqueue_to r m bytes s in
        let sent = enqueue_to-SameSocket m bytes s in
        let Same : Server Buf → Type 0 = λ u. SameSocket s.sessions u.sessions in
        if_cases Same (not m.used || is_gone r m s) s _ (λ z. SameSocket-refl s.sessions)
          (λ z. if_cases Same (t.0 == room_event_size) _ t.1 (λ z. sent) (λ z. sent))

  module _ (f : Fpu) (r : Ring Buf) where
    settle-SameSocket :
        (i n : ℕ) (s : Server Buf) → SameSocket s.sessions (settle f r i n s).sessions
    unfolding settle free_room
    settle-SameSocket i n s = move_in-SameSocket f (s.rooms.slots i) (s.rooms.slots n) s.sessions

    transfer_to-SameSocket :
        (i : ℕ) (x : Option ℕ × Server Buf)
        → SameSocket x.1.sessions (transfer_to f r i x).1.sessions
    unfolding transfer_to
    transfer_to-SameSocket i (none, t) = SameSocket-refl t.sessions
    transfer_to-SameSocket i (some n, t) =
        let u = settle f r i n t in
        for_below_inv (λ (v : Server Buf). SameSocket t.sessions v.sessions)
          (notify f r (u.rooms.slots n)) room_members u
          (λ k v lt h. SameSocket-trans h (notify-SameSocket r f (u.rooms.slots n) k v))
          (settle-SameSocket i n t)

    exit_check-SameSocket :
        (i : ℕ) (s : Server Buf) → SameSocket s.sessions (exit_check f r i s).1.sessions
    unfolding exit_check transfer_room alloc_slot
    exit_check-SameSocket i s =
        if_cases (λ (v : Option ℕ × Server Buf). SameSocket s.sessions v.1.sessions)
          (all_arrived f (s.rooms.slots i)) (transfer_room f r i s) (none, s)
          (λ z.
            let x = alloc_slot f (s.rooms.slots i).game_worker false s in
            subst (λ p. SameSocket p (transfer_to f r i x).1.sessions)
              (alloc_from-sessions f (s.rooms.slots i).game_worker false s s.rooms.free_rooms)
              (transfer_to-SameSocket i x))
          (λ z. SameSocket-refl s.sessions)

    tick_body-SameSocket :
        (i : ℕ) (s : Server Buf) → SameSocket s.sessions (tick_body f r i s).sessions
    unfolding tick_body send_snapshots
    tick_body-SameSocket i s =
        let room = s.rooms.slots i in
        let taken =
          consume_all
            (route_all room.in_q (record { members = room.members; counters = s.counters })) in
        let next = advance f room taken in
        let t = record s { rooms = put_room s.rooms i next; counters = taken.counters } in
        let bytes = snapshot_msg (snapshot f next) in
        let Same : Server Buf → Type 0 = λ u. SameSocket s.sessions u.sessions in
        if_cases Same (not (next.world.tick % 3 == 0) || next.member_count == 0) t
          (send_snapshots r f next t) (λ z. SameSocket-refl s.sessions)
          (λ z.
            for_below_inv Same (λ k. offer_snapshot r bytes (next.members k)) room_members t
              (λ k u lt h.
                SameSocket-trans h (offer_snapshot-SameSocket r bytes (next.members k) u))
              (SameSocket-refl s.sessions))

    room_tick-SameSocket :
        (i : ℕ) (s : Server Buf) → SameSocket s.sessions (room_tick f r i s).1.sessions
    unfolding room_tick
    room_tick-SameSocket i s =
        SameSocket-trans (tick_body-SameSocket i s) (exit_check-SameSocket i (tick_body f r i s))

    tick_rooms-SameSocket :
        (fuel : ℕ) (l : List ℕ) (s : Server Buf)
        → SameSocket s.sessions (tick_rooms f r fuel l s).1.sessions
    unfolding tick_rooms
    tick_rooms-SameSocket zero l s = SameSocket-refl s.sessions
    tick_rooms-SameSocket (suc fuel) [] s = SameSocket-refl s.sessions
    tick_rooms-SameSocket (suc fuel) (i ∷ rest) s =
        SameSocket-trans (process_room_queues-SameSocket f i s)
          (go (tick_rooms-SameSocket fuel) (process_room_queues f i s).0)
      where
        t : Server Buf
        t = (process_room_queues f i s).1

        go :
            ((l : List ℕ) (u : Server Buf)
              → SameSocket u.sessions (tick_rooms f r fuel l u).1.sessions)
            → (died : Bool)
            → SameSocket t.sessions
                (elim died as (λ _. List ℕ × Server Buf) [
                  | true ↦ tick_rooms f r fuel (back_first rest) t
                  | false ↦
                      let (moved, u) = room_tick f r i t in
                      let (more, v) = tick_rooms f r fuel rest u in (moved_or moved i ∷ more, v)
                ]).1.sessions
        go later true = later (back_first rest) t
        go later false =
            let (moved, u) = room_tick f r i t in
            SameSocket-trans (room_tick-SameSocket i t) (later rest u)

    -- A tick of a worker leaves every session's socket, owner and mark of death as they were.
    pub tick_once-SameSocket :
        (w : ℕ) (l : List ℕ) (s : Server Buf)
        → SameSocket s.sessions (tick_once f r w (l, s)).1.sessions
    unfolding tick_once drain_room_add_q
    tick_once-SameSocket w l s =
        let x = drain_room_add_q w l s in tick_rooms-SameSocket (length x.0) x.0 x.1
