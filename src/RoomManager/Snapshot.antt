-- ===== src/RoomManager/Snapshot.antt =====
-- The snapshot part of `RoomTick` in RoomManager.cpp: its contents, and how it reaches the members.
use mo_belt.Prelude.{ℕ, ◌+◌, Bool, true, not, ◌||◌, if◌then◌else◌, ◌==◌, List, update, for_below}
use mo_belt.Prelude.Int.{pos}
use mo_belt.Double.{Fpu}
use mo_belt.Protocol.{SnapActor, Snapshot, snapshot_msg}
use mo_belt.Protocol.Quant.{quant_pos}
use mo_belt.RingBuffer.{Ring}
use mo_belt.Room.{Room, SimActor, Member, room_members, snap_actors}
use mo_belt.Session.Pool.{put_slot}
use mo_belt.RoomManager.{Server}

-- `sizeof(MSG_S2C_SNAPSHOT)`.
abbrev pub snapshot_size : ℕ
snapshot_size = 165

-- `DirtyMap::Mark`.
abbrev pub mark : ℕ → ℕ → (ℕ → ℕ → Bool) → ℕ → ℕ → Bool
mark worker sess dirty = update dirty worker (update (dirty worker) sess true)

module _ (f : Fpu) where
  -- One actor; an empty slot has state 255 and zeros.
  unfoldable pub snap_actor : ℕ → SimActor → SnapActor
  snap_actor i a =
      if a.present
      then record {
        id = i;
        kind = a.kind;
        state = a.state;
        face = a.face;
        qx = quant_pos f a.x;
        qy = quant_pos f a.y;
        hp = a.hp;
      }
      else record { id = i; kind = a.kind; state = 255; face = pos 0; qx = 0; qy = 0; hp = 0 }

  unfoldable pub snapshot : Room → Snapshot
  unfolding snap_actor
  snapshot room = record {
    server_tick = room.world.tick;
    actor_count = snap_actors;
    last_input_seq = λ i. if (room.members i).used then (room.members i).last_input_seq else 0;
    actors = λ i. snap_actor i (room.world.actors i);
  }

module _ {Buf : Type 0} (r : Ring Buf) where
  -- Whether a member's session is gone.
  unfoldable pub is_gone : Member → Server Buf → Bool
  is_gone m s =
      let session = s.sessions.slots m.sess_idx in not (session.gen == m.sess_gen) || session.dead

  -- `s.sendQ.Enqueue(...)`: the bytes taken, and the server with the new ring.
  unfoldable pub enqueue_to : Member → List ℕ → Server Buf → ℕ × Server Buf
  enqueue_to m bytes s =
      let session = s.sessions.slots m.sess_idx in
      let (n, q) = r.enqueue session.send_q bytes in
      (n, record s { sessions = put_slot s.sessions m.sess_idx (record session { send_q = q }) })

  -- The snapshot for one member: sent and marked, or dropped when its ring is full.
  unfoldable pub offer_snapshot : List ℕ → Member → Server Buf → Server Buf
  unfolding is_gone enqueue_to
  offer_snapshot bytes m s =
      let (n, t) = enqueue_to m bytes s in
      let c = t.counters in
      if not m.used || is_gone m s
      then s
      else if n == snapshot_size
      then record t {
        counters = record c { snapshots_sent = c.snapshots_sent + 1 };
        dirty = mark m.sess_owner m.sess_idx t.dirty;
      }
      else record t { counters = record c { snapshots_dropped = c.snapshots_dropped + 1 } }

  unfoldable pub send_snapshots : Fpu → Room → Server Buf → Server Buf
  unfolding offer_snapshot snapshot
  send_snapshots f room =
      let bytes = snapshot_msg (snapshot f room) in
      for_below room_members (λ i. offer_snapshot bytes (room.members i))
