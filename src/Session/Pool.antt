-- ===== src/Session/Pool.antt =====
-- `SessionPool` of server/src/Session.h. Each function is one step here; the source takes the
-- pool's lock in `Alloc` and to return a slot in `Release`, and counts references with atomic
-- operations outside it.
use mo_belt.Prelude.{
  ℕ, zero, suc, ◌+◌, ◌-◌, ◌%◌, ◌^◌, ◌==◌, Bool, true, false, if◌then◌else◌, Option, none, some,
  List, [], ◌∷◌, update,
}
use mo_belt.RingBuffer.{Ring}
use mo_belt.Session.{Session, blank_session, recv_ring_size, send_ring_size}

-- `_slots`, `_cap` and `_free`; the head of the list is the back of the vector.
pub record SessionPool (Buf : Type 0) : Type 0 where
  pub slots : ℕ → Session Buf
  pub cap : ℕ
  pub free : List ℕ

module _ {Buf : Type 0} where
  -- A write through `Session& s = _slots[i]`.
  abbrev pub put_slot : SessionPool Buf → ℕ → Session Buf → SessionPool Buf
  put_slot p i s = record p { slots = update p.slots i s }

  -- The loop of `Init`, from `i` down to 1.
  unfoldable pub fill_free : ℕ → SessionPool Buf → SessionPool Buf
  fill_free zero p = p
  fill_free (suc i) p =
      fill_free i
        (record p { slots = update p.slots i (record (p.slots i) { idx = i }); free = i ∷ p.free })

  -- `AddRef`.
  unfoldable pub add_ref : SessionPool Buf → ℕ → SessionPool Buf
  add_ref p i = put_slot p i (record (p.slots i) { refs = (p.slots i).refs + 1 })

  -- `Release`: the last reference returns the slot and starts its next generation.
  unfoldable pub release : SessionPool Buf → ℕ → SessionPool Buf
  release p i =
      let s = p.slots i in
      if s.refs == 1
      then record p {
        slots = update p.slots i (record s { refs = 0; gen = (s.gen + 1) % 2 ^ 32 });
        free = s.idx ∷ p.free;
      }
      else put_slot p i (record s { refs = s.refs - 1 })

module _ {Buf : Type 0} (r : Ring Buf) where
  -- `Init`.
  unfoldable pub init : ℕ → SessionPool Buf
  unfolding fill_free
  init capacity =
      fill_free capacity (record { slots = λ _. blank_session r; cap = capacity; free = [] })

  -- The fields that `Alloc` resets once the rings are ready.
  unfoldable pub fresh : Session Buf → Session Buf
  fresh s = record s {
    fd = none;
    want_write = false;
    in_room = false;
    room_idx = 0;
    actor_id = 0;
    dead = false;
    refs = 1;
  }

  -- The rings of the slot: made on first use, cleared on reuse. The flag says whether they are ready.
  unfoldable pub ready_rings : Session Buf → Bool × Session Buf
  ready_rings s =
      if r.is_valid s.recv_q
      then (true, record s { recv_q = r.clear s.recv_q; send_q = r.clear s.send_q })
      else (let (got_recv, recv) = r.init s.recv_q recv_ring_size in
          let (got_send, send) = r.init s.send_q send_ring_size in
          if got_recv
          then (got_send, record s { recv_q = recv; send_q = send })
          else (false, record s { recv_q = recv }))

  -- `Alloc`, by the free list: the slot that is handed out, or none.
  unfoldable pub alloc_top : SessionPool Buf → List ℕ → Option ℕ × SessionPool Buf
  unfolding fresh ready_rings
  alloc_top p [] = (none, p)
  alloc_top p (idx ∷ rest) =
      let (ready, s) = ready_rings (p.slots idx) in
      if ready
      then (some idx, record p { slots = update p.slots idx (fresh s); free = rest })
      else (none, put_slot p idx s)

  unfoldable pub alloc : SessionPool Buf → Option ℕ × SessionPool Buf
  unfolding alloc_top
  alloc p = alloc_top p p.free
