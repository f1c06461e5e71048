-- ===== src/RingBuffer.antt =====
-- The ring buffers of the ServerCore submodule (RingBuffer.h), which is not part of this
-- repository: a parameter. `Buf` is the state of a CRingBufferST or CRingBufferMT, and the fields
-- are the member functions that the server calls, each returning the new state.
use mo_belt.Prelude.{ℕ, ◌≤◌, ◌≡◌, ◌≢◌, ◌⊎◌, Bool, List, ◌++◌, length, take, skip}

pub record Ring (Buf : Type 0) : Type 0 where
  -- The default constructor, and `IsValid`.
  pub blank : Buf
  pub is_valid : Buf → Bool
  -- `Init(size)`: whether the storage could be had.
  pub init : Buf → ℕ → Bool × Buf
  pub clear : Buf → Buf
  -- `Enqueue(data, len)`: the bytes taken, all or none.
  pub enqueue : Buf → List ℕ → ℕ × Buf
  -- `Peek(out, n)` and `Dequeue(out, n)`.
  pub peek : Buf → ℕ → List ℕ
  pub dequeue : Buf → ℕ → List ℕ × Buf
  pub data_size : Buf → ℕ
  pub direct_read_size : Buf → ℕ
  pub direct_write_size : Buf → ℕ
  -- `read` into `GetWritePtr()`, then `MoveWritePtr`.
  pub append_direct : Buf → List ℕ → Buf
  -- The `directReadSize` bytes at `GetSendInfo().readPtr`, and `Consume(n)`.
  pub send_bytes : Buf → List ℕ
  pub consume : Buf → ℕ → Buf

-- What the server relies on where it moves bytes: a ring is a queue of bytes.
pub record IsQueue {Buf : Type 0} (r : Ring Buf) : Type 0 where
  pub contents : Buf → List ℕ
  pub size_is : (b : Buf) → r.data_size b ≡ length (contents b)
  pub peek_is : (b : Buf) (n : ℕ) → r.peek b n ≡ take n (contents b)
  pub dequeue_is :
      (b : Buf) (n : ℕ)
      → n ≤ length (contents b)
      → ((r.dequeue b n).0 ≡ take n (contents b))
        × (contents (r.dequeue b n).1 ≡ skip n (contents b))
  pub enqueue_is :
      (b : Buf) (d : List ℕ)
      → (((r.enqueue b d).0 ≡ 0) × (contents (r.enqueue b d).1 ≡ contents b))
        ⊎ (((r.enqueue b d).0 ≡ length d) × (contents (r.enqueue b d).1 ≡ contents b ++ d))
  -- What can be read in one piece is the front of the queue.
  pub send_is : (b : Buf) → r.send_bytes b ≡ take (r.direct_read_size b) (contents b)
  pub consume_is :
      (b : Buf) (n : ℕ) → n ≤ length (contents b) → contents (r.consume b n) ≡ skip n (contents b)
  pub append_is :
      (b : Buf) (d : List ℕ)
      → length d ≤ r.direct_write_size b
      → contents (r.append_direct b d) ≡ contents b ++ d
  -- Some of the data can be read in one piece, if there is any.
  pub direct_some : (b : Buf) → r.data_size b ≢ 0 → r.direct_read_size b ≢ 0
  pub direct_le : (b : Buf) → r.direct_read_size b ≤ r.data_size b
