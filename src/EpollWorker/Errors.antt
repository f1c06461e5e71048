-- ===== src/EpollWorker/Errors.antt =====
-- What `Dispatch` and `ParseFrames` of server/src/EpollWorker.cpp do to a client that breaks the protocol.
use mo_belt.Prelude.{
  ℕ, ◌≡◌, ◌≢◌, ◌*◌, ◌/◌, ◌%◌, refl, ◌∙◌, ◌<◌, ◌^◌, ◌+◌, ap, arith, Bool, true, false, not, ◌&&◌,
  ◌||◌, if_cases, ◌==◌, List, length,
}
use mo_belt.Double.{Fpu}
use mo_belt.RingBuffer.{Ring}
use mo_belt.Protocol.{echo, c2s_join, c2s_input, c2s_ping, type_code, header_bytes}
use mo_belt.EpollWorker.{World, slot, disconnect, send_bytes}
use mo_belt.EpollWorker.Dispatch.{dispatch, on_join, on_input, on_ping}
use mo_belt.EpollWorker.Loop.{pack_tag, unpack_tag, listen_tag}
use mo_belt.EpollWorker.Wire.Flush.{disconnect-dead}

-- A message that the server takes from a client: an echo of any length, or one of the other three
-- with the length of its structure.
unfoldable pub welcome_message : List ℕ → Bool
unfolding header_bytes type_code
welcome_message msg =
    let kind = (header_bytes msg).1 in
    let len = length msg in
    kind == type_code echo
    || (kind == type_code c2s_join && len == 6
        || (kind == type_code c2s_input && len == 12 || kind == type_code c2s_ping && len == 12))

module _ (f : Fpu) {Buf : Type 0} (r : Ring Buf) where
  -- Any other message is answered by disconnecting the session, and by nothing else.
  pub dispatch_other :
      (i : ℕ) (msg : List ℕ) (w : World Buf)
      → welcome_message msg ≡ false
      → (dispatch f r i msg w ≡ disconnect i w) × ((slot (dispatch f r i msg w) i).dead ≡ true)
  unfolding welcome_message dispatch on_join on_input on_ping header_bytes type_code
  dispatch_other i msg w bad =
      let kind = (header_bytes msg).1 in
      let len = length msg in
      let Cut : World Buf → Type 0 = λ v. v ≡ disconnect i w in
      let cut : Cut (dispatch f r i msg w) =
        if_cases Cut (kind == type_code echo) (send_bytes r i msg w) _
          (λ e. absurd ground (arith, e, bad))
          (λ e.
            if_cases Cut (kind == type_code c2s_join) (on_join f r i msg w) _
              (λ k.
                if_cases Cut (not (len == 6)) (disconnect i w) _ (λ n. refl)
                  (λ n. absurd ground (arith, k, n, bad)))
              (λ e'.
                if_cases Cut (kind == type_code c2s_input) (on_input i msg w) _
                  (λ k.
                    if_cases Cut (not (len == 12)) (disconnect i w) _ (λ n. refl)
                      (λ n. absurd ground (arith, k, n, bad)))
                  (λ e''.
                    if_cases Cut (kind == type_code c2s_ping) (on_ping r i msg w) (disconnect i w)
                      (λ k.
                        if_cases Cut (not (len == 12)) (disconnect i w) _ (λ n. refl)
                          (λ n. absurd ground (arith, k, n, bad)))
                      (λ _. refl)))) in
      (cut, ap (λ (v : World Buf). (slot v i).dead) cut ∙ disconnect-dead i w)

-- A session's tag is taken apart as it was put together. No slot below the largest one has the tag of
-- the listening socket.
pub unpack_tag-pack_tag :
    (idx gen : ℕ)
    → idx < 2 ^ 32
    → (unpack_tag (pack_tag idx gen) ≡ (idx, gen))
      × (idx ≢ listen_tag → (unpack_tag (pack_tag idx gen)).0 ≢ listen_tag)
unfolding unpack_tag pack_tag
unpack_tag-pack_tag idx gen lt =
    let low : (gen * 2 ^ 32 + idx) % 2 ^ 32 ≡ idx = omega arith in
    let high : (gen * 2 ^ 32 + idx) / 2 ^ 32 ≡ gen = omega arith in
    (ground (arith, low, high), λ ne e. ne (omega (arith, low, e)))
