-- ===== src/Dummy/Client/Parsing.antt =====
-- What `ParseFrames` of the load generator makes of the bytes that have come, apart from its offsets.
use mo_belt.Prelude.{
  ℕ, zero, suc, ◌+◌, ◌≡◌, ◌∙◌, refl, sym, Bool-cases, inl, inr, Bool, true, false, if_map,
  if_else_congr, if◌then◌else◌, ltb, List, [], ◌∷◌, length, take, skip,
}
use mo_belt.Protocol.{header_size}
use mo_belt.EpollWorker.Frames.{Cut, with_first, bad_size, split, frame_size, cut_stream}
use mo_belt.Dummy.Client.{Mode, Client, kill_client, take_frame, parse_on, parse_frames}

-- Messages handled one after the other, up to one that ends the parsing.
unfoldable pub take_frames : Mode → List (List ℕ) → Client → Bool × Client
take_frames m [] c = (false, c)
take_frames m (msg ∷ msgs) c =
    let (ends, d) = take_frame m msg c in
    let more = take_frames m msgs d in if ends then (true, d) else more

-- The client after a stream that was cut: the messages, then the kill for a length out of bounds, or
-- the bytes that wait for more.
unfoldable pub take_cut : Mode → Cut → Client → Client
unfolding take_frames
take_cut m cut c =
    let (ends, d) = take_frames m cut.messages c in
    if ends then d else if cut.broken then kill_client m false d else record d { recv = cut.left }

take_cut-with_first :
    (m : Mode) (msg : List ℕ) (cut : Cut) (c : Client)
    → take_cut m (with_first msg cut) c
      ≡ (let (ends, d) = take_frame m msg c in if ends then d else take_cut m cut d)
unfolding take_cut take_frames
take_cut-with_first m msg cut c = elim (Bool-cases (take_frame m msg c).0) [
  | inl e ↦ rw e refl
  | inr e ↦ rw e refl
]

parse_on-take_cut :
    (m : Mode) (fuel : ℕ) (left : List ℕ) (c : Client)
    → parse_on m fuel left c ≡ take_cut m (split fuel left) c
unfolding parse_on split take_cut take_frames frame_size
parse_on-take_cut m zero left c = refl
parse_on-take_cut m (suc fuel) left c =
    let size = frame_size left in
    let x = take_frame m (take size left) c in
    let On : Cut → Client = λ cut. take_cut m cut c in
    if_map On (ltb (length left) header_size) _ _ _ _ (λ e. refl)
      (λ e.
        if_map On (bad_size size) _ _ _ _ (λ e. refl)
          (λ e.
            if_map On (ltb (length left) size) _ _ _ _ (λ e. refl)
              (λ e.
                if_else_congr x.0 x.1 (parse_on m fuel (skip size left) x.1)
                  (take_cut m (split fuel (skip size left)) x.1)
                  (λ go. parse_on-take_cut m fuel (skip size left) x.1)
                ∙ sym (take_cut-with_first m (take size left) (split fuel (skip size left)) c))))

-- `ParseFrames` handles the messages of the bytes that have come, in their order and each once, until one
-- ends it; then it kills the client where a length is out of bounds, and else keeps what is left.
pub parse_frames-take_cut :
    (m : Mode) (c : Client) → parse_frames m c ≡ take_cut m (cut_stream c.recv) c
unfolding parse_frames cut_stream
parse_frames-take_cut m c = parse_on-take_cut m (length c.recv + 1) c.recv c
