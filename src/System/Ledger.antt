-- ===== src/System/Ledger.antt =====
-- The invariant of the whole server: who holds which session and which room.
use mo_belt.Prelude.{
  ℕ, ◌+◌, ◌≤◌, ◌<◌, ◌≡◌, ◌≢◌, ◌==◌, false, none, arith, if◌then◌else◌, sum_below, sum_below_differ,
  [],
}
use mo_belt.Session.Invariant.{times}
use mo_belt.RoomManager.Books.{BooksOk, max_game_workers}
use mo_belt.System.{System}

module _ {Buf : Type 0} where
  -- In how many lists of epoll workers session `j` stands, and in those of workers other than `k`.
  abbrev pub listed : ℕ → System Buf → ℕ
  listed j s = sum_below s.net_count (λ k. times j (s.nets k).mine)

  abbrev pub listed_off : ℕ → System Buf → ℕ → ℕ
  listed_off k s j = sum_below s.net_count (λ m. if m == k then 0 else times j (s.nets m).mine)

  -- The same for room slot `i` and the lists of game workers.
  abbrev pub owned : ℕ → System Buf → ℕ
  owned i s = sum_below max_game_workers (λ g. times i (s.my_rooms g))

  abbrev pub owned_off : ℕ → System Buf → ℕ → ℕ
  owned_off g s i = sum_below max_game_workers (λ m. if m == g then 0 else times i (s.my_rooms m))

  -- Every reference is an epoll worker's or a room's, every room slot is in one place; no session is
  -- in two lists, a session in a list lives, and a live session with a socket is in its owner's list.
  pub record SystemOk (s : System Buf) : Type 0 where
    pub books : BooksOk (λ j. listed j s) (λ i. owned i s) s.server.rooms s.server.sessions
    pub once : (j : ℕ) → listed j s ≤ 1
    pub alive : (j : ℕ) → listed j s ≢ 0 → (s.server.sessions.slots j).dead ≡ false
    pub bound :
        (j : ℕ)
        → (s.server.sessions.slots j).dead ≡ false
        → (s.server.sessions.slots j).fd ≢ none
        → times j (s.nets (s.server.sessions.slots j).owner).mine ≢ 0
    pub idle : (k : ℕ) → s.net_count ≤ k → (s.nets k).mine ≡ []

-- A sum over an array that is written at one place: the part of the others stays.
pub sum_below-off :
    (n k : ℕ) (g : ℕ → ℕ)
    → k < n
    → sum_below n g ≡ sum_below n (λ m. if m == k then 0 else g m) + g k
sum_below-off n k g lt =
    ground
      (arith, sum_below_differ n k g (λ m. if m == k then 0 else g m) lt (λ m ne. ground arith))
