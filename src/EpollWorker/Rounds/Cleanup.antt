-- ===== src/EpollWorker/Rounds/Cleanup.antt =====
-- `CleanupInThread` of server/src/EpollWorker.cpp and what an epoll worker keeps.
use mo_belt.Prelude.{
  ℕ, ◌≡◌, ◌≢◌, refl, arith, inl, inr, Bool-cases, true, false, if◌then◌else◌, ◌==◌, List, [], ◌∷◌,
}
use mathlib.Core.Path.{subst, fun_ext}
use mo_belt.Session.Invariant.{times}
use mo_belt.RoomManager.Books.{BooksOk}
use mo_belt.EpollWorker.{World, slot}
use mo_belt.EpollWorker.Loop.{cut_all, cleanup}
use mo_belt.EpollWorker.NetOk.{NetOk}
use mo_belt.EpollWorker.Disconnecting.{disconnect-NetOk, disconnect-mine}

-- A list in which nothing stands is empty.
nothing : (l : List ℕ) → ((j : ℕ) → times j l ≡ 0) → l ≡ []
nothing [] h = refl
nothing (i ∷ l) h = absurd ground (arith, h i)

module _ {Buf : Type 0} where
  module _ (elsewhere owned : ℕ → ℕ) (theirs : ℕ → ℕ → ℕ) (me : ℕ) where
    abbrev Good : (ℕ → Type 0) → World Buf → Type 0
    Good known = NetOk elsewhere owned theirs me known

    -- Who is listed can be heard of.
    listed : (w : World Buf) (known : ℕ → Type 0) → Good known w → Good (λ j. times j w.mine ≢ 0) w
    listed w known h = record {
      books = h.books;
      once = h.once;
      alive = h.alive;
      heard = λ j k d. k;
      bound = h.bound;
      claims = h.claims;
      number = h.number;
    }

    cut_all-NetOk :
        (l : List ℕ) (known : ℕ → Type 0) (w : World Buf)
        → ((j : ℕ) → times j l ≢ 0 → known j)
        → Good known w
        → Good known (cut_all l w)
          × ((j : ℕ) → times j (cut_all l w).mine ≡ (if times j l == 0 then times j w.mine else 0))
    unfolding cut_all
    cut_all-NetOk [] known w k h = (h, λ j. refl)
    cut_all-NetOk (i ∷ l) known w k h =
        let v = cut_all l w in
        let (g, rest) = cut_all-NetOk l known w (λ j n. k j (λ z. n (omega arith))) h in
        let here : known i = k i (λ z. ground (arith, z)) in
        (disconnect-NetOk i v here g, λ j. ground (arith, disconnect-mine i j v here g, rest j))

    pub cleanup-NetOk :
        (known : ℕ → Type 0) (w : World Buf)
        → NetOk elsewhere owned theirs me known w
        → NetOk elsewhere owned theirs me (λ j. times j w.mine ≢ 0) (cleanup w)
    unfolding cleanup
    cleanup-NetOk known w h =
        let g =
          (cut_all-NetOk w.mine (λ j. times j w.mine ≢ 0) w (λ j n. n) (listed w known h)).0 in
        record {
          books = g.books;
          once = g.once;
          alive = g.alive;
          heard = g.heard;
          bound = g.bound;
          claims = g.claims;
          number = g.number;
        }

    -- When an epoll worker ends, its list is empty, every session that was in it is dead, and all its
    -- references are given back: the books balance without them. The sockets of listening and polling
    -- are closed.
    pub cleanup_lem :
        (known : ℕ → Type 0) (w : World Buf)
        → NetOk elsewhere owned theirs me known w
        → let v = cleanup w in
          (v.mine ≡ [])
          × ((j : ℕ) → times j w.mine ≢ 0 → (slot v j).dead ≡ true)
          × BooksOk elsewhere owned v.server.rooms v.server.sessions
          × (v.listening ≡ false)
          × (v.polling ≡ false)
    unfolding cleanup
    cleanup_lem known w h =
        let mine : ℕ → Type 0 = λ j. times j w.mine ≢ 0 in
        let (g, gone) = cut_all-NetOk w.mine mine w (λ j n. n) (listed w known h) in
        let v = cut_all w.mine w in
        let none_left : (j : ℕ) → times j v.mine ≡ 0 = λ j. ground (arith, gone j) in
        (
          nothing v.mine none_left,
          λ j n. elim (Bool-cases (slot v j).dead) [
            | inl dead ↦ dead
            | inr lives ↦ absurd (g.heard j n lives (none_left j))
          ],
          subst (λ l. BooksOk l owned v.server.rooms v.server.sessions)
              (fun_ext (λ j. omega (arith, none_left j))) g.books,
          refl,
          refl,
        )
