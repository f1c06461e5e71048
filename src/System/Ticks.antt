-- ===== src/System/Ticks.antt =====
-- A tick of one game worker (server/src/GameWorker.cpp) and the invariant of the whole server.
use mo_belt.Prelude.{
  ℕ, ◌+◌, ◌<◌, ◌≡◌, ◌∙◌, sym, ap, arith, sum_below_congr, if◌then◌else◌, ◌==◌, update, List,
}
use mathlib.Core.Path.{subst, fun_ext}
use mo_belt.Double.{Fpu}
use mo_belt.RingBuffer.{Ring}
use mo_belt.Session.Invariant.{times}
use mo_belt.RoomManager.{Server}
use mo_belt.RoomManager.Books.{BooksOk, max_game_workers}
use mo_belt.GameWorker.{tick_once}
use mo_belt.GameWorker.Rooms.{tick_once-BooksFor}
use mo_belt.GameWorker.Sockets.{tick_once-SameSocket}
use mo_belt.System.{System, game_tick}
use mo_belt.System.Ledger.{SystemOk, listed, owned, owned_off, sum_below-off}

module _ {Buf : Type 0} where
  owned-update :
      (g i : ℕ) (s : System Buf) (l : List ℕ) (server : Server Buf)
      → g < max_game_workers
      → owned i (record s { server = server; my_rooms = update s.my_rooms g l })
        ≡ owned_off g s i + times i l
  owned-update g i s l server lt = ground (
    arith,
    sum_below-off max_game_workers g (λ m. times i (update s.my_rooms g l m)) lt,
    sum_below_congr max_game_workers (λ m. if m == g then 0 else times i (update s.my_rooms g l m))
        (λ m. if m == g then 0 else times i (s.my_rooms m)) (λ m le. ground arith),
  )

  pub game_tick-SystemOk :
      (f : Fpu) (r : Ring Buf) (g : ℕ) (s : System Buf)
      → g < max_game_workers
      → SystemOk s
      → SystemOk (game_tick f r g s)
  unfolding game_tick
  game_tick-SystemOk f r g s lt h =
      let x = tick_once f r g (s.my_rooms g, s.server) in
      let live : ℕ → ℕ = λ j. listed j s in
      let same = tick_once-SameSocket f r g (s.my_rooms g) s.server in
      let start : BooksOk live (λ i. owned_off g s i + times i (s.my_rooms g)) s.server.rooms
          s.server.sessions =
        subst (λ own. BooksOk live own s.server.rooms s.server.sessions)
          (fun_ext (λ i. sum_below-off max_game_workers g (λ m. times i (s.my_rooms m)) lt))
          h.books in
      record {
        books =
            subst (λ own. BooksOk live own x.1.rooms x.1.sessions)
              (fun_ext (λ i. sym (owned-update g i s x.0 x.1 lt)))
              (tick_once-BooksFor live f r g (owned_off g s) (s.my_rooms g) s.server lt start);
        once = h.once;
        alive = λ j n. same.dead j ∙ h.alive j n;
        bound = λ j d e z.
            h.bound j (sym (same.dead j) ∙ d) (λ n. e (same.fd j ∙ n))
              (sym (ap (λ k. times j (s.nets k).mine) (same.owner j)) ∙ z);
        idle = h.idle;
      }
