-- ===== src/System/Rounds.antt =====
-- A step of one epoll worker (server/src/EpollWorker.cpp) and the invariant of the whole server.
use mo_belt.Prelude.{
  ℕ, ◌+◌, ◌<◌, ◌≡◌, ◌≢◌, ◌∙◌, refl, sym, ap, arith, if◌then◌else◌, ◌==◌, List, [], update_ne,
  sum_below_congr,
}
use mathlib.Core.Path.{subst, fun_ext}
use native.Mathlib.Decide.{ℕ_discrete}
use mo_belt.Double.{Fpu}
use mo_belt.RingBuffer.{Ring}
use mo_belt.Session.Invariant.{times}
use mo_belt.RoomManager.Books.{BooksOk}
use mo_belt.EpollWorker.{World, slot}
use mo_belt.EpollWorker.Read.{Ready}
use mo_belt.EpollWorker.Loop.{loop_round, cleanup}
use mo_belt.EpollWorker.NetOk.{NetOk}
use mo_belt.EpollWorker.Rounds.{AllHeard, loop_round-NetOk}
use mo_belt.EpollWorker.Rounds.Cleanup.{cleanup-NetOk, cleanup_lem}
use mo_belt.System.{System, Outside, world_of, with_world, net_round, net_cleanup}
use mo_belt.System.Ledger.{SystemOk, listed, listed_off, owned, sum_below-off}

module _ {Buf : Type 0} where
  -- What worker `k` sees of the invariant: it has heard of those in its list.
  abbrev SeenBy : ℕ → System Buf → World Buf → Type 0
  SeenBy k s =
      NetOk (listed_off k s) (λ i. owned i s) (λ m j. times j (s.nets m).mine) k
        (λ j. times j (s.nets k).mine ≢ 0)

  listed-split :
      (k j : ℕ) (s : System Buf)
      → k < s.net_count
      → listed j s ≡ listed_off k s j + times j (s.nets k).mine
  listed-split k j s lt = sum_below-off s.net_count k (λ m. times j (s.nets m).mine) lt

  SystemOk-SeenBy :
      (k : ℕ) (o : Outside) (s : System Buf)
      → k < s.net_count
      → SystemOk s
      → SeenBy k s (world_of k o s)
  unfolding world_of
  SystemOk-SeenBy k o s lt h = record {
    books =
        subst (λ live. BooksOk live (λ i. owned i s) s.server.rooms s.server.sessions)
          (fun_ext (λ j. listed-split k j s lt)) h.books;
    once = λ j. omega (arith, h.once j, listed-split k j s lt);
    alive = λ j n. h.alive j (λ z. n (omega (arith, z, listed-split k j s lt)));
    heard = λ j n d. n;
    bound = λ j o d e z. h.bound j d e (ap (λ m. times j (s.nets m).mine) o ∙ z);
    claims = λ j o d e. h.bound j d e;
    number = refl;
  }

  listed-with_world :
      (k j : ℕ) (w : World Buf) (s : System Buf)
      → k < s.net_count
      → listed j (with_world k w s) ≡ listed_off k s j + times j w.mine
  unfolding with_world
  listed-with_world k j w s lt = ground (
    arith,
    sum_below-off s.net_count k (λ m. times j ((with_world k w s).nets m).mine) lt,
    sum_below_congr s.net_count
        (λ m. if m == k then 0 else times j ((with_world k w s).nets m).mine)
        (λ m. if m == k then 0 else times j (s.nets m).mine) (λ m le. ground arith),
  )

  SeenBy-SystemOk :
      (k : ℕ) (w : World Buf) (s : System Buf)
      → k < s.net_count
      → SystemOk s
      → SeenBy k s w
      → SystemOk (with_world k w s)
  unfolding with_world
  SeenBy-SystemOk k w s lt before h = record {
    books =
        subst (λ live. BooksOk live (λ i. owned i s) w.server.rooms w.server.sessions)
          (fun_ext (λ j. sym (listed-with_world k j w s lt))) h.books;
    once = λ j. omega (arith, h.once j, listed-with_world k j w s lt);
    alive = λ j n. h.alive j (λ z. n (listed-with_world k j w s lt ∙ z));
    bound = λ j d e. elim (ℕ_discrete (slot w j).owner k) [
      | yes mine ↦ ground (arith, mine, h.number, h.bound j, d, e)
      | no other ↦ ground (arith, other, h.number, h.claims j, d, e)
    ];
    idle = λ m le. ground (arith, lt, le, before.idle m le);
  }

  pub net_cleanup-SystemOk :
      (k : ℕ) (o : Outside) (s : System Buf)
      → k < s.net_count
      → SystemOk s
      → SystemOk (net_cleanup k o s)
  unfolding net_cleanup
  net_cleanup-SystemOk k o s lt h =
      let w = world_of k o s in
      SeenBy-SystemOk k (cleanup w) s lt h (
        cleanup-NetOk (listed_off k s) (λ i. owned i s) (λ m j. times j (s.nets m).mine) k
          (λ j. times j (s.nets k).mine ≢ 0) w (SystemOk-SeenBy k o s lt h))

  -- Who stands in which list when an epoll worker has ended.
  pub net_cleanup-mine :
      (k : ℕ) (o : Outside) (s : System Buf)
      → k < s.net_count
      → SystemOk s
      → (m : ℕ) → ((net_cleanup k o s).nets m).mine ≡ (if m == k then [] else (s.nets m).mine)
  unfolding net_cleanup with_world world_of
  net_cleanup-mine k o s lt h m =
      let w = world_of k o s in
      let gone =
        cleanup_lem (listed_off k s) (λ i. owned i s) (λ m j. times j (s.nets m).mine) k
          (λ j. times j (s.nets k).mine ≢ 0) w (SystemOk-SeenBy k o s lt h) in
      ground (arith, gone.0)

  pub net_round-SystemOk :
      (f : Fpu) (r : Ring Buf) (k : ℕ) (o : Outside) (events : List (ℕ × Ready)) (s : System Buf)
      → k < s.net_count
      → AllHeard (λ j. times j (s.nets k).mine ≢ 0) events
      → SystemOk s
      → SystemOk (net_round f r k o events s)
  unfolding net_round
  net_round-SystemOk f r k o events s lt heard h =
      let w = world_of k o s in
      SeenBy-SystemOk k (loop_round f r events w) s lt h (
        loop_round-NetOk f r (listed_off k s) (λ i. owned i s) (λ m j. times j (s.nets m).mine) k
          events (λ j. times j (s.nets k).mine ≢ 0) w heard (SystemOk-SeenBy k o s lt h))

  pub net_cleanup-net_count :
      (k : ℕ) (o : Outside) (s : System Buf) → (net_cleanup k o s).net_count ≡ s.net_count
  unfolding net_cleanup with_world
  net_cleanup-net_count k o s = refl

  pub net_round-net_count :
      (f : Fpu) (r : Ring Buf) (k : ℕ) (o : Outside) (events : List (ℕ × Ready)) (s : System Buf)
      → (net_round f r k o events s).net_count ≡ s.net_count
  unfolding net_round with_world
  net_round-net_count f r k o events s = refl

  -- A round of one worker changes no other worker's list.
  pub net_round-mine :
      (f : Fpu) (r : Ring Buf) (k : ℕ) (o : Outside) (events : List (ℕ × Ready)) (s : System Buf)
      → (m : ℕ) → m ≢ k
      → ((net_round f r k o events s).nets m).mine ≡ (s.nets m).mine
  unfolding net_round with_world
  net_round-mine f r k o events s m ne = ap (λ n. n.mine) (update_ne s.nets k _ m ne)
