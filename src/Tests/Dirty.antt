-- ===== src/Tests/Dirty.antt =====
-- The theorems on the dirty map, at two sessions of which one is marked.
use mo_belt.Prelude.{
  ℕ, ◌*◌, ◌<◌, ◌≡◌, ◌≢◌, refl, arith, false, List, [], ◌∷◌, if◌then◌else◌, for_below, update,
}
use mo_belt.DirtyMap.{DirtyMap, init, mark_bit, drain}
use mo_belt.DirtyMap.Drain.{WordsOk, marked, mark_bit-WordsOk, drain_lem}
use mo_belt.EpollWorker.{World}
use mo_belt.EpollWorker.Loop.{drain_dirty}
use mo_belt.EpollWorker.Rounds.Dirty.{flush_dirty, drain-drain_dirty}
use mo_belt.Tests.Values.{whole_fpu, list_ring}
use mo_belt.Tests.Net.{busy}

abbrev one_mark : DirtyMap
one_mark = mark_bit 0 1 (init 2)

clean-WordsOk : WordsOk (init 2)
unfolding WordsOk init
clean-WordsOk k = omega arith

one_mark-WordsOk : WordsOk one_mark
one_mark-WordsOk = mark_bit-WordsOk 0 1 (init 2) clean-WordsOk

in_words : 1 < (init 2).stride * 64
unfolding init
in_words = omega arith

drain_example :
    let (n, t) = drain 0 (λ i l. i ∷ l) one_mark [] in
    (t ≡ for_below (one_mark.stride * 64) (λ i l. if marked 0 i one_mark then i ∷ l else l) [])
    × ((i : ℕ) → i < one_mark.stride * 64 → marked 0 i n ≡ false)
    × ((w i : ℕ) → w ≢ 0 → i < one_mark.stride * 64 → marked w i n ≡ marked w i one_mark)
drain_example = drain_lem 0 (λ i l. i ∷ l) one_mark one_mark-WordsOk []

abbrev dirty_world : World (List ℕ)
dirty_world = record busy { server = record (busy.server) { dirty = λ w i. marked w i one_mark } }

abbrev swept : World (List ℕ)
swept = record dirty_world {
  server = record (dirty_world.server) { dirty = update dirty_world.server.dirty 0 (λ i. false) };
}

sweep_example :
    (drain 0 (flush_dirty list_ring 2) one_mark swept).1
    ≡ drain_dirty whole_fpu list_ring dirty_world
unfolding mo_belt.Session.Pool.init mo_belt.Session.Pool.fill_free mark_bit init
sweep_example =
    drain-drain_dirty list_ring whole_fpu one_mark dirty_world one_mark-WordsOk (omega arith)
      (λ i. refl)
