-- ===== src/EpollWorker/Disconnecting.antt =====
-- `Disconnect` of server/src/EpollWorker.cpp and what an epoll worker keeps.
use mo_belt.Prelude.{
  ℕ, ◌+◌, ◌≡◌, ◌≢◌, ◌∙◌, refl, sym, ap, arith, true, false, if_cases, if◌then◌else◌, none, ◌==◌,
}
use mathlib.Core.Path.{subst, fun_ext}
use native.Mathlib.Decide.{ℕ_discrete}
use mo_belt.Session.Pool.{release}
use mo_belt.Session.Invariant.{times}
use mo_belt.Session.Noted.{Noted, Noted-trans, put_slot-Noted}
use mo_belt.Session.Link.{SameLink-trans, release-SameLink}
use mo_belt.RoomManager.Books.{BooksOk}
use mo_belt.RoomManager.Join.{on_session_leave}
use mo_belt.RoomManager.Join.Leave.{Noted-BooksOk, on_session_leave-BooksOk, release-BooksOk}
use mo_belt.RoomManager.Join.Link.{on_session_leave-SameLink}
use mo_belt.RoomManager.Queues.{swap_remove}
use mo_belt.RoomManager.Queues.Process.{times-swap_remove}
use mo_belt.EpollWorker.{World, slot, put, close_fd, cut, disconnect}
use mo_belt.EpollWorker.NetOk.{NetOk, close_fd-Quiet}

module _ {Buf : Type 0} {elsewhere owned : ℕ → ℕ} {theirs : ℕ → ℕ → ℕ} {me : ℕ}
    {known : ℕ → Type 0} where
  -- The end of `Disconnect`: `d` is the worker once the session is dead and its socket closed. The
  -- books before the reference goes, and the list after.
  left_books :
      (i : ℕ) (w d : World Buf)
      → times i w.mine ≢ 0
      → NetOk elsewhere owned theirs me known w
      → d.mine ≡ w.mine
      → d.server.rooms ≡ w.server.rooms
      → Noted w.server.sessions d.server.sessions
      → let left = on_session_leave i d.server in
        BooksOk (λ j. elsewhere j + times j w.mine) owned left.rooms left.sessions
        × ((j : ℕ)
            → times j (swap_remove (left.sessions.slots i).idx d.mine)
              ≡ (if j == i then 0 else times j w.mine))
  left_books i w d here h same rooms noted =
      let left = on_session_leave i d.server in
      let live : ℕ → ℕ = λ j. elsewhere j + times j w.mine in
      let start : BooksOk live owned d.server.rooms d.server.sessions =
        subst (λ m. BooksOk live owned m d.server.sessions) (sym rooms)
          (Noted-BooksOk h.books noted) in
      let ok : BooksOk live owned left.rooms left.sessions =
        on_session_leave-BooksOk i d.server start in
      let held : live i ≢ 0 = λ z. here (omega arith) in
      let idx : (left.sessions.slots i).idx ≡ i =
        ground (arith, ok.pool.own_idx i, ok.pool.beyond i, ok.balance i, held) in
      (
        ok,
        λ j.
            ap (λ l. times j (swap_remove (left.sessions.slots i).idx l)) same
            ∙ ap (λ x. times j (swap_remove x w.mine)) idx
            ∙ times-swap_remove i j w.mine (omega (arith, h.once i)),
      )

  leave_list :
      (i : ℕ) (w d : World Buf)
      → times i w.mine ≢ 0
      → NetOk elsewhere owned theirs me known w
      → d.mine ≡ w.mine
      → d.server.rooms ≡ w.server.rooms
      → Noted w.server.sessions d.server.sessions
      → ((j : ℕ) → (slot d j).dead ≡ (if j == i then true else (slot w j).dead))
      → d.id ≡ w.id
      → ((j : ℕ) → (slot d j).owner ≡ (slot w j).owner)
      → ((j : ℕ) → (slot d j).fd ≢ none → (slot w j).fd ≢ none)
      → let left = on_session_leave i d.server in
        let c = left.counters in
        NetOk elsewhere owned theirs me known (record d {
          mine = swap_remove (left.sessions.slots i).idx d.mine;
          server = record left {
            counters = record c { disconnects = c.disconnects + 1 };
            sessions = release left.sessions i;
          };
        })
  leave_list i w d here h same rooms noted dead id owner opened =
      let left = on_session_leave i d.server in
      let (ok, gone) = left_books i w d here h same rooms noted in
      let held : elsewhere i + times i w.mine ≢ 0 = λ z. here (omega arith) in
      let link =
        SameLink-trans (on_session_leave-SameLink i d.server) (release-SameLink left.sessions i) in
      let dead' : (j : ℕ)
          → ((release left.sessions i).slots j).dead ≡ (if j == i then true else (slot w j).dead) =
        λ j. link.dead j ∙ dead j in
      let was_alive : (j : ℕ)
          → (if j == i then true else (slot w j).dead) ≡ false
          → (slot w j).dead ≡ false =
        λ j a. ground (arith, a) in
      let was_other : (j : ℕ) → (if j == i then true else (slot w j).dead) ≡ false → j ≢ i =
        λ j a. ground (arith, a) in
      record {
        books =
            subst (λ o. BooksOk o owned left.rooms (release left.sessions i))
              (fun_ext (λ j. ground (arith, gone j, h.once i, here))) (release-BooksOk i ok held);
        once = λ j. ground (arith, gone j, h.once j);
        alive = λ j n. ground (arith, gone j, n, dead' j, h.alive j, h.once j, here);
        heard = λ j k a z. ground (arith, gone j, z, dead' j, a, h.heard j k);
        bound = λ j o a e z. ground (
          arith,
          gone j,
          z,
          dead' j,
          a,
          h.bound j (sym (link.owner j ∙ owner j) ∙ o ∙ id) (was_alive j (sym (dead' j) ∙ a))
              (opened j (λ n. e (link.fd j ∙ n))),
          was_other j (sym (dead' j) ∙ a),
        );
        claims = λ j o a e.
            let same = link.owner j ∙ owner j in
            subst (λ k. theirs k j ≢ 0) (sym same)
              (h.claims j (λ z. o (same ∙ z ∙ sym id)) (was_alive j (sym (dead' j) ∙ a))
                (opened j (λ n. e (link.fd j ∙ n))));
        number = id ∙ h.number;
      }

  -- `Disconnect` of a session that lives.
  cut-NetOk :
      (i : ℕ) (w : World Buf)
      → times i w.mine ≢ 0
      → NetOk elsewhere owned theirs me known w
      → NetOk elsewhere owned theirs me known (cut i w)
  unfolding cut
  cut-NetOk i w here h =
      let v = put i (record (slot w i) { dead = true }) w in
      let q = close_fd-Quiet i v in
      leave_list i w (close_fd i v) here h q.mine q.rooms
        (Noted-trans (put_slot-Noted w.server.sessions i _ refl refl refl) q.noted)
        (λ j. q.dead j ∙ ground arith) q.id (λ j. q.owner j ∙ ground arith)
        (λ j o e. q.opened j o (ground (arith, e)))

  cut-mine :
      (i j : ℕ) (w : World Buf)
      → times i w.mine ≢ 0
      → NetOk elsewhere owned theirs me known w
      → times j (cut i w).mine ≡ (if j == i then 0 else times j w.mine)
  unfolding cut
  cut-mine i j w here h =
      let v = put i (record (slot w i) { dead = true }) w in
      let q = close_fd-Quiet i v in
      (left_books i w (close_fd i v) here h q.mine q.rooms
          (Noted-trans (put_slot-Noted w.server.sessions i _ refl refl refl) q.noted)).1
        j

  -- What was heard of is in the list no more.
  pub disconnect-mine :
      (i j : ℕ) (w : World Buf)
      → known i
      → NetOk elsewhere owned theirs me known w
      → times j (disconnect i w).mine ≡ (if j == i then 0 else times j w.mine)
  unfolding disconnect
  disconnect-mine i j w k h =
      if_cases (λ v. times j v.mine ≡ (if j == i then 0 else times j w.mine)) (slot w i).dead w
        (cut i w)
        (λ e. elim (ℕ_discrete (times i w.mine) 0) [
          | yes z ↦ ground (arith, z)
          | no n ↦ absurd ground (arith, e, h.alive i (λ z. n (omega (arith, z))))
        ])
        (λ e. cut-mine i j w (h.heard i k e) h)

  -- A worker may disconnect any session that it has heard of: the books stay right, and what lives
  -- in its list stays there.
  pub disconnect-NetOk :
      (i : ℕ) (w : World Buf)
      → known i
      → NetOk elsewhere owned theirs me known w
      → NetOk elsewhere owned theirs me known (disconnect i w)
  unfolding disconnect
  disconnect-NetOk i w k h =
      if_cases (NetOk elsewhere owned theirs me known) (slot w i).dead w (cut i w) (λ e. h)
        (λ e. cut-NetOk i w (h.heard i k e) h)
