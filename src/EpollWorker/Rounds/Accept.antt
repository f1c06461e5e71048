-- ===== src/EpollWorker/Rounds/Accept.antt =====
-- A new connection: `HandleAccept` of EpollWorker.cpp.
use mo_belt.Prelude.{
  ℕ, zero, suc, ◌+◌, ◌≡◌, ◌≢◌, ◌∙◌, refl, sym, ap, arith, true, false, if_cases, Option, none, some,
  List, [], ◌∷◌, ◌==◌, ◌≤◌, to_ℕ,
}
use mathlib.Core.Path.{subst, fun_ext}
use mo_belt.RingBuffer.{Ring}
use mo_belt.Session.{Session}
use mo_belt.Session.Pool.{SessionPool, alloc, release, put_slot}
use mo_belt.Session.Invariant.{times, alloc_lem}
use mo_belt.Session.Noted.{Noted, put_slot-Noted}
use mo_belt.Session.Link.{release-SameLink}
use mo_belt.RoomManager.Books.{BooksOk}
use mo_belt.RoomManager.Join.Leave.{Noted-BooksOk, release-BooksOk}
use mo_belt.EpollWorker.{
  World, Kernel, count, AcceptAnswer, accepted, accept_interrupted, accept_again, slot, put,
  with_kernel, next_ctl,
}
use mo_belt.EpollWorker.NetOk.{NetOk, Quiet-NetOk}
use mo_belt.EpollWorker.Sending.{aside}
use mo_belt.EpollWorker.Loop.{adopt, welcome, accept_on, handle_accept, max_accept_per_wake}
use mo_belt.EpollWorker.Rounds.Handing.{alloc-link, BooksOk-exhausted, BooksOk-handed}

module _ {Buf : Type 0} (r : Ring Buf) where
  module _ (elsewhere owned : ℕ → ℕ) (theirs : ℕ → ℕ → ℕ) (me : ℕ) (known : ℕ → Type 0) where
    abbrev Good : World Buf → Type 0
    Good = NetOk elsewhere owned theirs me known

    -- A slot that `Alloc` has handed out, before it is in the list: its reference is the worker's.
    record Handed (i : ℕ) (w : World Buf) : Type 0 where
      books :
          BooksOk
            (λ j. elsewhere j + times j w.mine + to_ℕ (i == j))
            owned
            w.server.rooms
            w.server.sessions
      fresh_here : elsewhere i + times i w.mine ≡ 0
      once : (j : ℕ) → elsewhere j + times j w.mine ≤ 1
      alive : (j : ℕ) → elsewhere j + times j w.mine ≢ 0 → (slot w j).dead ≡ false
      heard : (j : ℕ) → j ≢ i → known j → (slot w j).dead ≡ false → times j w.mine ≢ 0
      bound :
          (j : ℕ)
          → j ≢ i
          → (slot w j).owner ≡ w.id
          → (slot w j).dead ≡ false
          → (slot w j).fd ≢ none
          → times j w.mine ≢ 0
      claims :
          (j : ℕ)
          → j ≢ i
          → (slot w j).owner ≢ w.id
          → (slot w j).dead ≡ false
          → (slot w j).fd ≢ none
          → theirs (slot w j).owner j ≢ 0
      number : w.id ≡ me
      living : (slot w i).dead ≡ false

    module _ (i : ℕ) (w : World Buf) (h : Handed i w) where
      own_idx : (slot w i).idx ≡ i
      own_idx = ground (arith, h.books.pool.own_idx i, h.books.pool.beyond i, h.books.balance i)

      -- The socket is watched and the session in the list.
      watched :
          (k : Kernel) (s : Session Buf)
          → s.refs ≡ (slot w i).refs
          → s.gen ≡ (slot w i).gen
          → s.idx ≡ (slot w i).idx
          → s.dead ≡ (slot w i).dead
          → s.owner ≡ w.id
          → let v = put i s w in Good (record v { mine = s.idx ∷ v.mine; kernel = k })
      watched k s refs gen idx dead owner =
          let listed : (j : ℕ) → times j (s.idx ∷ w.mine) ≡ to_ℕ (i == j) + times j w.mine =
            λ j. ap (λ x. to_ℕ (x == j) + times j w.mine) (idx ∙ own_idx) in
          record {
            books =
                subst (λ l. BooksOk l owned w.server.rooms (put_slot w.server.sessions i s))
                  (fun_ext (λ j. omega (arith, listed j)))
                  (Noted-BooksOk h.books (put_slot-Noted w.server.sessions i s refs gen idx));
            once = λ j. ground (arith, listed j, h.once j, h.fresh_here);
            alive = λ j n. ground (arith, listed j, n, h.alive j, dead, h.living);
            heard = λ j known_j d z. ground (arith, listed j, z, d, h.heard j, known_j);
            bound = λ j o d e z. ground (arith, listed j, z, o, d, e, h.bound j);
            claims = λ j o d e. ground (arith, o, d, e, owner, h.claims j);
            number = h.number;
          }

      -- The socket could not be watched: the session is dead, and its reference given back.
      dropped :
          (k : Kernel) (s t : Session Buf)
          → t.refs ≡ (slot w i).refs
          → t.gen ≡ (slot w i).gen
          → t.idx ≡ (slot w i).idx
          → t.dead ≡ true
          → let v = put i t (put i s w) in
            Good (record v {
              kernel = k;
              server = record (v.server) { sessions = release v.server.sessions i };
            })
      dropped k s t refs gen idx dead =
          let p = put_slot (put_slot w.server.sessions i s) i t in
          let noted : Noted w.server.sessions p = record {
            cap = refl;
            free = refl;
            refs = λ j. ground arith;
            gen = λ j. ground arith;
            idx = λ j. ground arith;
          } in
          let link = release-SameLink p i in
          let off : (j : ℕ) → j ≢ i → p.slots j ≡ slot w j = λ j ne. ground arith in
          let other : (j : ℕ) → ((release p i).slots j).dead ≡ false → j ≢ i =
            λ j d. ground (arith, link.dead j, d, dead) in
          record {
            books =
                subst (λ l. BooksOk l owned w.server.rooms (release p i))
                  (fun_ext (λ j. ground (arith, h.fresh_here)))
                  (release-BooksOk i (Noted-BooksOk h.books noted) (λ z. ground arith));
            once = h.once;
            alive = λ j n.
                let ne : j ≢ i = λ e. n (ap (λ x. elsewhere x + times x w.mine) e ∙ h.fresh_here) in
                link.dead j ∙ ap (λ s. s.dead) (off j ne) ∙ h.alive j n;
            heard = λ j known_j d.
                let ne = other j d in
                h.heard j ne known_j (sym (link.dead j ∙ ap (λ s. s.dead) (off j ne)) ∙ d);
            bound = λ j o d e.
                let ne = other j d in
                h.bound j ne (sym (link.owner j ∙ ap (λ s. s.owner) (off j ne)) ∙ o)
                  (sym (link.dead j ∙ ap (λ s. s.dead) (off j ne)) ∙ d)
                  (λ n. e (link.fd j ∙ ap (λ s. s.fd) (off j ne) ∙ n));
            claims = λ j o d e.
                let ne = other j d in
                let same = link.owner j ∙ ap (λ s. s.owner) (off j ne) in
                subst (λ k. theirs k j ≢ 0) (sym same)
                  (h.claims j ne (λ z. o (same ∙ z))
                    (sym (link.dead j ∙ ap (λ s. s.dead) (off j ne)) ∙ d)
                    (λ n. e (link.fd j ∙ ap (λ s. s.fd) (off j ne) ∙ n)));
            number = h.number;
          }

    adopt-NetOk : (fd i : ℕ) (w : World Buf) → Handed i w → Good (adopt r fd i w)
    unfolding adopt
    adopt-NetOk fd i w h =
        let x = next_ctl w.kernel.ctls in
        let s : Session Buf = record (slot w i) { fd = some fd; owner = w.id } in
        let asked = with_kernel (λ k. record k { ctls = x.1 }) (put i s w) in
        let at : slot asked i ≡ s = ground arith in
        let t : Session Buf = record (slot asked i) { fd = none; dead = true } in
        if_cases Good x.0 _ _
          (λ e.
            subst
              (λ u. Good (
                count (λ c. record c { accepts = c.accepts + 1 })
                  (record asked { mine = u.idx ∷ asked.mine })))
              (sym at)
              (let g = watched i w h asked.kernel s refl refl refl refl refl in
                record {
                  books = g.books;
                  once = g.once;
                  alive = g.alive;
                  heard = g.heard;
                  bound = g.bound;
                  claims = g.claims;
                  number = g.number;
                }))
          (λ e.
            dropped i w h _ s t (ap (λ u. u.refs) at) (ap (λ u. u.gen) at) (ap (λ u. u.idx) at)
              refl)

    -- What `Alloc` leaves, in each of its two ends.
    module _ (fd : ℕ) (w : World Buf) (h : Good w) where
      abbrev pool : SessionPool Buf
      pool = (alloc r w.server.sessions).1

      abbrev after : World Buf
      after = record w { server = record (w.server) { sessions = pool } }

      no_slot :
          (alloc r w.server.sessions).0 ≡ none → (k : Kernel) → Good (record after { kernel = k })
      no_slot e k =
          let same = λ (j : ℕ). alloc-link r w.server.sessions j (λ s. cc) in
          record {
            books = BooksOk-exhausted r w.server.sessions h.books e;
            once = h.once;
            alive = λ j n. (same j).0 ∙ h.alive j n;
            heard = λ j known_j d. h.heard j known_j (sym (same j).0 ∙ d);
            bound = λ j o d f.
                h.bound j (sym (same j).1 ∙ o) (sym (same j).0 ∙ d) (λ n. f ((same j).2 ∙ n));
            claims = λ j o d f.
                subst (λ k. theirs k j ≢ 0) (sym (same j).1)
                  (h.claims j (λ z. o ((same j).1 ∙ z)) (sym (same j).0 ∙ d)
                    (λ n. f ((same j).2 ∙ n)));
            number = h.number;
          }

      got_slot : (i : ℕ) → (alloc r w.server.sessions).0 ≡ some i → Handed i after
      got_slot i e =
          let (books, zero_before) = BooksOk-handed r w.server.sessions h.books i e in
          let (handed, others, gens) = alloc_lem r w.server.sessions h.books.pool in
          let same = λ (j : ℕ) (ne : j ≢ i). alloc-link r w.server.sessions j (λ s. ne cc) in
          record {
            books = books;
            fresh_here = zero_before;
            once = h.once;
            alive = λ j n.
                let ne : j ≢ i = λ z. n (ap (λ x. elsewhere x + times x w.mine) z ∙ zero_before) in
                (same j ne).0 ∙ h.alive j n;
            heard = λ j ne known_j d. h.heard j known_j (sym (same j ne).0 ∙ d);
            bound = λ j ne o d f.
                h.bound j (sym (same j ne).1 ∙ o) (sym (same j ne).0 ∙ d)
                  (λ n. f ((same j ne).2 ∙ n));
            claims = λ j ne o d f.
                subst (λ k. theirs k j ≢ 0) (sym (same j ne).1)
                  (h.claims j (λ z. o ((same j ne).1 ∙ z)) (sym (same j ne).0 ∙ d)
                    (λ n. f ((same j ne).2 ∙ n)));
            number = h.number;
            living = (handed i e).3;
          }

      -- A new connection gets a slot of its own, or is closed.
      welcome-NetOk : Good (welcome r fd w)
      unfolding welcome
      welcome-NetOk = ends (alloc r w.server.sessions).0 refl
        where
          ends :
              (got : Option ℕ)
              → (alloc r w.server.sessions).0 ≡ got
              → Good (elim got as (λ _. World Buf) [
                | none ↦ with_kernel (λ k. record k { closed_fds = fd ∷ k.closed_fds }) after
                | some i ↦ adopt r fd i after
              ])
          ends none e = no_slot e _
          ends (some i) e = adopt-NetOk fd i after (got_slot i e)

    accept_on-NetOk :
        (rounds : ℕ) (answers : List AcceptAnswer) (w : World Buf)
        → Good w
        → Good (accept_on r rounds answers w)
    unfolding accept_on
    accept_on-NetOk zero answers w h = h
    accept_on-NetOk (suc rounds) [] w h = h
    accept_on-NetOk (suc rounds) (accepted fd ∷ rest) w h =
        let v = with_kernel (λ k. record k { accepts = rest }) w in
        accept_on-NetOk rounds rest (welcome r fd v)
          (welcome-NetOk fd v (Quiet-NetOk (aside v.kernel w) h))
    accept_on-NetOk (suc rounds) (accept_interrupted ∷ rest) w h =
        let v = with_kernel (λ k. record k { accepts = rest }) w in
        accept_on-NetOk rounds rest v (Quiet-NetOk (aside v.kernel w) h)
    accept_on-NetOk (suc rounds) (accept_again ∷ rest) w h = Quiet-NetOk (aside _ w) h

    pub handle_accept-NetOk : (w : World Buf) → Good w → Good (handle_accept r w)
    unfolding handle_accept
    handle_accept-NetOk w h = accept_on-NetOk max_accept_per_wake w.kernel.accepts w h
