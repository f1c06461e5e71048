-- ===== src/EpollWorker/NetOk.antt =====
-- The invariant of an epoll worker (server/src/EpollWorker.cpp): one reference on every session in
-- its list, all of which live.
use mo_belt.Prelude.{
  ℕ, ◌+◌, ◌≤◌, ◌≡◌, ◌≢◌, ◌∙◌, refl, sym, ap, arith, false, Option, none, some, List, ◌∷◌,
}
use mathlib.Core.Path.{subst}
use mo_belt.Session.{Session}
use mo_belt.Session.Invariant.{times}
use mo_belt.Session.Noted.{Noted, Noted-refl, Noted-trans, put_slot-Noted}
use mo_belt.RoomManager.Books.{BooksOk}
use mo_belt.RoomManager.Join.Leave.{Noted-BooksOk}
use mo_belt.EpollWorker.{World, slot, put, close_fd}

-- `elsewhere j` is the number of other epoll workers that have session `j`, `owned` says which rooms
-- are in game workers' lists, and `known` holds of the sessions that this worker has heard of: while
-- such a session lives it is in the worker's list. So is every live session with a socket that names
-- this worker as its owner.
pub record NetOk {Buf : Type 0} (elsewhere owned : ℕ → ℕ) (theirs : ℕ → ℕ → ℕ) (me : ℕ)
    (known : ℕ → Type 0) (w : World Buf) : Type 0 where
  pub books : BooksOk (λ j. elsewhere j + times j w.mine) owned w.server.rooms w.server.sessions
  pub once : (j : ℕ) → elsewhere j + times j w.mine ≤ 1
  pub alive : (j : ℕ) → elsewhere j + times j w.mine ≢ 0 → (slot w j).dead ≡ false
  pub heard : (j : ℕ) → known j → (slot w j).dead ≡ false → times j w.mine ≢ 0
  pub bound :
      (j : ℕ)
      → (slot w j).owner ≡ w.id
      → (slot w j).dead ≡ false
      → (slot w j).fd ≢ none
      → times j w.mine ≢ 0
  pub claims :
      (j : ℕ)
      → (slot w j).owner ≢ w.id
      → (slot w j).dead ≡ false
      → (slot w j).fd ≢ none
      → theirs (slot w j).owner j ≢ 0
  pub number : w.id ≡ me

module _ {Buf : Type 0} where
  -- A step that concerns no reference and cuts nobody.
  pub record Quiet (w v : World Buf) : Type 0 where
    pub mine : v.mine ≡ w.mine
    pub rooms : v.server.rooms ≡ w.server.rooms
    pub noted : Noted w.server.sessions v.server.sessions
    pub dead : (j : ℕ) → (slot v j).dead ≡ (slot w j).dead
    pub id : v.id ≡ w.id
    pub owner : (j : ℕ) → (slot v j).owner ≡ (slot w j).owner
    pub opened : (j : ℕ) → (slot v j).fd ≢ none → (slot w j).fd ≢ none

  pub Quiet-refl : (w : World Buf) → Quiet w w
  Quiet-refl w = record {
    mine = refl;
    rooms = refl;
    noted = Noted-refl w.server.sessions;
    dead = λ j. refl;
    id = refl;
    owner = λ j. refl;
    opened = λ j o. o;
  }

  pub Quiet-trans : {u v w : World Buf} → Quiet u v → Quiet v w → Quiet u w
  Quiet-trans g h = record {
    mine = h.mine ∙ g.mine;
    rooms = h.rooms ∙ g.rooms;
    noted = Noted-trans g.noted h.noted;
    dead = λ j. h.dead j ∙ g.dead j;
    id = h.id ∙ g.id;
    owner = λ j. h.owner j ∙ g.owner j;
    opened = λ j o. g.opened j (h.opened j o);
  }

  -- A write to a session that leaves these fields.
  pub put-Quiet :
      (i : ℕ) (s : Session Buf) (w : World Buf)
      → s.refs ≡ (slot w i).refs
      → s.gen ≡ (slot w i).gen
      → s.idx ≡ (slot w i).idx
      → s.dead ≡ (slot w i).dead
      → s.owner ≡ (slot w i).owner
      → s.fd ≡ (slot w i).fd
      → Quiet w (put i s w)
  put-Quiet i s w refs gen idx dead owner fd = record {
    mine = refl;
    rooms = refl;
    noted = put_slot-Noted w.server.sessions i s refs gen idx;
    dead = λ j. ground arith;
    id = refl;
    owner = λ j. ground arith;
    opened = λ j o. λ e. o (ground (arith, fd, e));
  }

  pub close_fd-Quiet : (i : ℕ) (w : World Buf) → Quiet w (close_fd i w)
  unfolding close_fd
  close_fd-Quiet i w = closing (slot w i).fd
    where
      closing :
          (fd : Option ℕ)
          → Quiet w (elim fd as (λ _. World Buf) [
            | none ↦ w
            | some fd ↦
                put i
                  (record (slot w i) { fd = none })
                  (record w {
                    kernel = record (w.kernel) { closed_fds = fd ∷ w.kernel.closed_fds };
                  })
          ])
      closing none = Quiet-refl w
      closing (some fd) = record {
        mine = refl;
        rooms = refl;
        noted = put_slot-Noted w.server.sessions i _ refl refl refl;
        dead = λ j. ground arith;
        id = refl;
        owner = λ j. ground arith;
        opened = λ j o e. o (ground (arith, e));
      }

  module _ {elsewhere owned : ℕ → ℕ} {theirs : ℕ → ℕ → ℕ} {me : ℕ} {known : ℕ → Type 0} where
    pub Quiet-NetOk :
        {w v : World Buf}
        → Quiet w v
        → NetOk elsewhere owned theirs me known w
        → NetOk elsewhere owned theirs me known v
    Quiet-NetOk {w} {v} q h =
        let live : (l : List ℕ) → ℕ → ℕ = λ l j. elsewhere j + times j l in
        record {
          books =
              subst (λ l. BooksOk (live l) owned v.server.rooms v.server.sessions) (sym q.mine)
                (subst (λ m. BooksOk (live w.mine) owned m v.server.sessions) (sym q.rooms)
                  (Noted-BooksOk h.books q.noted));
          once = λ j. omega (arith, h.once j, ap (times j) q.mine);
          alive = λ j n. q.dead j ∙ h.alive j (λ z. n (omega (arith, z, ap (times j) q.mine)));
          heard = λ j k d z. h.heard j k (sym (q.dead j) ∙ d) (sym (ap (times j) q.mine) ∙ z);
          bound = λ j o d e z.
              h.bound j (sym (q.owner j) ∙ o ∙ q.id) (sym (q.dead j) ∙ d) (q.opened j e)
                (sym (ap (times j) q.mine) ∙ z);
          claims = λ j o d e.
              let other : (slot w j).owner ≢ w.id = λ z. o (q.owner j ∙ z ∙ sym q.id) in
              subst (λ k. theirs k j ≢ 0) (sym (q.owner j))
                (h.claims j other (sym (q.dead j) ∙ d) (q.opened j e));
          number = q.id ∙ h.number;
        }
