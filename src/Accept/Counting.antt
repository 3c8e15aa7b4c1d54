-- ===== src/Accept/Counting.antt =====
-- What becomes of the descriptors that `accept` gives.
use protos_tpe_g.Prelude.{
  ℕ, suc, ◌+◌, ◌%◌, ◌^◌, ◌<◌, ◌≡◌, refl, ap, ◌∙◌, Bool, true, false, if_lem, Option, none, some,
  List, [], ◌∷◌, ◌++◌, length, length-append, arith,
}
use protos_tpe_g.Selector.{Selector, Status, success, enomem, maxfd, iargs, fdinuse, io}
use protos_tpe_g.Selector.Lifetime.{IsLarge}
use protos_tpe_g.Accept.{
  Accepted, no_connection, connection, Acceptor, Kind, close_fd, counted, registered, accept_one,
  then_accept, accept_all,
}
use protos_tpe_g.Accept.Registering.{
  count, taken, fds_of, states_given, count-append, fds_of-append, selector_register-IsLarge,
  states_given-cons,
}

module _ {State : Type 0} (kind : Kind State) where
  -- Every descriptor taken is closed or has a state, every state given is in use or freed, and
  -- what counts is counted, as a number of 64 bits.
  pub record Balanced (a : Acceptor State) (answers : List Accepted) (out : Acceptor State)
      : Type 0 where
    pub large : IsLarge out.selector
    pub fds :
        (fd : ℕ)
        → count fd out.closed + count fd (fds_of out.live)
          ≡ count fd a.closed + count fd (fds_of a.live) + count fd (taken answers)
    pub states : out.frees + length out.live ≡ a.frees + length a.live + states_given answers
    pub active :
        kind.counts ≡ true
        → (out.active + length a.live) % 2 ^ 64 ≡ (a.active + length out.live) % 2 ^ 64
    pub bounded : a.active < 2 ^ 64 → out.active < 2 ^ 64

  Balanced-close :
      (fd : ℕ) (nonblocking grows : Bool) (state : Option ℕ) (a : Acceptor State)
      → IsLarge a.selector
      → states_given (connection fd nonblocking state grows ∷ []) ≡ 0
      → Balanced a (connection fd nonblocking state grows ∷ []) (close_fd kind fd a)
  unfolding taken count
  Balanced-close fd nonblocking grows state a l z = record {
    large = l;
    fds = λ k. omega (arith, count-append k a.closed (fd ∷ []));
    states = omega (arith, z);
    active = λ c. refl;
    bounded = λ b. b;
  }

  module _ (fd state : ℕ) (grows : Bool) (a : Acceptor State) (s : Selector) (l : IsLarge s) where
    abbrev grown : Acceptor State
    grown = record a { selector = s; live = a.live ++ ((fd, kind.fresh fd) ∷ []) }

    fds-grown :
        (k : ℕ)
        → count k a.closed + count k (fds_of grown.live)
          ≡ count k a.closed
            + count k (fds_of a.live)
            + count k (taken (connection fd true (some state) grows ∷ []))
    unfolding taken count
    fds-grown k =
        let split : count k (fds_of grown.live) ≡ count k (fds_of a.live) + count k (fd ∷ []) =
          ap (count k) (fds_of-append a.live ((fd, kind.fresh fd) ∷ []))
          ∙ count-append k (fds_of a.live) (fd ∷ []) in
        omega (arith, split)

    Balanced-grown : Balanced a (connection fd true (some state) grows ∷ []) (counted kind grown)
    unfolding states_given
    Balanced-grown =
        let one = length-append a.live ((fd, kind.fresh fd) ∷ []) in
        if_lem (Balanced a (connection fd true (some state) grows ∷ [])) kind.counts
          (λ e. record {
            large = l;
            fds = fds-grown;
            states = omega (arith, one);
            active = λ c. omega (arith, one);
            bounded = λ b. omega arith;
          })
          (λ e. record {
            large = l;
            fds = fds-grown;
            states = omega (arith, one);
            active = λ c. absurd (cc (c, e));
            bounded = λ b. b;
          })

    abbrev dropped : Acceptor State
    dropped = close_fd kind fd (record a { selector = s; frees = suc a.frees })

    Balanced-dropped : Balanced a (connection fd true (some state) grows ∷ []) dropped
    unfolding states_given taken count
    Balanced-dropped = record {
      large = l;
      fds = λ k. omega (arith, count-append k a.closed (fd ∷ []));
      states = omega arith;
      active = λ c. refl;
      bounded = λ b. b;
    }

    -- whatever `selector_register` answers
    registered-Balanced :
        (status : Status)
        → (b : Acceptor State) × (registered kind fd (some (status, s)) a ≡ some b)
          × Balanced a (connection fd true (some state) grows ∷ []) b
    registered-Balanced success = (counted kind grown, refl, Balanced-grown)
    registered-Balanced enomem = (dropped, refl, Balanced-dropped)
    registered-Balanced maxfd = (dropped, refl, Balanced-dropped)
    registered-Balanced iargs = (dropped, refl, Balanced-dropped)
    registered-Balanced fdinuse = (dropped, refl, Balanced-dropped)
    registered-Balanced io = (dropped, refl, Balanced-dropped)

  accept_one-Balanced :
      (fd : ℕ) (nonblocking grows : Bool) (state : Option ℕ) (a : Acceptor State)
      → IsLarge a.selector
      → (b : Acceptor State) × (accept_one kind fd nonblocking state grows a ≡ some b)
        × Balanced a (connection fd nonblocking state grows ∷ []) b
  unfolding accept_one states_given
  accept_one-Balanced fd false grows state a l =
      (close_fd kind fd a, refl, Balanced-close fd false grows state a l refl)
  accept_one-Balanced fd true grows none a l =
      (close_fd kind fd a, refl, Balanced-close fd true grows none a l refl)
  accept_one-Balanced fd true grows (some state) a l =
      let ((status, s), e, large) =
        selector_register-IsLarge grows fd kind.handler state a.selector l in
      let (b, f, balanced) = registered-Balanced fd state grows a s large status in
      (b, ap (λ o. registered kind fd o a) e ∙ f, balanced)

  Balanced-trans :
      (fd : ℕ) (nonblocking grows : Bool) (state : Option ℕ) (answers : List Accepted)
      (x y z : Acceptor State)
      → Balanced x (connection fd nonblocking state grows ∷ []) y
      → Balanced y answers z
      → Balanced x (connection fd nonblocking state grows ∷ answers) z
  unfolding taken count
  Balanced-trans fd nonblocking grows state answers x y z p q = record {
    large = q.large;
    fds = λ k. omega (arith, p.fds k, q.fds k);
    states =
        omega (arith, p.states, q.states, states_given-cons fd nonblocking grows state answers);
    active = λ e. omega (arith, p.active e, q.active e);
    bounded = λ b. q.bounded (p.bounded b);
  }

  -- Over any answers of the system and a table as large as the server's, the loop that takes new
  -- connections stays inside the table and leaves it valid; each descriptor that it took is closed
  -- or has a state, as often as it was taken, each state that it was given is in use or freed, and
  -- the number of active connections, where it is kept, grows by the new ones modulo 2^64 and
  -- stays below 2^64.
  pub accept_all-Balanced :
      (answers : List Accepted) (a : Acceptor State)
      → IsLarge a.selector
      → (out : Acceptor State) × (accept_all kind answers a ≡ some out) × Balanced a answers out
  unfolding accept_all taken states_given count
  accept_all-Balanced [] a l = (
    a,
    refl,
    record {
      large = l;
      fds = λ k. omega arith;
      states = omega arith;
      active = λ e. refl;
      bounded = λ b. b;
    },
  )
  accept_all-Balanced (no_connection e ∷ answers) a l = (
    a,
    refl,
    record {
      large = l;
      fds = λ k. omega arith;
      states = omega arith;
      active = λ e. refl;
      bounded = λ b. b;
    },
  )
  accept_all-Balanced (connection fd nonblocking state grows ∷ answers) a l =
      let (b, e, p) = accept_one-Balanced fd nonblocking grows state a l in
      let (out, f, q) = accept_all-Balanced answers b p.large in
      (
        out,
        ap (then_accept kind (accept_all kind answers)) e ∙ f,
        Balanced-trans fd nonblocking grows state answers a b out p q,
      )
