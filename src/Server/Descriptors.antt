-- ===== src/Server/Descriptors.antt =====
-- The descriptors of the server: those that `socket` gives, and those that are closed.
use protos_tpe_g.Prelude.{
  ℕ, ◌+◌, ◌≡◌, ◌≢◌, refl, ap, ◌∙◌, ◌==◌, Bool, true, false, not, ◌&&◌, if_lem, if◌then◌else◌,
  Option, none, some, List, [], ◌∷◌, ◌++◌, append_assoc, arith,
}
use protos_tpe_g.Server.{
  Attempt, no_socket, no_nonblock, no_bind, no_listen, listens, passive_from, create_passive_socket,
  Server, Round, with_signals, stop_listening, stop_if_requested, loop, finish, Setup, Run,
  listening, ended, run_selector, with_management, with_server, server_run,
}

-- how often a descriptor stands in a list
unfoldable pub count : ℕ → List ℕ → ℕ
count fd [] = 0
count fd (x ∷ xs) = (if fd == x then 1 else 0) + count fd xs

-- the descriptors that `socket` gave
pub opened : List Attempt → List ℕ
opened [] = []
opened (no_socket ∷ rest) = opened rest
opened (no_nonblock fd ∷ rest) = fd ∷ opened rest
opened (no_bind fd ∷ rest) = fd ∷ opened rest
opened (no_listen fd ∷ rest) = fd ∷ opened rest
opened (listens fd ∷ rest) = fd ∷ []

abbrev pub opened_of : Option (List Attempt) → List ℕ
opened_of none = []
opened_of (some attempts) = opened attempts

abbrev pub kept : Option ℕ → List ℕ
kept none = []
kept (some fd) = fd ∷ []

-- the management socket is only opened behind the server's
abbrev pub opened_behind : Option ℕ → Option (List Attempt) → List ℕ
opened_behind none attempts = []
opened_behind (some fd) attempts = opened_of attempts

unfoldable pub opened_in : Setup → List ℕ
opened_in setup =
    opened_of setup.server_socket
    ++ opened_behind (create_passive_socket setup.server_socket).0 setup.management_socket

passive_from-opened :
    (attempts : List Attempt) (closed : List ℕ)
    → (passive_from attempts closed).1 ++ kept (passive_from attempts closed).0
      ≡ closed ++ opened attempts
unfolding passive_from opened
passive_from-opened [] closed = refl
passive_from-opened (no_socket ∷ rest) closed = passive_from-opened rest closed
passive_from-opened (no_nonblock fd ∷ rest) closed =
    passive_from-opened rest (closed ++ (fd ∷ [])) ∙ append_assoc closed (fd ∷ []) (opened rest)
passive_from-opened (no_bind fd ∷ rest) closed =
    passive_from-opened rest (closed ++ (fd ∷ [])) ∙ append_assoc closed (fd ∷ []) (opened rest)
passive_from-opened (no_listen fd ∷ rest) closed =
    passive_from-opened rest (closed ++ (fd ∷ [])) ∙ append_assoc closed (fd ∷ []) (opened rest)
passive_from-opened (listens fd ∷ rest) closed = refl

create_passive_socket-opened :
    (attempts : Option (List Attempt))
    → (create_passive_socket attempts).1 ++ kept (create_passive_socket attempts).0
      ≡ opened_of attempts
unfolding create_passive_socket
create_passive_socket-opened none = refl
create_passive_socket-opened (some attempts) = passive_from-opened attempts []

count-append : (fd : ℕ) (xs ys : List ℕ) → count fd (xs ++ ys) ≡ count fd xs + count fd ys
unfolding count
count-append fd [] ys = omega arith
count-append fd (x ∷ xs) ys = omega (arith, count-append fd xs ys)

module _ (server_fd management_fd : ℕ) (base : List ℕ) where
  -- the listening descriptors in the loop
  data Listening (s : Server) : Type 0 where
    accepting : s.stopped_accepting ≡ false → s.closed ≡ base → Listening s
    stopped :
        s.stopped_accepting ≡ true
        → s.closed ≡ base ++ (server_fd ∷ (management_fd ∷ []))
        → s.registered ≡ []
        → Listening s

  Listening-with_signals : (n : ℕ) (s : Server) → Listening s → Listening (with_signals n s)
  Listening-with_signals n s (accepting a c) = accepting a c
  Listening-with_signals n s (stopped a c r) = stopped a c r

  Listening-stop_if_requested :
      (s : Server) → Listening s → Listening (stop_if_requested server_fd management_fd s)
  unfolding stop_if_requested stop_listening
  Listening-stop_if_requested s (accepting a c) =
      if_lem Listening (s.flags.shutdown_requested && not s.stopped_accepting)
        (λ _. stopped refl (ap (λ x. x ++ (server_fd ∷ (management_fd ∷ []))) c) refl)
        (λ _. accepting a c)
  Listening-stop_if_requested s (stopped a c r) =
      if_lem Listening (s.flags.shutdown_requested && not s.stopped_accepting)
        (λ e. absurd (ground (arith, a))) (λ _. stopped a c r)

  Listening-loop :
      (rounds : List Round) (s : Server)
      → Listening s
      → Listening (loop server_fd management_fd rounds s).1
  unfolding loop
  Listening-loop [] s h = h
  Listening-loop (r ∷ rounds) s h =
      let h' =
        Listening-stop_if_requested (with_signals r.during s)
          (Listening-with_signals r.during s h) in
      let s' = stop_if_requested server_fd management_fd (with_signals r.during s) in
      if_lem (λ (p : Bool × Server). Listening p.1) s.flags.force_shutdown (λ _. h)
        (λ _.
          if_lem (λ (p : Bool × Server). Listening p.1) (s'.stopped_accepting && r.active == 0)
            (λ _. h')
            (λ _.
              Listening-loop rounds (with_signals r.behind s')
                (Listening-with_signals r.behind s' h')))

  finish-closed :
      (s : Server)
      → Listening s
      → ((finish server_fd management_fd s).closed ≡ base ++ (server_fd ∷ (management_fd ∷ [])))
        × ((finish server_fd management_fd s).registered ≡ [])
  unfolding finish stop_listening
  finish-closed s (accepting a c) = rw a (ap (λ x. x ++ (server_fd ∷ (management_fd ∷ []))) c, refl)
  finish-closed s (stopped a c r) = rw a (c, r)

  ended-closed :
      (p : Bool × Server)
      → Listening p.1
      → (ended server_fd management_fd p).status ≢ none
      → (ended server_fd management_fd p).server.closed ≡ base ++ (server_fd ∷ (management_fd ∷ []))
  ended-closed (true, s) l h = (finish-closed s l).0
  ended-closed (false, s) l h = absurd (h refl)

  run_selector-closed :
      (fd : ℕ) (setup : Setup) (rounds : List Round)
      → (run_selector setup rounds server_fd management_fd base).status ≢ none
      → count fd (run_selector setup rounds server_fd management_fd base).server.closed
        ≡ count fd (base ++ (server_fd ∷ (management_fd ∷ [])))
  unfolding run_selector count
  run_selector-closed fd setup rounds =
      let swapped : count fd (base ++ (management_fd ∷ (server_fd ∷ [])))
          ≡ count fd (base ++ (server_fd ∷ (management_fd ∷ []))) =
        omega (
          arith,
          count-append fd base (management_fd ∷ (server_fd ∷ [])),
          count-append fd base (server_fd ∷ (management_fd ∷ [])),
        ) in
      if_lem P (not setup.selector_init) (λ _ _. swapped)
        (λ _.
          if_lem P (not setup.selector_new) (λ _ _. swapped)
            (λ _.
              if_lem P (not setup.register_server) (λ _ _. swapped)
                (λ _.
                  if_lem P (not setup.register_management) (λ _ _. swapped)
                    (λ _ h. ap (count fd) (
                      ended-closed
                        (loop server_fd management_fd rounds
                          (listening server_fd management_fd base setup.early))
                        (Listening-loop rounds (listening server_fd management_fd base setup.early)
                          (accepting refl refl))
                        h)))))
    where
      P : Run → Type 0
      P r =
          r.status ≢ none
          → count fd r.server.closed ≡ count fd (base ++ (server_fd ∷ (management_fd ∷ [])))

module _ (fd : ℕ) (setup : Setup) (rounds : List Round) where
  with_management-closed :
      (server_fd : ℕ) (closed : List ℕ) (r : Option ℕ × List ℕ)
      → (with_management setup rounds server_fd closed r).status ≢ none
      → count fd (with_management setup rounds server_fd closed r).server.closed
        ≡ count fd ((closed ++ (server_fd ∷ [])) ++ (r.1 ++ kept r.0))
  unfolding count
  with_management-closed server_fd closed (none, closed') h = omega (
    arith,
    count-append fd closed (closed' ++ (server_fd ∷ [])),
    count-append fd closed' (server_fd ∷ []),
    count-append fd (closed ++ (server_fd ∷ [])) (closed' ++ []),
    count-append fd closed (server_fd ∷ []),
    count-append fd closed' [],
  )
  with_management-closed server_fd closed (some management_fd, closed') h = omega (
    arith,
    run_selector-closed server_fd management_fd (closed ++ closed') fd setup rounds h,
    count-append fd (closed ++ closed') (server_fd ∷ (management_fd ∷ [])),
    count-append fd closed closed',
    count-append fd (closed ++ (server_fd ∷ [])) (closed' ++ (management_fd ∷ [])),
    count-append fd closed (server_fd ∷ []),
    count-append fd closed' (management_fd ∷ []),
  )

  with_server-closed :
      (r : Option ℕ × List ℕ)
      → (with_server setup rounds r).status ≢ none
      → count fd (with_server setup rounds r).server.closed
        ≡ count fd ((r.1 ++ kept r.0) ++ opened_behind r.0 setup.management_socket)
  unfolding count
  with_server-closed (none, closed) h =
      omega (arith, count-append fd (closed ++ []) [], count-append fd closed [])
  with_server-closed (some server_fd, closed) h =
      with_management-closed server_fd closed (create_passive_socket setup.management_socket) h
      ∙ ap (λ x. count fd ((closed ++ (server_fd ∷ [])) ++ x))
          (create_passive_socket-opened setup.management_socket)

-- A run of `server_run` that ends, on whichever of its paths, has closed each descriptor as often
-- as `socket` gave it.
pub server_run-closed :
    (fd : ℕ) (setup : Setup) (rounds : List Round)
    → (server_run setup rounds).status ≢ none
    → count fd (server_run setup rounds).server.closed ≡ count fd (opened_in setup)
unfolding server_run opened_in
server_run-closed fd setup rounds h =
    with_server-closed fd setup rounds (create_passive_socket setup.server_socket) h
    ∙ ap
        (λ x. count fd (
          x ++ opened_behind (create_passive_socket setup.server_socket).0 setup.management_socket))
        (create_passive_socket-opened setup.server_socket)
