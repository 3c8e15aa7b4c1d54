-- ===== src/Server/Shutdown.antt =====
-- When the main loop of the server ends.
use protos_tpe_g.Prelude.{
  ℕ, zero, suc, ◌+◌, ◌<◌, ◌≡◌, ◌⊎◌, inl, inr, refl, ap, ap₂, ◌∙◌, ◌==◌, Bool, true, false, not,
  ◌&&◌, if_lem, List, [], ◌∷◌, ◌++◌, ltb, Bool-cases, arith,
}
use protos_tpe_g.Server.{
  Flags, sigterm_handler, signals, Server, Round, with_signals, stop_listening, stop_if_requested,
  loop, listening,
}

-- the flags behind so many signals
abbrev pub of_count : ℕ → Flags
of_count k = record { shutdown_requested = ltb 0 k; force_shutdown = ltb 1 k }

sigterm_handler-of_count : (k : ℕ) → sigterm_handler (of_count k) ≡ of_count (suc k)
unfolding sigterm_handler
sigterm_handler-of_count k = elim (Bool-cases (ltb 0 k)) [
  | inl some_before ↦
      let r : ltb 0 (suc k) ≡ true = ground arith in
      let f : ltb 1 (suc k) ≡ true = ground arith in rw (some_before, r, f) refl
  | inr first ↦
      let r : ltb 0 (suc k) ≡ true = ground arith in
      let f : ltb 1 k ≡ ltb 1 (suc k) = ground arith in rw (first, r, f) refl
]

signals-of_count : (n k : ℕ) → signals n (of_count k) ≡ of_count (k + n)
unfolding signals
signals-of_count zero k = ap of_count (omega arith)
signals-of_count (suc n) k =
    ap (signals n) (sigterm_handler-of_count k)
    ∙ (signals-of_count n (suc k) ∙ ap of_count (omega arith))

unfoldable pub total : List Round → ℕ
total [] = 0
total (r ∷ rounds) = r.during + r.behind + total rounds

module _ (server_fd management_fd : ℕ) where
  stop_if_requested-flags :
      (s : Server) → (stop_if_requested server_fd management_fd s).flags ≡ s.flags
  unfolding stop_if_requested stop_listening
  stop_if_requested-flags s =
      if_lem (λ (x : Server). x.flags ≡ s.flags)
        (s.flags.shutdown_requested && not s.stopped_accepting) (λ _. refl) (λ _. refl)

  stop_if_requested-stopped :
      (s : Server)
      → s.flags.shutdown_requested ≡ true
      → (stop_if_requested server_fd management_fd s).stopped_accepting ≡ true
  unfolding stop_if_requested stop_listening
  stop_if_requested-stopped s h = elim (Bool-cases s.stopped_accepting) [
    | inl stopped ↦ rw (h, stopped) refl
    | inr accepting ↦ rw (h, accepting) refl
  ]

  stop_if_requested-idle :
      (s : Server)
      → s.flags.shutdown_requested ≡ false
      → (stop_if_requested server_fd management_fd s).stopped_accepting ≡ s.stopped_accepting
  unfolding stop_if_requested
  stop_if_requested-idle s h = rw h refl

  abbrev one_round : Round → Server → Server
  one_round r s = stop_if_requested server_fd management_fd (with_signals r.during s)

  round-flags :
      (k : ℕ) (r : Round) (s : Server)
      → s.flags ≡ of_count k
      → (with_signals r.behind (one_round r s)).flags ≡ of_count (k + r.during + r.behind)
  round-flags k r s h =
      ap (signals r.behind) (
        stop_if_requested-flags (with_signals r.during s)
        ∙ (ap (signals r.during) h ∙ signals-of_count r.during k))
      ∙ signals-of_count r.behind (k + r.during)

  -- a round does not end the loop, or the rest decides
  loop-either :
      (P : Bool × Server → Type 0) (r : Round) (rounds : List Round) (s : Server)
      → (s.flags.force_shutdown ≡ true → P (true, s))
      → ((one_round r s).stopped_accepting && r.active == 0 ≡ true → P (true, one_round r s))
      → ((one_round r s).stopped_accepting && r.active == 0 ≡ false
          → P (loop server_fd management_fd rounds (with_signals r.behind (one_round r s))))
      → P (loop server_fd management_fd (r ∷ rounds) s)
  unfolding loop
  loop-either P r rounds s a b c =
      if_lem P s.flags.force_shutdown a
        (λ _. if_lem P ((one_round r s).stopped_accepting && r.active == 0) b c)

  loop-forced :
      (rounds : List Round) (k : ℕ) (s : Server)
      → s.flags ≡ of_count k
      → 1 < k + total rounds
      → (loop server_fd management_fd rounds s).0 ≡ true
  unfolding loop total
  loop-forced [] k s h l = ap (λ (f : Flags). f.force_shutdown) h ∙ ground arith
  loop-forced (r ∷ rounds) k s h l =
      loop-either (λ p. p.0 ≡ true) r rounds s (λ _. refl) (λ _. refl)
        (λ _.
          loop-forced rounds (k + r.during + r.behind) (with_signals r.behind (one_round r s))
            (round-flags k r s h) (omega arith))

  loop-idle :
      (before : List Round) (r : Round) (rest : List Round) (k : ℕ) (s : Server)
      → s.flags ≡ of_count k
      → 0 < k + total before + r.during
      → r.active ≡ 0
      → (loop server_fd management_fd (before ++ (r ∷ rest)) s).0 ≡ true
  unfolding total
  loop-idle [] r rest k s h l a =
      loop-either (λ p. p.0 ≡ true) r rest s (λ _. refl) (λ _. refl)
        (λ n.
          let asked : (signals r.during s.flags).shutdown_requested ≡ true =
            ap (λ (f : Flags). f.shutdown_requested)
              (ap (signals r.during) h ∙ signals-of_count r.during k)
            ∙ ground arith in
          let stopped = stop_if_requested-stopped (with_signals r.during s) asked in
          let zero_left : (r.active == 0) ≡ true = ground arith in
          let both : ((one_round r s).stopped_accepting && r.active == 0) ≡ true =
            ap₂ (λ a b. a && b) stopped zero_left in
          absurd (cc (both, n)))
  loop-idle (b ∷ before) r rest k s h l a =
      loop-either (λ p. p.0 ≡ true) b (before ++ (r ∷ rest)) s (λ _. refl) (λ _. refl)
        (λ _.
          loop-idle before r rest (k + b.during + b.behind) (with_signals b.behind (one_round b s))
            (round-flags k b s h) (omega arith) a)

  loop-goes_on :
      (rounds : List Round) (s : Server)
      → s.flags ≡ of_count 0
      → s.stopped_accepting ≡ false
      → total rounds ≡ 0
      → (loop server_fd management_fd rounds s).0 ≡ false
  unfolding loop total
  loop-goes_on [] s h a t = ap (λ (f : Flags). f.force_shutdown) h
  loop-goes_on (r ∷ rounds) s h a t =
      let asked : (signals r.during s.flags).shutdown_requested ≡ false =
        ap (λ (f : Flags). f.shutdown_requested)
          (ap (signals r.during) h ∙ signals-of_count r.during 0)
        ∙ ground arith in
      let still : (one_round r s).stopped_accepting ≡ false =
        stop_if_requested-idle (with_signals r.during s) asked ∙ a in
      loop-either (λ p. p.0 ≡ false) r rounds s
        (λ f. let none_yet = ap (λ (f : Flags). f.force_shutdown) h in absurd (cc (f, none_yet)))
        (λ e. let neither = ap (λ b. b && r.active == 0) still in absurd (cc (e, neither)))
        (λ _.
          let no_signal : 0 + r.during + r.behind ≡ 0 = omega arith in
          loop-goes_on rounds (with_signals r.behind (one_round r s))
            (round-flags 0 r s h ∙ ap of_count no_signal) still (omega arith))

listening-flags :
    (server_fd management_fd : ℕ) (closed : List ℕ) (early : ℕ)
    → (listening server_fd management_fd closed early).flags ≡ of_count early
listening-flags server_fd management_fd closed early =
    signals-of_count early 0 ∙ ap of_count (omega arith)

-- The main loop ends by the round in which, behind a first signal, no connection is active, and it
-- ends in any case once two signals have come.
pub loop-ends :
    (server_fd management_fd : ℕ) (closed : List ℕ) (early : ℕ) (before : List Round) (r : Round)
    (rest : List Round)
    → ((r.active ≡ 0) × (0 < early + total before + r.during))
      ⊎ (1 < early + total (before ++ (r ∷ rest)))
    → (loop server_fd management_fd
        (before ++ (r ∷ rest))
        (listening server_fd management_fd closed early)).0
      ≡ true
loop-ends server_fd management_fd closed early before r rest (inl (a, h)) =
    loop-idle server_fd management_fd before r rest early
      (listening server_fd management_fd closed early)
      (listening-flags server_fd management_fd closed early) h a
loop-ends server_fd management_fd closed early before r rest (inr h) =
    loop-forced server_fd management_fd (before ++ (r ∷ rest)) early
      (listening server_fd management_fd closed early)
      (listening-flags server_fd management_fd closed early) h

-- Without a signal the main loop does not end, whether or not connections are active.
pub loop-no_signal :
    (server_fd management_fd : ℕ) (closed : List ℕ) (rounds : List Round)
    → total rounds ≡ 0
    → (loop server_fd management_fd rounds (listening server_fd management_fd closed 0)).0 ≡ false
loop-no_signal server_fd management_fd closed rounds h =
    loop-goes_on server_fd management_fd rounds (listening server_fd management_fd closed 0)
      (listening-flags server_fd management_fd closed 0) refl h
