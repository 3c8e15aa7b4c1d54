-- ===== src/Stm/Runs.antt =====
-- The machine from `stm_init` on, over the events of the selector.
use protos_tpe_g.Prelude.{
  ℕ, ◌≤◌, ◌≡◌, refl, ap, sym, subst, ◌∙◌, inl, inr, Option, none, some, List, [], ◌∷◌, ◌>>=◌,
}
use protos_tpe_g.Stm.{
  StateDefinition, StateMachine, stm_init, handle, stm_handler_close, state_of, stm_state,
}
use protos_tpe_g.Stm.Pairing.{IsReady, handle-Lands}
use protos_tpe_g.Stm.Jumping.{IsValid, Paired, Held, stm_init-IsValid, leave-Held}

pub data Event : Type 0 where
  read_ready write_ready block_ready : Event

module _ {K : Type 0} where
  abbrev pub field_of : Event → StateDefinition K → Option (K → ℕ × K)
  field_of read_ready d = d.on_read_ready
  field_of write_ready d = d.on_write_ready
  field_of block_ready d = d.on_block_ready

  field_of-IsReady :
      (e : Event) (d : StateDefinition K) (f : K → ℕ × K) → field_of e d ≡ some f → IsReady d f
  field_of-IsReady read_ready d f h = inl h
  field_of-IsReady write_ready d f h = inr (inl h)
  field_of-IsReady block_ready d f h = inr (inr h)

  abbrev pub run_from :
      (StateMachine K → K → Option (StateMachine K × K))
      → Option (StateMachine K × K × ℕ)
      → Option (StateMachine K × K)
  run_from next none = none
  run_from next (some (m, key, ret)) = next m key

  -- the calls of `stm_handler_read`, `stm_handler_write` and `stm_handler_block` for the events
  unfoldable pub stm_run : List Event → StateMachine K → K → Option (StateMachine K × K)
  stm_run [] m key = some (m, key)
  stm_run (e ∷ es) m key = run_from (stm_run es) (handle (field_of e) m key)

  IsValid-current :
      (m : StateMachine K) (ret : ℕ)
      → IsValid m
      → ret ≤ m.max_state
      → IsValid (record m { current = some ret })
  IsValid-current m ret v h = record { numbered = v.numbered; initial = v.initial; current = h }

  Paired-none : (m : StateMachine K) → Paired m.states (λ _. Unit) (λ _ _. Unit)
  Paired-none m = record {
    arrives = λ i d key g f. tt;
    departs = λ i d key g f. tt;
    reads = λ i d f key g w h. tt;
  }

  Held-none : (c : Option ℕ) (key : K) → Held (λ _. Unit) (λ _ _. Unit) c key
  Held-none none key = tt
  Held-none (some i) key = tt

  -- A handler that does not abort returns the number of the state in which it leaves a valid
  -- machine, which is valid again.
  pub handle-stm_state :
      (e : Event) (m m' : StateMachine K) (key key' : K) (ret : ℕ)
      → IsValid m
      → handle (field_of e) m key ≡ some (m', key', ret)
      → IsValid m' × (stm_state m' ≡ some ret)
  unfolding stm_state
  handle-stm_state e m m' key key' ret v h =
      let (r, same, _) =
        handle-Lands (λ _. Unit) (λ _ _. Unit) (field_of e) (field_of-IsReady e) m (Paired-none m)
          key (Held-none m.current key) (m', key', ret) h in
      let (d, g, n) = v.numbered ret r in
      (
        subst IsValid (sym same) (IsValid-current m ret v r),
        subst (λ x. state_of x.current x ≡ some ret) (sym same)
            (ap (λ o. o >>= λ d. some d.state) g ∙ ap some n),
      )

  module _ (Free : K → Type 0) (Holds : ℕ → K → Type 0) where
    stm_run-Held :
        (es : List Event) (m m' : StateMachine K) (key key' : K)
        → Paired m.states Free Holds
        → IsValid m
        → Held Free Holds m.current key
        → stm_run es m key ≡ some (m', key')
        → IsValid m' × Held Free Holds m'.current key' × Paired m'.states Free Holds
    unfolding stm_run
    stm_run-Held [] m m' key key' p v h e =
        let same : ◌≡◌ {A = StateMachine K × K} (m, key) (m', key') = cc in
        subst
          (λ (q : StateMachine K × K).
            IsValid q.0 × Held Free Holds q.0.current q.1 × Paired q.0.states Free Holds)
          same (v, h, p)
    stm_run-Held (e ∷ es) m m' key key' p v h out =
        go (λ m1 key1 p1 v1 h1 f. stm_run-Held es m1 m' key1 key' p1 v1 h1 f)
          (handle (field_of e) m key) refl out
      where
        go :
            ((m1 : StateMachine K) (key1 : K)
              → Paired m1.states Free Holds
              → IsValid m1
              → Held Free Holds m1.current key1
              → stm_run es m1 key1 ≡ some (m', key')
              → IsValid m' × Held Free Holds m'.current key' × Paired m'.states Free Holds)
            → (o : Option (StateMachine K × K × ℕ)) → handle (field_of e) m key ≡ o
            → run_from (stm_run es) o ≡ some (m', key')
            → IsValid m' × Held Free Holds m'.current key' × Paired m'.states Free Holds
        go rest none g f = absurd cc
        go rest (some (m1, key1, ret)) g f =
            let (r, same, held) =
              handle-Lands Free Holds (field_of e) (field_of-IsReady e) m p key h (m1, key1, ret)
                g in
            rest m1 key1 (subst (λ x. Paired x.states Free Holds) (sym same) p)
              (subst IsValid (sym same) (IsValid-current m ret v r))
              (subst (λ x. Held Free Holds x.current key1) (sym same) held) f

    -- From `stm_init` over any events, as long as nothing aborts: the machine stays valid, what the
    -- arrival at a state brings about holds in that state, and `stm_handler_close` gives it back,
    -- if each departure does and the handlers of a state keep it.
    pub stm_run-Free :
        (m m0 m' : StateMachine K) (es : List Event) (key key' last : K)
        → stm_init m ≡ some m0
        → Paired m0.states Free Holds
        → Free key
        → stm_run es m0 key ≡ some (m', key')
        → stm_handler_close m' key' ≡ some last
        → IsValid m' × Held Free Holds m'.current key' × Free last
    unfolding stm_handler_close
    stm_run-Free m m0 m' es key key' last i p f r c =
        let (v, start) = stm_init-IsValid m m0 i in
        let (v', h, p') =
          stm_run-Held es m0 m' key key' p v (subst (λ o. Held Free Holds o key) (sym start) f) r in
        (v', h, leave-Held m' Free Holds p' m'.current key' last h c)
