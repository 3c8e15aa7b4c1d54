-- ===== src/Stm/Pairing.antt =====
-- What a call of a handler keeps, on any machine whose arrivals and departures are paired.
use protos_tpe_g.Prelude.{ℕ, ◌≤◌, ◌≡◌, ◌⊎◌, refl, sym, subst, Option, none, some, get_elem?}
use protos_tpe_g.Stm.{
  StateDefinition, StateMachine, enter, first_of, handle_first, jump, at_current, returning,
  call_ready, ready_of, handle_in, handle,
}
use protos_tpe_g.Stm.Jumping.{Paired, Held, enter-Held, jump-Held}

module _ {K : Type 0} where
  -- Where a call of a handler that does not abort leaves the machine.
  abbrev pub Lands : StateMachine K → (ℕ → K → Type 0) → StateMachine K × K × ℕ → Type 0
  Lands m Holds (m', key', ret) =
      (ret ≤ m.max_state) × (m' ≡ record m { current = some ret }) × Holds ret key'

  abbrev pub IsReady : StateDefinition K → (K → ℕ × K) → Type 0
  IsReady d f =
      (d.on_read_ready ≡ some f) ⊎ ((d.on_write_ready ≡ some f) ⊎ (d.on_block_ready ≡ some f))

  module _ (Free : K → Type 0) (Holds : ℕ → K → Type 0) where
    returning-Lands :
        (m : StateMachine K) (ret : ℕ) (o : Option (StateMachine K × K))
        (out : StateMachine K × K × ℕ)
        → ((m' : StateMachine K) (key' : K) → o ≡ some (m', key') → Lands m Holds (m', key', ret))
        → returning ret o ≡ some out
        → Lands m Holds out
    returning-Lands m ret none out h e = absurd cc
    returning-Lands m ret (some (m', key')) out h e =
        let same : ◌≡◌ {A = StateMachine K × K × ℕ} (m', key', ret) out = cc in
        subst (Lands m Holds) same (h m' key' refl)

    call_ready-Lands :
        (m : StateMachine K) (paired : Paired m.states Free Holds) (i : ℕ) (d : StateDefinition K)
        (key : K)
        → get_elem? m.states i ≡ some d
        → m.current ≡ some i
        → Holds i key
        → (r : Option (K → ℕ × K)) (out : StateMachine K × K × ℕ)
        → ((f : K → ℕ × K) → r ≡ some f → IsReady d f)
        → call_ready r m key ≡ some out
        → Lands m Holds out
    call_ready-Lands m paired i d key g c h none out which e = absurd cc
    call_ready-Lands m paired i d key g c h (some f) out which e =
        let held : Held Free Holds m.current (f key).1 =
          subst (λ o. Held Free Holds o (f key).1) (sym c)
            (paired.reads i d f key g (which f refl) h) in
        returning-Lands m (f key).0 (jump m (f key).0 (f key).1) out
          (λ m' key' j. jump-Held m Free Holds paired m' (f key).0 (f key).1 key' held j) e

    handle_in-Lands :
        (ready : StateDefinition K → Option (K → ℕ × K))
        → ((d : StateDefinition K) (f : K → ℕ × K) → ready d ≡ some f → IsReady d f)
        → (m : StateMachine K) (paired : Paired m.states Free Holds) (i : ℕ) (key : K)
        → m.current ≡ some i
        → Holds i key
        → (out : StateMachine K × K × ℕ) → handle_in ready (some (m, key)) ≡ some out
        → Lands m Holds out
    handle_in-Lands ready which m paired i key c h out e =
        go (get_elem? m.states i) refl
          (subst (λ o. call_ready (ready_of ready (at_current o m)) m key ≡ some out) c e)
      where
        go :
            (o : Option (StateDefinition K))
            → get_elem? m.states i ≡ o
            → call_ready (ready_of ready o) m key ≡ some out
            → Lands m Holds out
        go none g e = absurd cc
        go (some d) g e = call_ready-Lands m paired i d key g c h (ready d) out (which d) e

    pub handle-Lands :
        (ready : StateDefinition K → Option (K → ℕ × K))
        → ((d : StateDefinition K) (f : K → ℕ × K) → ready d ≡ some f → IsReady d f)
        → (m : StateMachine K) (paired : Paired m.states Free Holds) (key : K)
        → Held Free Holds m.current key
        → (out : StateMachine K × K × ℕ) → handle ready m key ≡ some out
        → Lands m Holds out
    unfolding handle handle_first
    handle-Lands ready which m paired key h out = go m.current refl h
      where
        go :
            (c : Option ℕ)
            → m.current ≡ c
            → Held Free Holds c key
            → handle_in ready (first_of c m key) ≡ some out
            → Lands m Holds out
        go (some i) c h e = handle_in-Lands ready which m paired i key c h out e
        go none c h e = entered (enter m m.initial key) refl e
          where
            entered :
                (o : Option (StateMachine K × K))
                → enter m m.initial key ≡ o
                → handle_in ready o ≡ some out
                → Lands m Holds out
            entered none g e = absurd cc
            entered (some (m1, key1)) g e =
                let (same, held) = enter-Held m Free Holds paired m1 m.initial key key1 h g in
                subst (λ x. handle_in ready (some (x, key1)) ≡ some out → Lands m Holds out)
                  (sym same)
                  (λ e'.
                    handle_in-Lands ready which (record m { current = some m.initial }) paired
                      m.initial key1 refl held out e')
                  e
