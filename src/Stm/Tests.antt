-- ===== src/Stm/Tests.antt =====
-- A machine of two states that counts its arrivals up and its departures down.
use protos_tpe_g.Prelude.{
  ℕ, zero, suc, ◌-◌, ◌≡◌, ◌⊎◌, inl, inr, sym, ap, subst, ◌∙◌, refl, Option, none, some, [], ◌∷◌,
  get_elem?,
}
use protos_tpe_g.Stm.{
  StateDefinition, StateMachine, are_numbered, stm_init, notify, handle_first, jump, handle,
  stm_handler_close, stm_state,
}
use protos_tpe_g.Stm.Jumping.{IsValid, Paired, stm_init-IsValid}
use protos_tpe_g.Stm.Runs.{read_ready, stm_run, field_of, handle-stm_state, stm_run-Free}

abbrev counting : ℕ → ℕ → StateDefinition ℕ
counting i next = record {
  state = i;
  on_arrival = some (λ state n. suc n);
  on_departure = some (λ state n. n - 1);
  on_read_ready = some (λ n. (next, n));
  on_write_ready = none;
  on_block_ready = none;
}

abbrev machine : StateMachine ℕ
machine = record {
  initial = 0;
  states = counting 0 1 ∷ (counting 1 0 ∷ []);
  max_state = 1;
  current = none;
}

started : stm_init machine ≡ some machine
unfolding stm_init are_numbered
started = refl

-- The last state cannot be the initial one.
refused : stm_init (record machine { initial = 1 }) ≡ none
unfolding stm_init are_numbered
refused = refl

abbrev Nobody : ℕ → Type 0
Nobody n = n ≡ 0

abbrev Somebody : ℕ → ℕ → Type 0
Somebody i n = n ≡ 1

shape :
    (i : ℕ) (d : StateDefinition ℕ)
    → get_elem? machine.states i ≡ some d
    → (d ≡ counting 0 1) ⊎ (d ≡ counting 1 0)
shape zero d e = let same : counting 0 1 ≡ d = cc in inl (sym same)
shape (suc zero) d e = let same : counting 1 0 ≡ d = cc in inr (sym same)
shape (suc (suc i)) d e = absurd cc

abbrev key_behind : Option (ℕ → ℕ × ℕ) → ℕ → ℕ
key_behind none n = n
key_behind (some f) n = (f n).1

abbrev KeptBy : StateDefinition ℕ → (ℕ → ℕ × ℕ) → ℕ → Type 0
KeptBy d f n =
    (d.on_read_ready ≡ some f) ⊎ ((d.on_write_ready ≡ some f) ⊎ (d.on_block_ready ≡ some f))
    → (f n).1 ≡ n

counting_keeps : (i next : ℕ) (f : ℕ → ℕ × ℕ) (n : ℕ) → KeptBy (counting i next) f n
counting_keeps i next f n (inl e) = sym (ap (λ o. key_behind o n) e)
counting_keeps i next f n (inr (inl e)) = absurd cc
counting_keeps i next f n (inr (inr e)) = absurd cc

keeps :
    (d : StateDefinition ℕ) (f : ℕ → ℕ × ℕ) (n : ℕ)
    → (d ≡ counting 0 1) ⊎ (d ≡ counting 1 0)
    → KeptBy d f n
keeps d f n (inl e) = subst (λ d. KeptBy d f n) (sym e) (counting_keeps 0 1 f n)
keeps d f n (inr e) = subst (λ d. KeptBy d f n) (sym e) (counting_keeps 1 0 f n)

arrival :
    (d : StateDefinition ℕ) (n : ℕ)
    → (d ≡ counting 0 1) ⊎ (d ≡ counting 1 0)
    → notify d.on_arrival d.state n ≡ suc n
arrival d n (inl e) = ap (λ d. notify d.on_arrival d.state n) e
arrival d n (inr e) = ap (λ d. notify d.on_arrival d.state n) e

departure :
    (d : StateDefinition ℕ) (n : ℕ)
    → (d ≡ counting 0 1) ⊎ (d ≡ counting 1 0)
    → notify d.on_departure d.state n ≡ n - 1
departure d n (inl e) = ap (λ d. notify d.on_departure d.state n) e
departure d n (inr e) = ap (λ d. notify d.on_departure d.state n) e

machine-Paired : Paired machine.states Nobody Somebody
machine-Paired = record {
  arrives = λ i d n e z. arrival d n (shape i d e) ∙ ap suc z;
  departs = λ i d n e z. departure d n (shape i d e) ∙ ap (λ k. k - 1) z;
  reads = λ i d f n e w z. keeps d f n (shape i d e) w ∙ z;
}

abbrev in_state : ℕ → StateMachine ℕ
in_state i = record machine { current = some i }

ran : stm_run (read_ready ∷ (read_ready ∷ (read_ready ∷ []))) machine 0 ≡ some (in_state 1, 1)
unfolding stm_run handle handle_first jump
ran = refl

closed : stm_handler_close (in_state 1) 1 ≡ some 0
unfolding stm_handler_close
closed = refl

pairs_example : IsValid (in_state 1) × Somebody 1 1 × Nobody 0
pairs_example =
    stm_run-Free Nobody Somebody machine machine (in_state 1)
      (read_ready ∷ (read_ready ∷ (read_ready ∷ []))) 0 1 0 started machine-Paired refl ran closed

moved : handle (field_of read_ready) machine 0 ≡ some (in_state 1, 1, 1)
unfolding handle handle_first jump
moved = refl

state_example : IsValid (in_state 1) × (stm_state (in_state 1) ≡ some 1)
state_example =
    handle-stm_state read_ready machine (in_state 1) 0 1 1
      (stm_init-IsValid machine machine started).0 moved
