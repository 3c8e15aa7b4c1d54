-- ===== src/Stm.antt =====
-- src/utils/stm.c: the state machine whose events are the selector's. `K` is what the handlers can
-- reach through the key. `none` is `abort()`, or a read behind the end of `states`.
pub mod Jumping
pub mod Pairing
pub mod Runs
mod Tests
use protos_tpe_g.Prelude.{
  ℕ, zero, suc, ◌+◌, ◌==◌, Bool, true, false, if◌then◌else◌, Option, none, some, List, [], ◌∷◌, ltb,
  length, get_elem?, ◌>>=◌,
}

-- `struct state_definition`
pub record StateDefinition (K : Type 0) : Type 0 where
  pub state : ℕ
  pub on_arrival : Option (ℕ → K → K)
  pub on_departure : Option (ℕ → K → K)
  pub on_read_ready : Option (K → ℕ × K)
  pub on_write_ready : Option (K → ℕ × K)
  pub on_block_ready : Option (K → ℕ × K)

-- `struct state_machine`; `current` is the index of the state, or none for `NULL`.
pub record StateMachine (K : Type 0) : Type 0 where
  pub initial : ℕ
  pub states : List (StateDefinition K)
  pub max_state : ℕ
  pub current : Option ℕ

abbrev pub is_current : Option ℕ → ℕ → Bool
is_current none next = false
is_current (some i) next = i == next

module _ {K : Type 0} where
  -- the loop of `stm_init` from `i` on, over `count` states
  unfoldable pub are_numbered : ℕ → ℕ → List (StateDefinition K) → Bool
  are_numbered zero i states = true
  are_numbered (suc count) i [] = false
  are_numbered (suc count) i (d ∷ states) =
      let rest = are_numbered count (suc i) states in if i == d.state then rest else false

  -- `stm_init`
  unfoldable pub stm_init : StateMachine K → Option (StateMachine K)
  stm_init m =
      if are_numbered (suc m.max_state) 0 m.states
      then if ltb m.initial m.max_state then some (record m { current = none }) else none
      else none

  -- a call of `on_arrival` or `on_departure`, unless it is `NULL`
  abbrev pub notify : Option (ℕ → K → K) → ℕ → K → K
  notify none state key = key
  notify (some f) state key = f state key

  -- to make a state the current one, and call its `on_arrival`
  abbrev pub enter : StateMachine K → ℕ → K → Option (StateMachine K × K)
  enter m i key = get_elem? m.states i >>= λ d.
      some (record m { current = some i }, notify d.on_arrival d.state key)

  abbrev pub first_of : Option ℕ → StateMachine K → K → Option (StateMachine K × K)
  first_of none m key = enter m m.initial key
  first_of (some i) m key = some (m, key)

  -- `handle_first`
  unfoldable pub handle_first : StateMachine K → K → Option (StateMachine K × K)
  handle_first m key = first_of m.current m key

  abbrev pub leave : Option ℕ → StateMachine K → K → Option K
  leave none m key = some key
  leave (some i) m key = get_elem? m.states i >>= λ d. some (notify d.on_departure d.state key)

  -- `jump`
  unfoldable pub jump : StateMachine K → ℕ → K → Option (StateMachine K × K)
  jump m next key =
      if ltb m.max_state next
      then none
      else if is_current m.current next
      then some (m, key)
      else leave m.current m key >>= λ key'. enter m next key'

  -- the current state's definition
  abbrev pub at_current : Option ℕ → StateMachine K → Option (StateDefinition K)
  at_current none m = none
  at_current (some i) m = get_elem? m.states i

  abbrev pub returning : ℕ → Option (StateMachine K × K) → Option (StateMachine K × K × ℕ)
  returning ret none = none
  returning ret (some (m, key)) = some (m, key, ret)

  -- the call of a handler of the state, and the jump to the state that it names
  abbrev pub call_ready : Option (K → ℕ × K) → StateMachine K → K → Option (StateMachine K × K × ℕ)
  call_ready none m key = none
  call_ready (some f) m key = returning (f key).0 (jump m (f key).0 (f key).1)

  abbrev pub ready_of :
      (StateDefinition K → Option (K → ℕ × K)) → Option (StateDefinition K) → Option (K → ℕ × K)
  ready_of ready none = none
  ready_of ready (some d) = ready d

  abbrev pub handle_in :
      (StateDefinition K → Option (K → ℕ × K))
      → Option (StateMachine K × K)
      → Option (StateMachine K × K × ℕ)
  handle_in ready none = none
  handle_in ready (some (m, key)) = call_ready (ready_of ready (at_current m.current m)) m key

  -- What the three handlers have in common: `ready` is the field that each of them reads.
  unfoldable pub handle :
      (StateDefinition K → Option (K → ℕ × K))
      → StateMachine K
      → K
      → Option (StateMachine K × K × ℕ)
  handle ready m key = handle_in ready (handle_first m key)

  -- `stm_handler_read`
  abbrev pub stm_handler_read : StateMachine K → K → Option (StateMachine K × K × ℕ)
  stm_handler_read = handle (λ d. d.on_read_ready)

  -- `stm_handler_write`
  abbrev pub stm_handler_write : StateMachine K → K → Option (StateMachine K × K × ℕ)
  stm_handler_write = handle (λ d. d.on_write_ready)

  -- `stm_handler_block`
  abbrev pub stm_handler_block : StateMachine K → K → Option (StateMachine K × K × ℕ)
  stm_handler_block = handle (λ d. d.on_block_ready)

  -- `stm_handler_close`
  unfoldable pub stm_handler_close : StateMachine K → K → Option K
  stm_handler_close m key = leave m.current m key

  abbrev pub state_of : Option ℕ → StateMachine K → Option ℕ
  state_of none m = some m.initial
  state_of (some i) m = get_elem? m.states i >>= λ d. some d.state

  -- `stm_state`
  unfoldable pub stm_state : StateMachine K → Option ℕ
  stm_state m = state_of m.current m
