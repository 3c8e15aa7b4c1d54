-- ===== src/Stm/Jumping.antt =====
-- The invariant of the machine, what pairs arrivals and departures, and `jump`.
use protos_tpe_g.Prelude.{
  ℕ, zero, suc, ◌+◌, ◌≤◌, ◌<◌, ◌≡◌, ◌⊎◌, refl, ap, sym, subst, ◌∙◌, ◌==◌, true, if_lem, Option,
  none, some, List, [], ◌∷◌, ltb, get_elem?, >>=-eq-some, arith,
}
use protos_tpe_g.Stm.{
  StateDefinition, StateMachine, are_numbered, stm_init, notify, enter, leave, is_current, jump,
}

abbrev pub InRange : Option ℕ → ℕ → Type 0
InRange none n = Unit
InRange (some i) n = i ≤ n

is_current-eq : (c : Option ℕ) (next : ℕ) → is_current c next ≡ true → c ≡ some next
is_current-eq none next e = absurd cc
is_current-eq (some i) next e = ap some (ground arith)

module _ {K : Type 0} where
  -- The states have their numbers, and the machine is in none or in one of them.
  pub record IsValid (m : StateMachine K) : Type 0 where
    pub numbered :
        (i : ℕ)
        → i ≤ m.max_state
        → (d : StateDefinition K) × (get_elem? m.states i ≡ some d) × (d.state ≡ i)
    pub initial : m.initial ≤ m.max_state
    pub current : InRange m.current m.max_state

  are_numbered-get_elem? :
      (count i : ℕ) (states : List (StateDefinition K)) (k : ℕ)
      → are_numbered count i states ≡ true
      → k < count
      → (d : StateDefinition K) × (get_elem? states k ≡ some d) × (d.state ≡ i + k)
  unfolding are_numbered
  are_numbered-get_elem? zero i states k h l = absurd (omega arith)
  are_numbered-get_elem? (suc count) i [] k h l = absurd cc
  are_numbered-get_elem? (suc count) i (d ∷ states) zero h l = (
    d,
    refl,
    if_lem (λ b. b ≡ true → d.state ≡ i + 0) (i == d.state) (λ e f. ground arith) (λ e f. absurd cc)
        h,
  )
  are_numbered-get_elem? (suc count) i (d ∷ states) (suc k) h l =
      let (x, e, n) =
        are_numbered-get_elem? count (suc i) states k
          (if_lem (λ b. b ≡ true → are_numbered count (suc i) states ≡ true) (i == d.state)
            (λ e f. f) (λ e f. absurd cc) h)
          (omega arith) in
      (x, e, omega arith)

  -- `stm_init` that does not abort leaves a valid machine, in no state yet.
  pub stm_init-IsValid :
      (m m' : StateMachine K) → stm_init m ≡ some m' → IsValid m' × (m'.current ≡ none)
  unfolding stm_init
  stm_init-IsValid m m' =
      if_lem (λ o. o ≡ some m' → IsValid m' × (m'.current ≡ none))
        (are_numbered (suc m.max_state) 0 m.states)
        (λ n.
          if_lem (λ o. o ≡ some m' → IsValid m' × (m'.current ≡ none)) (ltb m.initial m.max_state)
            (λ l e.
              let same : record m { current = none } ≡ m' = cc in
              (
                subst IsValid same (record {
                  numbered = λ i h.
                      let (d, g, s) =
                        are_numbered-get_elem? (suc m.max_state) 0 m.states i n (omega arith) in
                      (d, g, omega arith);
                  initial = ground arith;
                  current = tt;
                }),
                sym (ap (λ (x : StateMachine K). x.current) same),
              ))
            (λ _ e. absurd cc))
        (λ _ e. absurd cc)

  -- What it takes for arrivals and departures to be pairs: `Holds i` is what the arrival at state
  -- `i` brings about, the handlers of the state keep, and its departure gives back.
  pub record Paired (states : List (StateDefinition K)) (Free : K → Type 0) (Holds : ℕ → K → Type 0)
      : Type 0 where
    pub arrives :
        (i : ℕ) (d : StateDefinition K) (key : K)
        → get_elem? states i ≡ some d
        → Free key
        → Holds i (notify d.on_arrival d.state key)
    pub departs :
        (i : ℕ) (d : StateDefinition K) (key : K)
        → get_elem? states i ≡ some d
        → Holds i key
        → Free (notify d.on_departure d.state key)
    pub reads :
        (i : ℕ) (d : StateDefinition K) (f : K → ℕ × K) (key : K)
        → get_elem? states i ≡ some d
        → (d.on_read_ready ≡ some f) ⊎ ((d.on_write_ready ≡ some f) ⊎ (d.on_block_ready ≡ some f))
        → Holds i key
        → Holds i (f key).1

  abbrev pub Held : (K → Type 0) → (ℕ → K → Type 0) → Option ℕ → K → Type 0
  Held Free Holds none key = Free key
  Held Free Holds (some i) key = Holds i key

  module _ (m : StateMachine K) (Free : K → Type 0) (Holds : ℕ → K → Type 0)
      (paired : Paired m.states Free Holds) where
    pub enter-Held :
        (m' : StateMachine K) (i : ℕ) (key key' : K)
        → Free key
        → enter m i key ≡ some (m', key')
        → (m' ≡ record m { current = some i }) × Holds i key'
    enter-Held m' i key key' f e =
        let (d, g, h) =
          >>=-eq-some (get_elem? m.states i)
            (λ d. some (record m { current = some i }, notify d.on_arrival d.state key)) (m', key')
            e in
        let same : ◌≡◌ {A = StateMachine K × K}
            (record m { current = some i }, notify d.on_arrival d.state key) (m', key') =
          cc in
        (
          sym (ap (λ (p : StateMachine K × K). p.0) same),
          subst (Holds i) (ap (λ (p : StateMachine K × K). p.1) same) (paired.arrives i d key g f),
        )

    pub leave-Held :
        (c : Option ℕ) (key key' : K)
        → Held Free Holds c key
        → leave c m key ≡ some key'
        → Free key'
    leave-Held none key key' f e = let same : key ≡ key' = cc in subst Free same f
    leave-Held (some i) key key' h e =
        let (d, g, s) =
          >>=-eq-some (get_elem? m.states i) (λ d. some (notify d.on_departure d.state key)) key'
            e in
        let same : notify d.on_departure d.state key ≡ key' = cc in
        subst Free same (paired.departs i d key g h)

    pub jump-Held :
        (m' : StateMachine K) (next : ℕ) (key key' : K)
        → Held Free Holds m.current key
        → jump m next key ≡ some (m', key')
        → (next ≤ m.max_state) × (m' ≡ record m { current = some next }) × Holds next key'
    unfolding jump
    jump-Held m' next key key' h =
        if_lem
          (λ o.
            o ≡ some (m', key')
            → (next ≤ m.max_state) × (m' ≡ record m { current = some next }) × Holds next key')
          (ltb m.max_state next) (λ _ e. absurd cc)
          (λ l.
            if_lem
              (λ o.
                o ≡ some (m', key')
                → (next ≤ m.max_state) × (m' ≡ record m { current = some next }) × Holds next key')
              (is_current m.current next)
              (λ c e.
                let at = is_current-eq m.current next c in
                let same : ◌≡◌ {A = StateMachine K × K} (m, key) (m', key') = cc in
                (
                  ground arith,
                  sym (ap (λ (p : StateMachine K × K). p.0) same)
                      ∙ ap (λ o. record m { current = o }) at,
                  subst (Holds next) (ap (λ (p : StateMachine K × K). p.1) same)
                      (subst (λ o. Held Free Holds o key) at h),
                ))
              (λ _ e.
                let (key1, l1, e1) =
                  >>=-eq-some (leave m.current m key) (λ k. enter m next k) (m', key') e in
                let (same, held) =
                  enter-Held m' next key1 key' (leave-Held m.current key key1 h l1) e1 in
                (ground arith, same, held)))
