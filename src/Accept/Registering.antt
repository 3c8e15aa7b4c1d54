-- ===== src/Accept/Registering.antt =====
-- The descriptors and states of a list of answers, and `selector_register` on a large table.
use protos_tpe_g.Prelude.{
  ℕ, suc, ◌+◌, ◌<◌, ◌≡◌, refl, ap, sym, subst, ◌∙◌, ◌==◌, Bool, true, false, if◌then◌else◌, Option,
  none, some, List, [], ◌∷◌, ◌++◌, map, length, length-set, leb, ltb, arith, Bool-cases, inl, inr,
}
use protos_tpe_g.Session.Defs.{op_read}
use protos_tpe_g.Selector.{
  Selector, Status, success, iargs, fdinuse, Item, items_max_size, item_at, selector_register,
  register_at, update_fdset, put_item,
}
use protos_tpe_g.Selector.Table.{IsValid, item_at-within}
use protos_tpe_g.Selector.Lifetime.{IsLarge}
use protos_tpe_g.Selector.Registering.{selector_register-inside, new_item}
use protos_tpe_g.Accept.{Accepted, no_connection, connection}

-- how often a descriptor stands in a list
unfoldable pub count : ℕ → List ℕ → ℕ
count fd [] = 0
count fd (x ∷ xs) = (if fd == x then 1 else 0) + count fd xs

-- the descriptors that a loop takes
unfoldable pub taken : List Accepted → List ℕ
taken [] = []
taken (no_connection e ∷ answers) = []
taken (connection fd nonblocking state grows ∷ answers) = fd ∷ taken answers

abbrev pub fds_of {ℓ} : {A : Type ℓ} → List (ℕ × A) → List ℕ
fds_of xs = map (λ (fd, a). fd) xs

-- the states that `calloc` gives to a loop
unfoldable pub states_given : List Accepted → ℕ
states_given [] = 0
states_given (no_connection e ∷ answers) = 0
states_given (connection fd true (some state) grows ∷ answers) = suc (states_given answers)
states_given (connection fd _ _ grows ∷ answers) = states_given answers

pub count-append : (fd : ℕ) (xs ys : List ℕ) → count fd (xs ++ ys) ≡ count fd xs + count fd ys
unfolding count
count-append fd [] ys = omega arith
count-append fd (x ∷ xs) ys = omega (arith, count-append fd xs ys)

pub fds_of-append {ℓ} :
    {A : Type ℓ} (xs ys : List (ℕ × A)) → fds_of (xs ++ ys) ≡ fds_of xs ++ fds_of ys
fds_of-append [] ys = refl
fds_of-append ((fd, a) ∷ xs) ys = ap (λ r. fd ∷ r) (fds_of-append xs ys)

table_eq :
    {p q : Status} {s t : Selector}
    → ◌≡◌ {A = Option (Status × Selector)} (some (p, s)) (some (q, t))
    → s ≡ t
table_eq {p = p} {q = q} {s = s} {t = t} e =
    let same : ◌≡◌ {A = Status × Selector} (p, s) (q, t) = cc in
    ap (λ (x : Status × Selector). x.1) same

module _ (grows : Bool) (fd handler state : ℕ) (s : Selector) (l : IsLarge s) where
  -- `selector_register` on a large table stays inside it.
  pub selector_register-IsLarge :
      (out : Status × Selector) × (selector_register grows (some fd) (some handler) op_read state s
        ≡ some out)
      × IsLarge out.1
  unfolding selector_register
  selector_register-IsLarge = elim (Bool-cases (leb items_max_size fd)) [
    | inl outside ↦ rw outside ((iargs, s), refl, l)
    | inr inside ↦
        let (item, at) = item_at-within s.fds fd (ground (arith, l.size)) in
        let fits : ltb (length s.fds) fd ≡ false = ground (arith, l.size) in
        let step : selector_register grows (some fd) (some handler) op_read state s
            ≡ register_at (some item) fd new s =
          rw (inside, fits, at) refl in
        by_item item at inside step
  ]
    where
      new : Item
      new = new_item fd handler op_read state

      put : Selector
      put = record (update_fdset fd (some new) (put_item fd (some new) s)) {
        max_fd = if ltb s.max_fd fd then fd else s.max_fd;
      }

      by_item :
          (item : Option Item)
          → item_at s.fds fd ≡ some item
          → leb items_max_size fd ≡ false
          → selector_register grows (some fd) (some handler) op_read state s
            ≡ register_at (some item) fd new s
          → (out : Status × Selector) × (selector_register grows
                (some fd)
                (some handler)
                op_read
                state
                s
              ≡ some out)
            × IsLarge out.1
      by_item (some old) at inside step = ((fdinuse, s), step, l)
      by_item none at inside step =
          let a =
            selector_register-inside grows s fd handler state op_read l.valid (ground arith) at in
          let same : a.table ≡ put = table_eq (sym a.returns ∙ step) in
          (
            (success, put),
            step,
            record {
              valid = subst IsValid same a.valid;
              size = subst (λ n. items_max_size < n) (sym (length-set s.fds fd (some new))) l.size;
            },
          )

pub states_given-cons :
    (fd : ℕ) (nonblocking grows : Bool) (state : Option ℕ) (answers : List Accepted)
    → states_given (connection fd nonblocking state grows ∷ answers)
      ≡ states_given (connection fd nonblocking state grows ∷ []) + states_given answers
unfolding states_given
states_given-cons fd true grows (some state) answers = omega arith
states_given-cons fd true grows none answers = omega arith
states_given-cons fd false grows state answers = omega arith
