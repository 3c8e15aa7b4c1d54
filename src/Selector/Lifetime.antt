-- ===== src/Selector/Lifetime.antt =====
-- src/utils/selector.c: `selector_new`.
use protos_tpe_g.Prelude.{
  ℕ, ◌<◌, ◌≡◌, refl, subst, Bool, true, false, Option, none, some, [], length, length-replicate,
  arith,
}
use protos_tpe_g.Selector.{
  Item, Selector, Status, success, ensure_capacity, next_capacity, items_max_size, item_at,
}
use protos_tpe_g.Selector.Table.{IsValid}
use protos_tpe_g.Selector.Registering.{extended, extended-IsValid}
use protos_tpe_g.Selector.Capacity.{next_capacity_bounds}

-- A table in which no descriptor that `select` can have is outside.
pub record IsLarge (s : Selector) : Type 0 where
  pub valid : IsValid s
  pub size : items_max_size < length s.fds

abbrev pub empty : Selector
empty = record { fds = []; max_fd = 0; master_r = λ _. false; master_w = λ _. false }

abbrev pub if_success : Status × Selector → Option Selector
if_success (success, s) = some s
if_success (_, s) = none

-- `selector_new`, by whether `malloc` and `calloc` give memory
unfoldable pub selector_new : Bool → Bool → ℕ → Option Selector
selector_new false grows initial_elements = none
selector_new true grows initial_elements = if_success (ensure_capacity grows initial_elements empty)

empty-IsValid : IsValid empty
unfolding item_at
empty-IsValid = record {
  owned = λ i item e. absurd cc;
  bounded = λ i item e. absurd cc;
  reading = λ i. refl;
  writing = λ i. refl;
}

-- The selector of the server, made with 1024 elements, is valid, and has a place for each
-- descriptor that `select` can have.
pub selector_new-IsLarge :
    (grows : Bool) (s : Selector) → selector_new true grows 1024 ≡ some s → IsLarge s
unfolding selector_new ensure_capacity next_capacity
selector_new-IsLarge false s e = absurd cc
selector_new-IsLarge true s e =
    let made : extended (next_capacity 1024) empty ≡ s = cc in
    let room = (next_capacity_bounds 1024 (omega arith)).0 in
    subst IsLarge made (record {
      valid = extended-IsValid empty (next_capacity 1024) empty-IsValid;
      size = omega (arith, length-replicate {A = Option Item} (next_capacity 1024) none, room);
    })
