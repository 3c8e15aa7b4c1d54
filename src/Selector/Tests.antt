-- ===== src/Selector/Tests.antt =====
-- A concrete table of two places, the second in use.
use protos_tpe_g.Prelude.{
  ℕ, ◌≡◌, ◌≤◌, ◌<◌, ◌*◌, ◌-◌, zero, suc, refl, ◌==◌, true, false, none, some, [], ◌∷◌, arith,
  length,
}
use protos_tpe_g.Session.Defs.{op_read}
use protos_tpe_g.Selector.{
  Item, Selector, success, next_capacity, bits, item_at, selector_register, selector_unregister_fd,
  clear_item, items_max_fd, max_from,
}
use protos_tpe_g.Selector.Capacity.{next_capacity_bounds}
use protos_tpe_g.Selector.Table.{IsValid, reads_in, writes_in, selector_register-size}
use protos_tpe_g.Selector.Operations.{Answers}
use protos_tpe_g.Selector.Registering.{extended, new_item, selector_register-beyond}

abbrev reader : Item
reader = record { fd = 1; handler = 7; interest = op_read; data_of = 0 }

abbrev two : Selector
two = record {
  fds = none ∷ some reader ∷ [];
  max_fd = 1;
  master_r = λ i. 1 == i;
  master_w = λ i. false;
}

owned_two : (i : ℕ) (item : Item) → item_at two.fds i ≡ some (some item) → item.fd ≡ i
unfolding item_at
owned_two zero item e = cc
owned_two (suc zero) item e = ground arith
owned_two (suc (suc i)) item e = cc

bounded_two : (i : ℕ) (item : Item) → item_at two.fds i ≡ some (some item) → i ≤ 1
unfolding item_at
bounded_two zero item e = omega arith
bounded_two (suc zero) item e = omega arith
bounded_two (suc (suc i)) item e = cc

reading_two : (i : ℕ) → (1 == i) ≡ reads_in (item_at two.fds i)
unfolding item_at
reading_two zero = refl
reading_two (suc zero) = refl
reading_two (suc (suc i)) = ground arith

writing_two : (i : ℕ) → false ≡ writes_in (item_at two.fds i)
unfolding item_at
writing_two zero = refl
writing_two (suc zero) = refl
writing_two (suc (suc i)) = refl

two-IsValid : IsValid two
unfolding item_at
two-IsValid = record {
  owned = owned_two;
  bounded = bounded_two;
  reading = reading_two;
  writing = writing_two;
}

first : item_at two.fds 0 ≡ some none
unfolding item_at
first = refl

capacity_example :
    (5 < next_capacity 5) × (next_capacity 5 ≤ 1025) × (0 < 5 → next_capacity 5 ≤ suc (2 * 5))
capacity_example = next_capacity_bounds 5 (omega arith)

capacity_of_five : next_capacity 5 ≡ 9
unfolding next_capacity bits
capacity_of_five = refl

size_example : selector_register true (some 2) (some 7) op_read 0 two ≡ none
size_example = selector_register-size true 7 op_read 0 two (omega arith)

-- A close handler that makes the table grow.
grown_test : selector_unregister_fd (λ item s. extended 8 s) (some 1) two ≡ none
unfolding selector_unregister_fd item_at
grown_test = refl

-- A close handler that unregisters the descriptor itself.
cleared_test : selector_unregister_fd (λ item s. clear_item 1 1 s) (some 1) two ≡ none
unfolding selector_unregister_fd item_at items_max_fd max_from
cleared_test = refl

beyond_example :
    Answers
      (selector_register true (some 5) (some 7) op_read 3 two)
      success
      (extended (next_capacity 5 - length two.fds) two)
      5
      (some (new_item 5 7 op_read 3))
beyond_example =
    selector_register-beyond true two 5 7 3 op_read two-IsValid (omega arith) (omega arith) refl
