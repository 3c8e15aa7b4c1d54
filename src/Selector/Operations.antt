-- ===== src/Selector/Operations.antt =====
-- What each operation answers, and the table that it leaves.
use protos_tpe_g.Prelude.{
  ℕ, zero, suc, ◌≤◌, ◌<◌, ◌≡◌, ◌≢◌, ◌==◌, refl, sym, ap, ◌∙◌, Bool-cases, inl, inr, arith, ltb, leb,
  if◌then◌else◌, if_lem, true, false, Option, none, some, List, [], ◌∷◌, length, length-set, set,
  take, ==_iff,
}
use protos_tpe_g.Session.Defs.{Interest}
use protos_tpe_g.Selector.{
  Status, success, iargs, Item, Selector, items_max_size, item_at, selector_unregister_fd,
  selector_set_interest, update_fdset, put_item, set_interest_at, clear_item, max_from,
  items_max_fd, greater_fd,
}
use protos_tpe_g.Selector.Table.{IsValid, changed-IsValid, item_at-set}

pub length-item_at :
    (items : List (Option Item)) (i : ℕ) (item : Option Item)
    → item_at items i ≡ some item
    → i < length items
unfolding item_at
length-item_at [] i item e = cc
length-item_at (x ∷ items) zero item e = omega arith
length-item_at (x ∷ items) (suc i) item e = omega (arith, length-item_at items i item e)

-- An answer that leaves a valid table of the same size with one place changed.
pub record Answers (o : Option (Status × Selector)) (status : Status) (s : Selector) (fd : ℕ)
    (change : Option Item) : Type 0 where
  pub table : Selector
  pub returns : o ≡ some (status, table)
  pub valid : IsValid table
  pub entries : (i : ℕ) → item_at table.fds i ≡ (if fd == i then some change else item_at s.fds i)
  pub size : length table.fds ≡ length s.fds
  pub highest : (n : ℕ) → s.max_fd < n → fd < n → table.max_fd < n

-- An answer that changes nothing.
unchanged :
    (status : Status) (s : Selector) (fd : ℕ) (item : Option Item)
    → IsValid s
    → item_at s.fds fd ≡ some item
    → Answers (some (status, s)) status s fd item
unchanged status s fd item v e = record {
  table = s;
  returns = refl;
  valid = v;
  entries = λ i. elim (Bool-cases (fd == i)) [
    | inl here ↦
        let same : fd ≡ i = ground arith in rw here (ap (λ j. item_at s.fds j) (sym same) ∙ e)
    | inr other ↦ rw other refl
  ];
  size = refl;
  highest = λ n a b. a;
}

pub some_item : {a b : Item} → ◌≡◌ {A = Option Item} (some a) (some b) → a ≡ b
some_item e = cc

pub used_item :
    {a b : Item} → ◌≡◌ {A = Option (Option Item)} (some (some a)) (some (some b)) → a ≡ b
used_item e = cc

-- What `selector_set_interest` answers for an item, and what becomes of the item.
abbrev pub interest_status : Option Item → Status
interest_status none = iargs
interest_status (some item) = success

abbrev pub with_interest : Interest → Option Item → Option Item
with_interest i none = none
with_interest i (some item) = some (record item { interest = i })

set_interest_at-Answers :
    (s : Selector) (fd : ℕ) (i : Interest) (item : Option Item)
    → IsValid s
    → item_at s.fds fd ≡ some item
    → Answers
        (set_interest_at (some item) fd i s)
        (interest_status item)
        s
        fd
        (with_interest i item)
set_interest_at-Answers s fd i none v e = unchanged iargs s fd none v e
set_interest_at-Answers s fd i (some item) v e =
    let h = length-item_at s.fds fd (some item) e in
    let change : Option Item = some (record item { interest = i }) in
    record {
      table = update_fdset fd change (put_item fd change s);
      returns = refl;
      valid =
          changed-IsValid s fd s.max_fd change v h
            (λ it same. ap (λ (x : Item). x.fd) (sym (some_item same)) ∙ v.owned fd item e)
            (λ j it at. elim (Bool-cases (fd == j)) [
              | inl here ↦ omega (arith, v.bounded fd item e, (==_iff fd j).0 here)
              | inr other ↦ v.bounded j it (
                  sym (
                    item_at-set s.fds fd j change h
                    ∙ ap (λ b. if b then some change else item_at s.fds j) other)
                  ∙ at)
            ]);
      entries = λ j. item_at-set s.fds fd j change h;
      size = length-set s.fds fd change;
      highest = λ n a b. a;
    }

-- On a valid table, `selector_set_interest` of a descriptor inside it changes the interest of its
-- item and the two sets, and nothing else, and refuses a descriptor that is not registered.
pub selector_set_interest-Answers :
    (s : Selector) (fd : ℕ) (i : Interest) (item : Option Item)
    → IsValid s
    → fd < items_max_size
    → item_at s.fds fd ≡ some item
    → Answers
        (selector_set_interest (some fd) i s)
        (interest_status item)
        s
        fd
        (with_interest i item)
unfolding selector_set_interest
selector_set_interest-Answers s fd i item v h e =
    let inside : leb items_max_size fd ≡ false = ground arith in
    rw (inside, e) (set_interest_at-Answers s fd i item v e)

max_from-le : (items : List (Option Item)) (max : ℕ) → max ≤ max_from max items
unfolding max_from
max_from-le [] max = omega arith
max_from-le (none ∷ items) max = max_from-le items max
max_from-le (some item ∷ items) max =
    if_lem (λ (m : ℕ). max ≤ max_from m items) (ltb max item.fd)
      (λ e. ground (arith, max_from-le items item.fd)) (λ _. max_from-le items max)

greater_fd-le : (item : Item) (max : ℕ) → item.fd ≤ greater_fd (some item) max
greater_fd-le item max = ground arith

-- The loop finds no less than any item that it visits.
max_from-above :
    (items : List (Option Item)) (max i : ℕ) (item : Item)
    → item_at items i ≡ some (some item)
    → item.fd ≤ max_from max items
unfolding max_from item_at
max_from-above [] max i item e = cc
max_from-above (none ∷ items) max zero item e = cc
max_from-above (some x ∷ items) max zero item e = omega (
  arith,
  max_from-le items (greater_fd (some x) max),
  greater_fd-le x max,
  ap (λ (y : Item). y.fd) (some_item (some_option e)),
)
  where
    some_option : {a b : Option Item} → ◌≡◌ {A = Option (Option Item)} (some a) (some b) → a ≡ b
    some_option h = cc
max_from-above (x ∷ items) max (suc i) item e = max_from-above items (greater_fd x max) i item e

item_at-take :
    (items : List (Option Item)) (n i : ℕ) → i < n → item_at (take n items) i ≡ item_at items i
unfolding item_at
item_at-take [] zero i h = refl
item_at-take [] (suc n) i h = refl
item_at-take (x ∷ items) zero i h = absurd (omega arith)
item_at-take (x ∷ items) (suc n) zero h = refl
item_at-take (x ∷ items) (suc n) (suc i) h = item_at-take items n i (omega arith)

item_at-taken :
    (items : List (Option Item)) (n i : ℕ) (item : Option Item)
    → item_at (take n items) i ≡ some item
    → (i < n) × (item_at items i ≡ some item)
unfolding item_at
item_at-taken [] zero i item e = absurd cc
item_at-taken [] (suc n) i item e = absurd cc
item_at-taken (x ∷ items) zero i item e = absurd cc
item_at-taken (x ∷ items) (suc n) zero item e = (omega arith, e)
item_at-taken (x ∷ items) (suc n) (suc i) item e =
    let (h, at) = item_at-taken items n i item e in (omega (arith, h), at)

-- The loop finds nothing but a descriptor that it visits.
max_from-below :
    (items : List (Option Item)) (max n : ℕ)
    → max < n
    → ((i : ℕ) (item : Item) → item_at items i ≡ some (some item) → item.fd < n)
    → max_from max items < n
unfolding max_from item_at
max_from-below [] max n h below = h
max_from-below (none ∷ items) max n h below =
    max_from-below items max n h (λ i it e. below (suc i) it e)
max_from-below (some item ∷ items) max n h below =
    max_from-below items (greater_fd (some item) max) n (ground (arith, below 0 item refl, h))
      (λ i it e. below (suc i) it e)

-- What `selector_unregister_fd` leaves, once the close handler has left a valid table.
clear_item-Answers :
    (s : Selector) (fd : ℕ)
    → IsValid s
    → fd < length s.fds
    → Answers (some (success, clear_item fd fd s)) success s fd none
unfolding items_max_fd
clear_item-Answers s fd v h = record {
  table = clear_item fd fd s;
  returns = refl;
  valid =
      changed-IsValid s fd (items_max_fd (update_fdset fd none (put_item fd none s))) none v h
        (λ it same. absurd (cc))
        (λ i it at. elim (Bool-cases (fd == i)) [
          | inl here ↦ absurd (nothing i it (sym (at_changed i) ∙ at) here)
          | inr other ↦
              let old : item_at s.fds i ≡ some (some it) =
                sym (at_changed i ∙ ap (λ b. if b then some none else item_at s.fds i) other)
                ∙ at in
              omega (
                arith,
                max_from-above (take (suc s.max_fd) (set s.fds fd none)) 0 i it (
                    item_at-take (set s.fds fd none) (suc s.max_fd) i
                      (omega (arith, v.bounded i it old))
                    ∙ at),
                v.owned i it old,
              )
        ]);
  entries = at_changed;
  size = length-set s.fds fd none;
  highest = λ n a b.
      max_from-below (take (suc s.max_fd) (set s.fds fd none)) 0 n (omega arith) (λ i it at.
        let (inside, found) = item_at-taken (set s.fds fd none) (suc s.max_fd) i (some it) at in
        elim (Bool-cases (fd == i)) [
          | inl here ↦ absurd (nothing i it (sym (at_changed i) ∙ found) here)
          | inr other ↦
              let old : item_at s.fds i ≡ some (some it) =
                sym (at_changed i ∙ ap (λ b. if b then some none else item_at s.fds i) other)
                ∙ found in
              omega (arith, v.owned i it old, inside)
        ]);
}
  where
    at_changed :
        (i : ℕ) → item_at (set s.fds fd none) i ≡ (if fd == i then some none else item_at s.fds i)
    at_changed i = item_at-set s.fds fd i none h

    nothing :
        (i : ℕ) (it : Item)
        → (if fd == i then some none else item_at s.fds i) ≡ some (some it)
        → fd == i ≢ true
    nothing i it e b = ground arith

pub selector_unregister_fd-Answers :
    (handle_close : Item → Selector → Selector) (s : Selector) (fd : ℕ) (item left : Item)
    → fd < items_max_size
    → item_at s.fds fd ≡ some (some item)
    → IsValid (handle_close item s)
    → length (handle_close item s).fds ≡ length s.fds
    → item_at (handle_close item s).fds fd ≡ some (some left)
    → Answers
        (selector_unregister_fd handle_close (some fd) s)
        success
        (handle_close item s)
        fd
        none
unfolding selector_unregister_fd
selector_unregister_fd-Answers handle_close s fd item left h e v l k =
    let inside : leb items_max_size fd ≡ false = ground arith in
    let same : (length (handle_close item s).fds == length s.fds) ≡ true = ground arith in
    rw (inside, e, same, k, v.owned fd left k)
      (clear_item-Answers (handle_close item s) fd v
        (length-item_at (handle_close item s).fds fd (some left) k))
