-- ===== src/Selector/Registering.antt =====
-- Registration, and the growth of the table.
use protos_tpe_g.Prelude.{
  ℕ, zero, suc, ◌-◌, ◌≤◌, ◌<◌, ◌≡◌, ◌≢◌, ◌==◌, refl, sym, ap, ◌∙◌, Bool, Bool-cases, inl, inr,
  arith, ltb, leb, if◌then◌else◌, true, false, Option, none, some, List, [], ◌∷◌, ◌++◌, length,
  length-set, replicate, ==_iff,
}
use protos_tpe_g.Session.Defs.{Interest}
use protos_tpe_g.Selector.{
  success, Item, Selector, items_max_size, next_capacity, ensure_capacity, item_at, register_at,
  selector_register, update_fdset, put_item,
}
use protos_tpe_g.Selector.Table.{
  reads_in, writes_in, item_at-replicate, item_at-append, IsValid, changed-IsValid, item_at-set,
}
use protos_tpe_g.Selector.Capacity.{next_capacity_bounds}
use protos_tpe_g.Selector.Operations.{Answers, length-item_at, some_item}

-- The table with new places behind the old ones.
abbrev pub extended : ℕ → Selector → Selector
extended n s = record s { fds = s.fds ++ replicate n none }

entry_extended :
    (a : List (Option Item)) (n i : ℕ) (item : Item)
    → item_at (a ++ replicate n none) i ≡ some (some item)
    → item_at a i ≡ some (some item)
unfolding item_at
entry_extended [] zero i item e = cc
entry_extended [] (suc n) zero item e = cc
entry_extended [] (suc n) (suc i) item e = absurd (no_item n i item e)
  where
    no_item : (m j : ℕ) (it : Item) → item_at (replicate m none) j ≢ some (some it)
    no_item zero j it h = cc
    no_item (suc m) zero it h = cc
    no_item (suc m) (suc j) it h = no_item m j it h
entry_extended (x ∷ a) n zero item e = e
entry_extended (x ∷ a) n (suc i) item e = entry_extended a n i item e

reads_extended :
    (a : List (Option Item)) (n i : ℕ)
    → (reads_in (item_at (a ++ replicate n none) i) ≡ reads_in (item_at a i))
      × (writes_in (item_at (a ++ replicate n none) i) ≡ writes_in (item_at a i))
unfolding item_at
reads_extended [] zero i = (refl, refl)
reads_extended [] (suc n) zero = (refl, refl)
reads_extended [] (suc n) (suc i) = reads_extended [] n i
reads_extended (x ∷ a) n zero = (refl, refl)
reads_extended (x ∷ a) n (suc i) = reads_extended a n i

pub extended-IsValid : (s : Selector) (n : ℕ) → IsValid s → IsValid (extended n s)
extended-IsValid s n v = record {
  owned = λ i item e. v.owned i item (entry_extended s.fds n i item e);
  bounded = λ i item e. v.bounded i item (entry_extended s.fds n i item e);
  reading = λ i. v.reading i ∙ sym (reads_extended s.fds n i).0;
  writing = λ i. v.writing i ∙ sym (reads_extended s.fds n i).1;
}

-- An item of its own descriptor, put into an unused place.
register_at-Answers :
    (s : Selector) (fd : ℕ) (item : Item)
    → IsValid s
    → item.fd ≡ fd
    → item_at s.fds fd ≡ some none
    → Answers (register_at (some none) fd item s) success s fd (some item)
register_at-Answers s fd item v own e =
    let h = length-item_at s.fds fd none e in
    let m = if ltb s.max_fd fd then fd else s.max_fd in
    let above : (fd ≤ m) × (s.max_fd ≤ m) = ground arith in
    record {
      table = record (update_fdset fd (some item) (put_item fd (some item) s)) { max_fd = m };
      returns = refl;
      valid =
          changed-IsValid s fd m (some item) v h
            (λ it same. ap (λ (x : Item). x.fd) (sym (some_item same)) ∙ own)
            (λ j it at. elim (Bool-cases (fd == j)) [
              | inl here ↦ omega (arith, above.0, (==_iff fd j).0 here)
              | inr other ↦ omega (
                arith,
                above.1,
                v.bounded j it (
                    sym (
                      item_at-set s.fds fd j (some item) h
                      ∙ ap (λ b. if b then some (some item) else item_at s.fds j) other)
                    ∙ at),
              )
            ]);
      entries = λ j. item_at-set s.fds fd j (some item) h;
      size = length-set s.fds fd (some item);
      highest = λ n a b. ground arith;
    }

abbrev pub new_item : ℕ → ℕ → Interest → ℕ → Item
new_item fd handler interest data_of = record {
  fd = fd;
  handler = handler;
  interest = interest;
  data_of = data_of;
}

module _ (allocated : Bool) (s : Selector) (fd handler data_of : ℕ) (interest : Interest)
    (v : IsValid s) (h : fd < items_max_size) where
  -- On a valid table, `selector_register` of a descriptor inside it that is not in use fills its
  -- place, and leaves a valid table.
  pub selector_register-inside :
      item_at s.fds fd ≡ some none
      → Answers
          (selector_register allocated (some fd) (some handler) interest data_of s)
          success
          s
          fd
          (some (new_item fd handler interest data_of))
  unfolding selector_register
  selector_register-inside e =
      let inside : leb items_max_size fd ≡ false = ground arith in
      let fits : ltb (length s.fds) fd ≡ false = ground (arith, length-item_at s.fds fd none e) in
      rw (inside, fits, e)
        (register_at-Answers s fd (new_item fd handler interest data_of) v refl e)

  -- On a valid table, `selector_register` of a descriptor beyond its size and the next one grows the
  -- table first, if memory is given, then fills the place of the descriptor.
  pub selector_register-beyond :
      length s.fds < fd
      → allocated ≡ true
      → Answers
          (selector_register allocated (some fd) (some handler) interest data_of s)
          success
          (extended (next_capacity fd - length s.fds) s)
          fd
          (some (new_item fd handler interest data_of))
  unfolding selector_register ensure_capacity
  selector_register-beyond b a =
      let n = next_capacity fd - length s.fds in
      let room = (next_capacity_bounds fd (omega arith)).0 in
      let inside : leb items_max_size fd ≡ false = ground arith in
      let beyond : ltb (length s.fds) fd ≡ true = ground arith in
      let larger : ltb fd (length s.fds) ≡ false = ground arith in
      let small : ltb items_max_size fd ≡ false = ground arith in
      let at : item_at (s.fds ++ replicate n none) fd ≡ some none =
        item_at-append s.fds (replicate n none) fd (fd - length s.fds) (omega arith)
        ∙ item_at-replicate n (fd - length s.fds) (omega (arith, room)) in
      rw (inside, beyond, larger, small, a, at)
        (register_at-Answers (extended n s) fd (new_item fd handler interest data_of)
          (extended-IsValid s n v) refl at)
