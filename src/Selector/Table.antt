-- ===== src/Selector/Table.antt =====
-- What the operations do to the table.
use protos_tpe_g.Prelude.{
  ℕ, zero, suc, ◌+◌, ◌≤◌, ◌<◌, ◌≡◌, ◌==◌, refl, sym, ap, ◌∙◌, Bool, Bool-cases, inl, inr, arith,
  ltb, leb, if◌then◌else◌, true, false, Option, none, some, List, [], ◌∷◌, ◌++◌, length, set,
  replicate,
}
use protos_tpe_g.Session.Defs.{Interest}
use protos_tpe_g.Selector.{
  Item, Selector, items_max_size, item_at, selector_register, reads_of, writes_of, update_fdset,
  put_item,
}

pub item_at-past : (items : List (Option Item)) (i : ℕ) → length items ≤ i → item_at items i ≡ none
unfolding item_at
item_at-past [] i h = refl
item_at-past (x ∷ items) zero h = absurd (omega arith)
item_at-past (x ∷ items) (suc i) h = item_at-past items i (omega arith)

pub item_at-within :
    (items : List (Option Item)) (i : ℕ)
    → i < length items
    → (item : Option Item) × (item_at items i ≡ some item)
unfolding item_at
item_at-within [] i h = absurd (omega arith)
item_at-within (x ∷ items) zero h = (x, refl)
item_at-within (x ∷ items) (suc i) h = item_at-within items i (omega arith)

pub item_at-set :
    (items : List (Option Item)) (fd i : ℕ) (item : Option Item)
    → fd < length items
    → item_at (set items fd item) i ≡ (if fd == i then some item else item_at items i)
unfolding item_at
item_at-set [] fd i item h = absurd (omega arith)
item_at-set (x ∷ items) zero zero item h = refl
item_at-set (x ∷ items) zero (suc i) item h = ground arith
item_at-set (x ∷ items) (suc fd) zero item h = ground arith
item_at-set (x ∷ items) (suc fd) (suc i) item h = ground (arith, item_at-set items fd i item)

pub item_at-replicate : (n i : ℕ) → i < n → item_at (replicate n none) i ≡ some none
unfolding item_at
item_at-replicate zero i h = absurd (omega arith)
item_at-replicate (suc n) zero h = refl
item_at-replicate (suc n) (suc i) h = item_at-replicate n i (omega arith)

pub item_at-append :
    (a b : List (Option Item)) (i k : ℕ) → i ≡ length a + k → item_at (a ++ b) i ≡ item_at b k
unfolding item_at
item_at-append [] b i k h = ap (λ j. item_at b j) (omega arith)
item_at-append (x ∷ a) b zero k h = absurd (omega arith)
item_at-append (x ∷ a) b (suc i) k h = item_at-append a b i k (omega arith)

-- Registering the descriptor that equals the size of the table reaches outside the table, whatever
-- is registered, though it is below the limit of the platform.
pub selector_register-size :
    (allocated : Bool) (handler : ℕ) (interest : Interest) (data_of : ℕ) (s : Selector)
    → length s.fds < items_max_size
    → selector_register allocated (some (length s.fds)) (some handler) interest data_of s ≡ none
unfolding selector_register
selector_register-size allocated handler interest data_of s h =
    let fd = length s.fds in
    let inside : leb items_max_size fd ≡ false = ground arith in
    let same : ltb fd fd ≡ false = ground arith in
    rw (inside, same, item_at-past s.fds fd (omega arith)) refl

abbrev pub reads_in : Option (Option Item) → Bool
reads_in none = false
reads_in (some item) = reads_of item

abbrev pub writes_in : Option (Option Item) → Bool
writes_in none = false
writes_in (some item) = writes_of item

-- Every item in use stands at its descriptor, at or below `max_fd`, and the two sets that `select`
-- is given hold exactly the descriptors whose items ask to read, and to write.
pub record IsValid (s : Selector) : Type 0 where
  pub owned : (i : ℕ) (item : Item) → item_at s.fds i ≡ some (some item) → item.fd ≡ i
  pub bounded : (i : ℕ) (item : Item) → item_at s.fds i ≡ some (some item) → i ≤ s.max_fd
  pub reading : (i : ℕ) → s.master_r i ≡ reads_in (item_at s.fds i)
  pub writing : (i : ℕ) → s.master_w i ≡ writes_in (item_at s.fds i)

some-injective : {a b : Option Item} → ◌≡◌ {A = Option (Option Item)} (some a) (some b) → a ≡ b
some-injective e = cc

-- A new item at its place.
module _ (s : Selector) (fd m : ℕ) (change : Option Item) (v : IsValid s)
    (h : fd < length s.fds) where
  abbrev changed : Selector
  changed = record (update_fdset fd change (put_item fd change s)) { max_fd = m }

  at_changed : (i : ℕ) → item_at changed.fds i ≡ (if fd == i then some change else item_at s.fds i)
  at_changed i = item_at-set s.fds fd i change h

  pub changed-IsValid :
      ((item : Item) → change ≡ some item → item.fd ≡ fd)
      → ((i : ℕ) (item : Item) → item_at changed.fds i ≡ some (some item) → i ≤ m)
      → IsValid changed
  changed-IsValid own bound = record {
    owned = λ i item e. elim (Bool-cases (fd == i)) [
      | inl here ↦ own item (some-injective (sym (at_here i here) ∙ e)) ∙ ground arith
      | inr other ↦ v.owned i item (sym (at_other i other) ∙ e)
    ];
    bounded = bound;
    reading = λ i. elim (Bool-cases (fd == i)) [
      | inl here ↦ rw (at_here i here, here) refl
      | inr other ↦ rw (at_other i other, other) (v.reading i)
    ];
    writing = λ i. elim (Bool-cases (fd == i)) [
      | inl here ↦ rw (at_here i here, here) refl
      | inr other ↦ rw (at_other i other, other) (v.writing i)
    ];
  }
    where
      at_here : (i : ℕ) → fd == i ≡ true → item_at changed.fds i ≡ some change
      at_here i e = at_changed i ∙ ap (λ b. if b then some change else item_at s.fds i) e

      at_other : (i : ℕ) → fd == i ≡ false → item_at changed.fds i ≡ item_at s.fds i
      at_other i e = at_changed i ∙ ap (λ b. if b then some change else item_at s.fds i) e
