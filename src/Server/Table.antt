-- ===== src/Server/Table.antt =====
-- src/utils/selector.c: the table as the server fills it, with connections and listening sockets, and
-- the changes that a handler makes to it.
use protos_tpe_g.Prelude.{
  ℕ, suc, ◌<◌, ◌≡◌, ◌≢◌, ◌==◌, ◌⊎◌, refl, sym, subst, ap, ◌∙◌, Bool, Bool-cases, inl, inr, arith,
  ltb, leb, if◌then◌else◌, true, false, Option, none, some, List, [], ◌∷◌, length,
}
use protos_tpe_g.Session.Defs.{Interest}
use protos_tpe_g.Selector.{
  Item, Selector, Status, success, iargs, fdinuse, items_max_size, item_at, selector_register,
}
use protos_tpe_g.Selector.Table.{IsValid, item_at-within}
use protos_tpe_g.Selector.Operations.{used_item, Answers, some_item}
use protos_tpe_g.Selector.Registering.{new_item, selector_register-inside}

-- the places of the server's table
abbrev pub table_size : ℕ
table_size = 1025

-- The handlers that a table knows: those of connections, and those of listening sockets.
module _ (IsConnection IsListening : ℕ → Type 0) (resolves : ℕ) where
  -- An item of the server, whose state has an address below `next`.
  pub record Known (next : ℕ) (item : Item) : Type 0 where
    pub data_of : item.data_of < next
    pub role :
        IsConnection item.handler ⊎ (IsListening item.handler × (item.interest.writes ≡ false))

  -- A descriptor of which a finished job tells: its connection waits, and has no other item.
  pub record Waits (s : Selector) (fd : ℕ) : Type 0 where
    pub item : Item
    pub at : item_at s.fds fd ≡ some (some item)
    pub handler : item.handler ≡ resolves
    pub reads : item.interest.reads ≡ false
    pub writes : item.interest.writes ≡ false
    pub alone :
        (i : ℕ) (other : Item)
        → item_at s.fds i ≡ some (some other)
        → other.data_of ≡ item.data_of
        → i ≡ fd

  abbrev pub NotIn : ℕ → List ℕ → Type 0
  NotIn fd [] = Unit
  NotIn fd (j ∷ jobs) = (fd ≢ j) × NotIn fd jobs

  abbrev pub AllWait : Selector → List ℕ → Type 0
  AllWait s [] = Unit
  AllWait s (fd ∷ jobs) = Waits s fd × (NotIn fd jobs × AllWait s jobs)

  -- No finished job tells of a connection with the state `d`.
  abbrev pub Apart : ℕ → Selector → List ℕ → Type 0
  Apart d s [] = Unit
  Apart d s (fd ∷ jobs) =
      ((item : Item) → item_at s.fds fd ≡ some (some item) → item.data_of ≢ d) × Apart d s jobs

  pub record Fits (next : ℕ) (jobs : List ℕ) (s : Selector) : Type 0 where
    pub valid : IsValid s
    pub size : length s.fds ≡ table_size
    pub highest : s.max_fd < table_size
    pub known : (i : ℕ) (item : Item) → item_at s.fds i ≡ some (some item) → Known next item
    pub waiting : AllWait s jobs

  -- One place `p` that has no state but `d` gets an item that has no state but `d`.
  module _ (d p : ℕ) (s t : Selector) (change : Option Item)
      (entries : (i : ℕ) → item_at t.fds i ≡ (if p == i then some change else item_at s.fds i))
      (new : (item : Item) → change ≡ some item → item.data_of ≡ d)
      (old : (item : Item) → item_at s.fds p ≡ some (some item) → item.data_of ≡ d) where
    elsewhere : (i : ℕ) → p ≢ i → item_at t.fds i ≡ item_at s.fds i
    elsewhere i h =
        let other : (p == i) ≡ false = ground arith in
        entries i ∙ ap (λ b. if b then some change else item_at s.fds i) other

    here : (i : ℕ) (item : Item) → p ≡ i → item_at t.fds i ≡ some (some item) → change ≡ some item
    here i item h e =
        let same : (p == i) ≡ true = ground arith in
        some_entry (sym (entries i ∙ ap (λ b. if b then some change else item_at s.fds i) same) ∙ e)
      where
        some_entry : {a b : Option Item} → ◌≡◌ {A = Option (Option Item)} (some a) (some b) → a ≡ b
        some_entry x = cc

    place_of :
        (fd : ℕ)
        → Waits s fd
        → ((item : Item) → item_at s.fds fd ≡ some (some item) → item.data_of ≢ d)
        → p ≢ fd
    place_of fd w apart e =
        apart w.item w.at
          (old w.item (subst (λ j. item_at s.fds j ≡ some (some w.item)) (sym e) w.at))

    Waits-changed :
        (fd : ℕ)
        → Waits s fd
        → ((item : Item) → item_at s.fds fd ≡ some (some item) → item.data_of ≢ d)
        → Waits t fd
    Waits-changed fd w apart = record {
      item = w.item;
      at = elsewhere fd (place_of fd w apart) ∙ w.at;
      handler = w.handler;
      reads = w.reads;
      writes = w.writes;
      alone = λ i other e same. elim (Bool-cases (p == i)) [
        | inl hit ↦
            absurd (apart w.item w.at (sym same ∙ new other (here i other (ground arith) e)))
        | inr miss ↦ w.alone i other (sym (elsewhere i (ground arith)) ∙ e) same
      ];
    }

    pub AllWait-changed : (jobs : List ℕ) → AllWait s jobs → Apart d s jobs → AllWait t jobs
    AllWait-changed [] w a = tt
    AllWait-changed (fd ∷ jobs) (w, (n, ws)) (a, as') =
        (Waits-changed fd w a, (n, AllWait-changed jobs ws as'))

    -- The states of which finished jobs tell are still those.
    pub Apart-changed :
        (k : ℕ) (jobs : List ℕ) → AllWait s jobs → Apart d s jobs → Apart k s jobs → Apart k t jobs
    Apart-changed k [] w a b = tt
    Apart-changed k (fd ∷ jobs) (w, (n, ws)) (a, as') (b, bs) = (
      λ item e. b item (sym (elsewhere fd (place_of fd w a)) ∙ e),
      Apart-changed k jobs ws as' bs,
    )

  -- What an operation with such a change leaves.
  pub Fits-answer :
      (next d p : ℕ) (jobs : List ℕ) (o : Option (Status × Selector)) (status : Status)
      (s : Selector) (change : Option Item) (a : Answers o status s p change)
      → Fits next jobs s
      → Apart d s jobs
      → p < table_size
      → ((item : Item) → change ≡ some item → (item.data_of ≡ d) × Known next item)
      → ((item : Item) → item_at s.fds p ≡ some (some item) → item.data_of ≡ d)
      → Fits next jobs a.table × ((k : ℕ) → Apart k s jobs → Apart k a.table jobs)
  Fits-answer next d p jobs o status s change a f apart h new old = (
    record {
      valid = a.valid;
      size = a.size ∙ f.size;
      highest = a.highest table_size f.highest h;
      known = λ i item e. elim (Bool-cases (p == i)) [
        | inl hit ↦
            (new item (
              here d p s a.table change a.entries (λ it x. (new it x).0) old i item (ground arith)
                e)).1
        | inr miss ↦ f.known i item (
            sym
              (elsewhere d p s a.table change a.entries (λ it x. (new it x).0) old i (ground arith))
            ∙ e)
      ];
      waiting =
          AllWait-changed d p s a.table change a.entries (λ it x. (new it x).0) old jobs f.waiting
            apart;
    },
    λ k b.
        Apart-changed d p s a.table change a.entries (λ it x. (new it x).0) old k jobs f.waiting
          apart b,
  )

  -- The item of a descriptor that asks for something, or any state that no item has, is apart from
  -- the finished jobs.
  pub item-Apart :
      (s : Selector) (jobs : List ℕ) (i : ℕ) (item : Item)
      → AllWait s jobs
      → item_at s.fds i ≡ some (some item)
      → ((fd : ℕ) (w : Waits s fd) → w.item ≢ item)
      → Apart item.data_of s jobs
  item-Apart s [] i item w e asks = tt
  item-Apart s (fd ∷ jobs) i item (w, (n, ws)) e asks = (
    λ it at same.
        let first : w.item ≡ it = used_item (sym w.at ∙ at) in
        let place : i ≡ fd =
          w.alone i item e (sym same ∙ ap (λ (x : Item). x.data_of) (sym first)) in
        asks fd w (used_item (sym w.at ∙ (ap (λ j. item_at s.fds j) (sym place) ∙ e))),
    item-Apart s jobs i item ws e asks,
  )

  -- The jobs behind the first one, once that one's connection is served.
  pub rest-Apart :
      (s : Selector) (fd : ℕ) (jobs : List ℕ) (item : Item)
      → (w : Waits s fd) → NotIn fd jobs
      → item_at s.fds fd ≡ some (some item)
      → AllWait s jobs
      → Apart item.data_of s jobs
  rest-Apart s fd [] item w n e ws = tt
  rest-Apart s fd (j ∷ jobs) item w (n, ns) e (v, (m, ws)) = (
    λ it at same.
        n (sym (w.alone j it at (same ∙ ap (λ (x : Item). x.data_of) (used_item (sym e ∙ w.at))))),
    rest-Apart s fd jobs item w ns e ws,
  )

  -- A state that is not given yet is apart from all jobs.
  pub fresh-Apart :
      (next : ℕ) (s : Selector) (jobs : List ℕ)
      → ((i : ℕ) (item : Item) → item_at s.fds i ≡ some (some item) → Known next item)
      → Apart next s jobs
  fresh-Apart next s [] known = tt
  fresh-Apart next s (fd ∷ jobs) known =
      (λ item e same. omega (arith, (known fd item e).data_of, same), fresh-Apart next s jobs known)

  pub Fits-suc :
      (next : ℕ) (jobs : List ℕ) (s : Selector) → Fits next jobs s → Fits (suc next) jobs s
  Fits-suc next jobs s f = record {
    valid = f.valid;
    size = f.size;
    highest = f.highest;
    known = λ i item e.
        let k = f.known i item e in record { data_of = omega (arith, k.data_of); role = k.role };
    waiting = f.waiting;
  }

  pub Fits-rest :
      (next fd : ℕ) (jobs : List ℕ) (s : Selector) → Fits next (fd ∷ jobs) s → Fits next jobs s
  Fits-rest next fd jobs s f = record {
    valid = f.valid;
    size = f.size;
    highest = f.highest;
    known = f.known;
    waiting = f.waiting.1.1;
  }

  -- Registering a descriptor with a state `d`, whatever is answered.
  pub register-Fits :
      (grows : Bool) (next d fd handler : ℕ) (i : Interest) (jobs : List ℕ) (s : Selector)
      → Fits next jobs s
      → Apart d s jobs
      → d < next
      → IsConnection handler ⊎ (IsListening handler × (i.writes ≡ false))
      → (out : Status × Selector) × (selector_register grows (some fd) (some handler) i d s
          ≡ some out)
        × (Fits next jobs out.1 × ((k : ℕ) → Apart k s jobs → Apart k out.1 jobs))
  unfolding selector_register
  register-Fits grows next d fd handler i jobs s f apart h c =
      elim (Bool-cases (leb items_max_size fd)) [
        | inl outside ↦ rw outside ((iargs, s), refl, (f, λ k b. b))
        | inr inside ↦
            let (item, at) = item_at-within s.fds fd (ground (arith, f.size)) in
            by_item item at inside
      ]
    where
      by_item :
          (item : Option Item)
          → item_at s.fds fd ≡ some item
          → leb items_max_size fd ≡ false
          → (out : Status × Selector) × (selector_register grows (some fd) (some handler) i d s
              ≡ some out)
            × (Fits next jobs out.1 × ((k : ℕ) → Apart k s jobs → Apart k out.1 jobs))
      by_item none at inside =
          let a = selector_register-inside grows s fd handler d i f.valid (ground arith) at in
          (
            (success, a.table),
            a.returns,
            Fits-answer next d fd jobs _ success s (some (new_item fd handler i d)) a f apart
                (ground arith)
                (λ it e.
                  subst (λ (x : Item). (x.data_of ≡ d) × Known next x) (some_item e)
                    (refl, record { data_of = h; role = c }))
                (λ it e. absurd (cc (e, at))),
          )
      by_item (some old) at inside =
          let fits : ltb (length s.fds) fd ≡ false = ground (arith, f.size) in
          ((fdinuse, s), used fits, (f, λ k b. b))
        where
          used :
              ltb (length s.fds) fd ≡ false
              → selector_register grows (some fd) (some handler) i d s ≡ some (fdinuse, s)
          used fits = rw (inside, fits, at) refl
