-- ===== src/Selector.antt =====
-- src/utils/selector.c: the table of registrations, its growth, and the sets that `select` is given.
-- The array `fds` is the list of its items, `none` for an unused one, so `fd_size` is its length. A
-- handler and its data are numbers. An access outside the array, or by a pointer into an array that
-- `realloc` has moved, gives `none`.
pub mod Capacity
pub mod Table
pub mod Operations
pub mod Registering
pub mod Dispatch
pub mod Lifetime
mod Tests
use protos_tpe_g.Prelude.{
  ℕ, zero, suc, ◌+◌, ◌-◌, ◌*◌, ◌/◌, ◌%◌, ◌^◌, ◌==◌, Bool, true, false, not, ◌&&◌, ◌||◌,
  if◌then◌else◌, Option, none, some, List, [], ◌∷◌, ◌++◌, ltb, leb, length, set, take, replicate,
}
use protos_tpe_g.Session.Defs.{Interest, op_noop}

-- `FD_SETSIZE`
abbrev pub items_max_size : ℕ
items_max_size = 1024

-- `selector_status`
pub data Status : Type 0 where
  success enomem maxfd iargs fdinuse io : Status

-- `struct item`
pub record Item : Type 0 where
  pub fd : ℕ
  pub handler : ℕ
  pub interest : Interest
  pub data_of : ℕ

-- `struct fdselector`, without the part that waits and the list of finished jobs
pub record Selector : Type 0 where
  pub fds : List (Option Item)
  pub max_fd : ℕ
  pub master_r : ℕ → Bool
  pub master_w : ℕ → Bool

-- the loop of `next_capacity`; the first argument bounds the rounds, and `n` itself is enough
unfoldable pub bits : ℕ → ℕ → ℕ
bits zero tmp = 0
bits (suc rounds) tmp = let rest = bits rounds (tmp / 2) in if tmp == 0 then 0 else suc rest

unfoldable pub next_capacity : ℕ → ℕ
unfolding bits
next_capacity n =
    let tmp = 2 ^ bits n n in suc (if ltb items_max_size tmp then items_max_size else tmp)

-- `calloc` or `realloc`, with `items_init` for the new items; `allocated` is what the call answers.
unfoldable pub ensure_capacity : Bool → ℕ → Selector → Status × Selector
ensure_capacity allocated n s =
    if ltb n (length s.fds)
    then (success, s)
    else if ltb items_max_size n
    then (maxfd, s)
    else if allocated
    then (success, record s { fds = s.fds ++ replicate (next_capacity n - length s.fds) none })
    else (enomem, s)

-- `s->fds + i`, with `none` outside the array
unfoldable pub item_at : List (Option Item) → ℕ → Option (Option Item)
item_at [] i = none
item_at (item ∷ items) zero = some item
item_at (item ∷ items) (suc i) = item_at items i

abbrev pub reads_of : Option Item → Bool
reads_of none = false
reads_of (some item) = item.interest.reads

abbrev pub writes_of : Option Item → Bool
writes_of none = false
writes_of (some item) = item.interest.writes

-- `FD_CLR`, then `FD_SET` if it applies
abbrev pub assign : (ℕ → Bool) → ℕ → Bool → ℕ → Bool
assign m fd b i = if fd == i then b else m i

-- `items_update_fdset_for_fd`, for the item of `fd`
abbrev pub update_fdset : ℕ → Option Item → Selector → Selector
update_fdset fd item s = record s {
  master_r = assign s.master_r fd (reads_of item);
  master_w = assign s.master_w fd (writes_of item);
}

abbrev pub greater_fd : Option Item → ℕ → ℕ
greater_fd none max = max
greater_fd (some item) max = if ltb max item.fd then item.fd else max

-- the loop of `items_max_fd`, over the items that it visits
unfoldable pub max_from : ℕ → List (Option Item) → ℕ
max_from max [] = max
max_from max (item ∷ items) = max_from (greater_fd item max) items

unfoldable pub items_max_fd : Selector → ℕ
items_max_fd s = max_from 0 (take (suc s.max_fd) s.fds)

abbrev pub put_item : ℕ → Option Item → Selector → Selector
put_item fd item s = record s { fds = set s.fds fd item }

-- the registration proper, behind the tests of the arguments and the capacity
abbrev pub register_at : Option (Option Item) → ℕ → Item → Selector → Option (Status × Selector)
register_at none fd item s = none
register_at (some (some _)) fd item s = some (fdinuse, s)
register_at (some none) fd item s = some (
  success,
  update_fdset fd (some item)
      (record (put_item fd (some item) s) { max_fd = if ltb s.max_fd fd then fd else s.max_fd }),
)

abbrev pub register_grown : ℕ → Item → Status × Selector → Option (Status × Selector)
register_grown fd item (success, s) = register_at (item_at s.fds fd) fd item s
register_grown fd item (status, s) = some (status, s)

-- `selector_register`. A negative descriptor is `none`, as is a null handler.
unfoldable pub selector_register :
    Bool → Option ℕ → Option ℕ → Interest → ℕ → Selector → Option (Status × Selector)
unfolding ensure_capacity
selector_register allocated (some fd) (some handler) interest data_of s =
    let item : Item = record {
      fd = fd;
      handler = handler;
      interest = interest;
      data_of = data_of;
    } in
    if leb items_max_size fd
    then some (iargs, s)
    else register_grown fd item
        (if ltb (length s.fds) fd then ensure_capacity allocated fd s else (success, s))
selector_register allocated _ _ interest data_of s = some (iargs, s)

-- What `selector_unregister_fd` does behind the call of the close handler, with the place of the
-- item and its descriptor.
abbrev pub clear_item : ℕ → ℕ → Selector → Selector
clear_item place fd s =
    let v : Selector = update_fdset fd none (put_item place none s) in
    record v { max_fd = items_max_fd v }

-- The item as the close handler has left it; a cleared one has the descriptor -1, which `FD_CLR`
-- must not have.
abbrev pub clear_closed : Option (Option Item) → ℕ → Selector → Option (Status × Selector)
clear_closed (some (some item)) fd s = some (success, clear_item fd item.fd s)
clear_closed _ fd s = none

-- Behind the close handler the code goes on with the pointer to the item that it has taken before,
-- which is lost when the handler has made the table grow.
abbrev pub after_close : ℕ → Selector → Selector → Option (Status × Selector)
after_close fd before s =
    if length s.fds == length before.fds then clear_closed (item_at s.fds fd) fd s else none

abbrev pub unregister_at :
    (Item → Selector → Selector) → Option (Option Item) → ℕ → Selector → Option (Status × Selector)
unregister_at handle_close none fd s = none
unregister_at handle_close (some none) fd s = some (iargs, s)
unregister_at handle_close (some (some item)) fd s = after_close fd s (handle_close item s)

-- `selector_unregister_fd`, with what the close handlers do to the selector. `none` is an access
-- outside the table, to memory that `realloc` may have freed, or a bit -1 of a set.
unfoldable pub selector_unregister_fd :
    (Item → Selector → Selector) → Option ℕ → Selector → Option (Status × Selector)
selector_unregister_fd handle_close none s = some (iargs, s)
selector_unregister_fd handle_close (some fd) s =
    if leb items_max_size fd
    then some (iargs, s)
    else unregister_at handle_close (item_at s.fds fd) fd s

abbrev pub set_interest_at :
    Option (Option Item) → ℕ → Interest → Selector → Option (Status × Selector)
set_interest_at none fd i s = none
set_interest_at (some none) fd i s = some (iargs, s)
set_interest_at (some (some item)) fd i s =
    let changed = some (record item { interest = i }) in
    some (success, update_fdset fd changed (put_item fd changed s))

-- `selector_set_interest`
unfoldable pub selector_set_interest : Option ℕ → Interest → Selector → Option (Status × Selector)
selector_set_interest none i s = some (iargs, s)
selector_set_interest (some fd) i s =
    if leb items_max_size fd then some (iargs, s) else set_interest_at (item_at s.fds fd) fd i s
