-- ===== src/Selector/Dispatch.antt =====
-- src/utils/selector.c, the part that waits: `handle_iteration`, `handle_block_notifications`,
-- `selector_notify_block` and `selector_select`. The handlers act on the table, the finished jobs
-- and whatever else they reach; `none` is an assertion that fails, a call of a null handler, or an
-- access outside the table or to memory that `realloc` may have freed.
pub mod Calls
use protos_tpe_g.Prelude.{
  ℕ, zero, suc, ◌+◌, ◌-◌, Bool, true, false, ◌&&◌, if◌then◌else◌, Option, none, some, List, [], ◌∷◌,
  length, ◌==◌, ◌>>=◌,
}
use protos_tpe_g.Session.Defs.{Errno, eagain, eintr}
use protos_tpe_g.Selector.{
  Status, success, io, enomem, Item, Selector, item_at, reads_of, writes_of,
}

-- `resolution_jobs` by their descriptors, the table, and the rest
pub record Loop (App : Type 0) : Type 0 where
  pub selector : Selector
  pub jobs : List ℕ
  pub app : App

-- `struct selector_key` without the selector
pub record Key : Type 0 where
  pub fd : ℕ
  pub data_of : ℕ

-- `fd_handler`, by the number of the handler
pub record Handlers (App : Type 0) : Type 0 where
  pub handle_read : ℕ → Option (Key → Loop App → Loop App)
  pub handle_write : ℕ → Option (Key → Loop App → Loop App)
  pub handle_block : ℕ → Option (Key → Loop App → Loop App)

abbrev pub key_of : Item → Key
key_of item = record { fd = item.fd; data_of = item.data_of }

-- what `pselect` answers
pub data Wait : Type 0 where
  ready : (ℕ → Bool) → (ℕ → Bool) → Wait
  fails : Errno → Wait

-- `EAGAIN` and `EINTR`
abbrev pub is_interruption : Errno → Bool
is_interruption eagain = true
is_interruption eintr = true
is_interruption _ = false

module _ {App : Type 0} where
  -- `selector_notify_block`, by whether `malloc` gives memory; the signal to the thread is left out.
  unfoldable pub selector_notify_block : Bool → ℕ → Loop App → Status × Loop App
  selector_notify_block false fd l = (enomem, l)
  selector_notify_block true fd l = (success, record l { jobs = fd ∷ l.jobs })

  abbrev pub with_status : Status → Option (Loop App) → Option (Status × Loop App)
  with_status status none = none
  with_status status (some l) = some (status, l)

module _ {App : Type 0} (handlers : Handlers App) where
  -- the call of a handler that must not be `NULL`
  abbrev pub invoke : Option (Key → Loop App → Loop App) → Key → Loop App → Option (Loop App)
  invoke none key l = none
  invoke (some handler) key l = some (handler key l)

  -- The test for writing looks at the item again, as the read handler has left it; the key is as
  -- it was.
  abbrev pub write_item : (ℕ → Bool) → ℕ → Key → Option (Option Item) → Loop App → Option (Loop App)
  write_item slave_w i key none l = none
  write_item slave_w i key (some none) l = some l
  write_item slave_w i key (some (some item)) l =
      if slave_w i && item.interest.writes
      then invoke (handlers.handle_write item.handler) key l
      else some l

  abbrev pub read_item : (ℕ → Bool) → Item → Loop App → Option (Loop App)
  read_item slave_r item l =
      if slave_r item.fd && item.interest.reads
      then invoke (handlers.handle_read item.handler) (key_of item) l
      else some l

  -- The pointer to the item is lost when the read handler has made the table grow.
  abbrev pub after_read : (ℕ → Bool) → ℕ → Key → ℕ → Loop App → Option (Loop App)
  after_read slave_w i key size l =
      if length l.selector.fds == size
      then write_item slave_w i key (item_at l.selector.fds i) l
      else none

  -- one round of the loop of `handle_iteration`
  abbrev pub visit_item :
      (ℕ → Bool) → (ℕ → Bool) → ℕ → Option (Option Item) → Loop App → Option (Loop App)
  visit_item slave_r slave_w i none l = none
  visit_item slave_r slave_w i (some none) l = some l
  visit_item slave_r slave_w i (some (some item)) l =
      read_item slave_r item l >>= after_read slave_w i (key_of item) (length l.selector.fds)

  -- the loop from `i` on, for `rounds` items
  unfoldable pub visit_from : ℕ → ℕ → (ℕ → Bool) → (ℕ → Bool) → Loop App → Option (Loop App)
  visit_from zero i slave_r slave_w l = some l
  visit_from (suc rounds) i slave_r slave_w l =
      visit_item slave_r slave_w i (item_at l.selector.fds i) l
      >>= visit_from rounds (suc i) slave_r slave_w

  -- `handle_iteration`
  unfoldable pub handle_iteration : (ℕ → Bool) → (ℕ → Bool) → Loop App → Option (Loop App)
  handle_iteration slave_r slave_w l = visit_from (suc l.selector.max_fd) 0 slave_r slave_w l

  abbrev pub notify_item : Option (Option Item) → Loop App → Option (Loop App)
  notify_item none l = none
  notify_item (some none) l = some l
  notify_item (some (some item)) l = invoke (handlers.handle_block item.handler) (key_of item) l

  -- the loop of `handle_block_notifications`
  unfoldable pub notify_from : List ℕ → Loop App → Option (Loop App)
  notify_from [] l = some l
  notify_from (fd ∷ jobs) l = notify_item (item_at l.selector.fds fd) l >>= notify_from jobs

  -- `handle_block_notifications`
  unfoldable pub handle_block_notifications : Loop App → Option (Loop App)
  handle_block_notifications l = notify_from l.jobs l >>= λ l'. some (record l' { jobs = [] })

  -- `selector_select`
  unfoldable pub selector_select : Wait → Loop App → Option (Status × Loop App)
  selector_select (ready slave_r slave_w) l =
      with_status success (handle_iteration slave_r slave_w l >>= handle_block_notifications)
  selector_select (fails e) l =
      if is_interruption e then with_status success (handle_block_notifications l) else some (io, l)
