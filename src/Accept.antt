-- ===== src/Accept.antt =====
-- src/server/client_session.c, `accept_connection`, and src/server/management.c,
-- `accept_management_connection`: the loops that take new connections, over the table of the
-- selector.
pub mod Registering
pub mod Counting
mod Tests
use protos_tpe_g.Prelude.{
  ℕ, zero, suc, ◌+◌, Bool, true, false, if◌then◌else◌, Option, none, some, List, [], ◌∷◌, ◌++◌,
  length, replicate,
}
use protos_tpe_g.Socks5.{unset}
use protos_tpe_g.Metrics.{Metrics, connection_opened, add64}
use protos_tpe_g.Session.Defs.{
  ClientState, Errno, no_error, greeting, server_buffer_size, anonymous, op_read,
}
use protos_tpe_g.Management.Respond.{management_buffer_size}
use protos_tpe_g.Management.Handlers.{ManagementState, new_management}
use protos_tpe_g.Selector.{Selector, Status, success, selector_register}

-- What the system answers in one round: -1, or a descriptor, whether `set_nonblocking` works, the
-- address that `calloc` gives, and whether the table could grow.
pub data Accepted : Type 0 where
  no_connection : Errno → Accepted
  connection : ℕ → Bool → Option ℕ → Bool → Accepted

-- What such a loop changes: the selector, the new states by descriptor, the descriptors closed, the
-- states freed, the counters and `active_client_connections`.
pub record Acceptor (State : Type 0) : Type 0 where
  pub selector : Selector
  pub live : List (ℕ × State)
  pub closed : List ℕ
  pub frees : ℕ
  pub metrics : Metrics
  pub active : ℕ

-- What the two loops differ in: the handler, the state of a new connection, and whether it counts.
pub record Kind (State : Type 0) : Type 0 where
  pub handler : ℕ
  pub fresh : ℕ → State
  pub counts : Bool

-- `client_handler` and `management_client_handler`
abbrev pub client_handler : ℕ
client_handler = 1

abbrev pub management_client_handler : ℕ
management_client_handler = 2

-- `calloc` and the fields that `accept_connection` sets
abbrev pub new_client : ℕ → ClientState
new_client fd = record {
  read_buffer = replicate server_buffer_size 0;
  write_buffer = replicate server_buffer_size 0;
  c2t_buffer = replicate server_buffer_size 0;
  t2c_buffer = replicate server_buffer_size 0;
  read_len = 0;
  write_len = 0;
  write_off = 0;
  c2t_len = 0;
  c2t_off = 0;
  t2c_len = 0;
  t2c_off = 0;
  client_fd = some fd;
  target_fd = none;
  target_addr = unset;
  target_addresses = none;
  target_address_current = [];
  resolver_job = none;
  last_connect_error = no_error;
  username = anonymous;
  destination_host = [];
  destination_port = 0;
  access_logged = false;
  stage = greeting;
  relay_started = false;
}

abbrev pub client_kind : Kind ClientState
client_kind = record { handler = client_handler; fresh = new_client; counts = true }

abbrev pub management_kind : Kind ManagementState
management_kind = record {
  handler = management_client_handler;
  fresh = λ fd. new_management;
  counts = false;
}

module _ {State : Type 0} (kind : Kind State) where
  abbrev pub close_fd : ℕ → Acceptor State → Acceptor State
  close_fd fd a = record a { closed = a.closed ++ (fd ∷ []) }

  -- `active_client_connections` is a `size_t` of 64 bits.
  abbrev pub counted : Acceptor State → Acceptor State
  counted a =
      if kind.counts
      then record a { metrics = connection_opened a.metrics; active = add64 a.active 1 }
      else a

  -- behind `selector_register`
  abbrev pub registered : ℕ → Option (Status × Selector) → Acceptor State → Option (Acceptor State)
  registered fd none a = none
  registered fd (some (success, s)) a =
      some (counted (record a { selector = s; live = a.live ++ ((fd, kind.fresh fd) ∷ []) }))
  registered fd (some (_, s)) a =
      some (close_fd fd (record a { selector = s; frees = suc a.frees }))

  abbrev pub register_new : ℕ → Option ℕ → Bool → Acceptor State → Option (Acceptor State)
  register_new fd none grows a = some (close_fd fd a)
  register_new fd (some state) grows a =
      registered fd (selector_register grows (some fd) (some kind.handler) op_read state a.selector)
        a

  -- one round behind a successful `accept`
  unfoldable pub accept_one : ℕ → Bool → Option ℕ → Bool → Acceptor State → Option (Acceptor State)
  accept_one fd nonblocking state grows a =
      if nonblocking then register_new fd state grows a else some (close_fd fd a)

  abbrev pub then_accept :
      (Acceptor State → Option (Acceptor State)) → Option (Acceptor State) → Option (Acceptor State)
  then_accept next none = none
  then_accept next (some a) = next a

  -- The loop, over the answers of `accept` in their order; it returns at the first -1. `none` is an
  -- access outside the table of the selector.
  unfoldable pub accept_all : List Accepted → Acceptor State → Option (Acceptor State)
  accept_all [] a = some a
  accept_all (no_connection e ∷ answers) a = some a
  accept_all (connection fd nonblocking state grows ∷ answers) a =
      then_accept (accept_all answers) (accept_one fd nonblocking state grows a)

-- `accept_connection`
abbrev pub accept_connection : List Accepted → Acceptor ClientState → Option (Acceptor ClientState)
accept_connection = accept_all client_kind

-- `accept_management_connection`
abbrev pub accept_management_connection :
    List Accepted → Acceptor ManagementState → Option (Acceptor ManagementState)
accept_management_connection = accept_all management_kind
