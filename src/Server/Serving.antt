-- ===== src/Server/Serving.antt =====
-- The handler tables (`fd_handler`) of src/server/client_session.c, target_connection.c and
-- management.c, over the states of all connections and the table of the selector. What a handler
-- asks of the selector is carried out on the table by the selector's operations.
pub mod Keeping
pub mod Sound
pub mod Samples
use protos_tpe_g.Prelude.{
  ℕ, suc, ◌==◌, Bool, true, ◌&&◌, if◌then◌else◌, Option, none, some, List, [], ◌∷◌, ◌++◌,
}
use protos_tpe_g.Metrics.{Metrics}
use protos_tpe_g.Session.Defs.{
  World, ClientState, Handler, client_handler, target_handler, Registration, Interest, op_read,
  eagain,
}
use protos_tpe_g.Session.Env.{Env, Recv}
use protos_tpe_g.Session.Flush.{Kernel}
use protos_tpe_g.Session.Target.{target_write, target_connection_on_resolve}
use protos_tpe_g.Session.Client.{client_read, client_write, target_read}
use protos_tpe_g.Management.Handlers.{
  Management, ManagementState, management_read, management_write,
}
use protos_tpe_g.Selector.{
  Status, Item, Selector, item_at, selector_register, selector_unregister_fd, selector_set_interest,
}
use protos_tpe_g.Selector.Dispatch.{Loop, Key, Handlers}
use protos_tpe_g.Accept.{
  Accepted, connection, no_connection, Acceptor, Kind, client_kind, management_kind, accept_all,
}

-- The states of the connections by their addresses, of which those from `next` on are not given
-- yet; and what a state starts with.
pub record Connections : Type 0 where
  pub clients : ℕ → World
  pub managements : ℕ → Management
  pub next : ℕ
  pub metrics : Metrics
  pub active : ℕ
  pub world : World
  pub management : Management

-- What the system answers during the calls: to the handlers of a connection, and to `accept`, one
-- descriptor and whether `set_nonblocking` works.
pub record System : Type 0 where
  pub env : Key → Env
  pub recv : Key → ℕ → Recv
  pub send : Key → Kernel
  pub accepts : Key → ℕ × Bool

-- the numbers of the handler tables that are not for a connection of `accept`
abbrev pub target_number : ℕ
target_number = 3

abbrev pub accept_number : ℕ
accept_number = 4

abbrev pub management_accept_number : ℕ
management_accept_number = 5

abbrev pub number : Handler → ℕ
number client_handler = client_kind.handler
number target_handler = target_number

abbrev pub table_after : Option (Status × Selector) → Selector → Selector
table_after none s = s
table_after (some (status, t)) s = t

-- The operation that brings a descriptor of the connection with the state `d` to the registration
-- that its handler wants. What the close handlers do to the states is done by then, and they leave
-- the table as it is but for other descriptors of the connection, which are brought on as well.
abbrev pub follow_item : ℕ → ℕ → Option (ℕ × Interest) → Option (Option Item) → Selector → Selector
follow_item d fd none (some (some item)) s =
    if item.data_of == d then table_after (selector_unregister_fd (λ _ t. t) (some fd) s) s else s
follow_item d fd (some (handler, i)) (some (some item)) s =
    if item.handler == handler && item.data_of == d
    then table_after (selector_set_interest (some fd) i s) s
    else s
follow_item d fd (some (handler, i)) (some none) s =
    table_after (selector_register true (some fd) (some handler) i d s) s
follow_item d fd _ _ s = s

abbrev pub follow : ℕ → ℕ → Option (ℕ × Interest) → Selector → Selector
follow d fd wanted s = follow_item d fd wanted (item_at s.fds fd) s

abbrev pub follow_all : ℕ → (ℕ → Option (ℕ × Interest)) → List ℕ → Selector → Selector
follow_all d wanted [] s = s
follow_all d wanted (fd ∷ fds) s = follow_all d wanted fds (follow d fd (wanted fd) s)

abbrev pub wanted_of : Option Registration → Option (ℕ × Interest)
wanted_of none = none
wanted_of (some r) = some (number r.handler, r.interest)

abbrev pub fds_of : Option ℕ → List ℕ
fds_of none = []
fds_of (some fd) = fd ∷ []

abbrev pub put {ℓ} : {A : Type ℓ} → (ℕ → A) → ℕ → A → ℕ → A
put f i a j = if i == j then a else f j

-- the descriptors of a session before and after a handler
abbrev pub descriptors : Key → World → World → List ℕ
descriptors key w v =
    key.fd ∷ (fds_of w.state.client_fd ++ (fds_of w.state.target_fd ++ fds_of v.state.target_fd))

-- a handler of a session, on the state that the key names
abbrev pub session_call : (World → World) → Key → Loop Connections → Loop Connections
session_call f key l =
    let w = l.app.clients key.data_of in
    let v = f w in
    record l {
      selector =
          follow_all key.data_of (λ fd. wanted_of (v.registry fd)) (descriptors key w v) l.selector;
      app = record l.app { clients = put l.app.clients key.data_of v };
    }

abbrev pub wanted_management : Option Interest → Option (ℕ × Interest)
wanted_management none = none
wanted_management (some i) = some (management_kind.handler, i)

-- a handler of a management connection
abbrev pub management_call : (Management → Management) → Key → Loop Connections → Loop Connections
management_call f key l =
    let m = f (l.app.managements key.data_of) in
    record l {
      selector = follow key.data_of key.fd (wanted_management m.registered) l.selector;
      app = record l.app { managements = put l.app.managements key.data_of m };
    }

abbrev pub acceptor : {State : Type 0} → Loop Connections → Acceptor State
acceptor l = record {
  selector = l.selector;
  live = [];
  closed = [];
  frees = 0;
  metrics = l.app.metrics;
  active = l.app.active;
}

-- A call of `accept_all` in which one connection waits.
abbrev pub accept_call :
    {State : Type 0} → Kind State → System → Key → Loop Connections → Option (Acceptor State)
accept_call kind system key l =
    let (fd, nonblocking) = system.accepts key in
    accept_all kind (connection fd nonblocking (some l.app.next) true ∷ (no_connection eagain ∷ []))
      (acceptor l)

abbrev pub new_clients : ℕ → List (ℕ × ClientState) → Connections → Connections
new_clients d [] c = c
new_clients d ((fd, state) ∷ rest) c = record c {
  clients = put c.clients d (record c.world {
    state = state;
    registry = λ i.
        if fd == i then some (record { handler = client_handler; interest = op_read }) else none;
  });
}

abbrev pub new_managements : ℕ → List (ℕ × ManagementState) → Connections → Connections
new_managements d [] c = c
new_managements d ((fd, state) ∷ rest) c = record c {
  managements =
      put c.managements d (record c.management { state = state; registered = some op_read });
}

abbrev pub accepted :
    {State : Type 0}
    → (ℕ → List (ℕ × State) → Connections → Connections)
    → Option (Acceptor State)
    → Loop Connections
    → Loop Connections
accepted news none l = l
accepted news (some a) l = record l {
  selector = a.selector;
  app = record (news l.app.next a.live l.app) {
    next = suc l.app.next;
    metrics = a.metrics;
    active = a.active;
  };
}

-- `fd_handler` without `handle_close`, which `selector_unregister_fd` calls
pub record FdHandler : Type 0 where
  pub handle_read : Option (Key → Loop Connections → Loop Connections)
  pub handle_write : Option (Key → Loop Connections → Loop Connections)
  pub handle_block : Option (Key → Loop Connections → Loop Connections)

module _ (system : System) where
  -- `client_handler`
  abbrev pub client_table : FdHandler
  client_table = record {
    handle_read = some (λ key. session_call (client_read (system.env key) key.fd) key);
    handle_write = some (λ key. session_call (client_write (system.env key) key.fd) key);
    handle_block =
        some (λ key. session_call (target_connection_on_resolve (system.env key) key.fd) key);
  }

  -- `target_handler`
  abbrev pub target_table : FdHandler
  target_table = record {
    handle_read = some (λ key. session_call (target_read (system.env key)) key);
    handle_write = some (λ key. session_call (target_write (system.env key) key.fd) key);
    handle_block = none;
  }

  -- `management_client_handler`
  abbrev pub management_table : FdHandler
  management_table = record {
    handle_read = some (λ key. management_call (management_read (system.recv key)) key);
    handle_write = some (λ key. management_call (management_write (system.send key)) key);
    handle_block = none;
  }

  -- `accept_handler`
  abbrev pub accept_table : FdHandler
  accept_table = record {
    handle_read = some (λ key l. accepted new_clients (accept_call client_kind system key l) l);
    handle_write = none;
    handle_block = none;
  }

  -- `management_accept_handler`
  abbrev pub management_accept_table : FdHandler
  management_accept_table = record {
    handle_read =
        some (λ key l. accepted new_managements (accept_call management_kind system key l) l);
    handle_write = none;
    handle_block = none;
  }

  abbrev pub no_table : FdHandler
  no_table = record { handle_read = none; handle_write = none; handle_block = none }

  abbrev pub table_of : ℕ → FdHandler
  table_of h =
      if h == client_kind.handler
      then client_table
      else if h == management_kind.handler
      then management_table
      else if h == target_number
      then target_table
      else if h == accept_number
      then accept_table
      else if h == management_accept_number
      then management_accept_table
      else no_table

  abbrev pub server_handlers : Handlers Connections
  server_handlers = record {
    handle_read = λ h. (table_of h).handle_read;
    handle_write = λ h. (table_of h).handle_write;
    handle_block = λ h. (table_of h).handle_block;
  }
