-- ===== src/Server.antt =====
-- src/server/server.c: the listening sockets, and the main loop up to a shutdown. What the program
-- prints is left out.
pub mod Table
pub mod Serving
pub mod Descriptors
pub mod Shutdown
mod Tests
use protos_tpe_g.Prelude.{
  ℕ, zero, suc, ◌==◌, Bool, true, false, not, ◌&&◌, if◌then◌else◌, Option, none, some, List, [],
  ◌∷◌, ◌++◌,
}

-- How far an address of the list gets in `create_passive_socket`.
pub data Attempt : Type 0 where
  no_socket : Attempt
  no_nonblock no_bind no_listen listens : ℕ → Attempt

-- The loop over the addresses; with the descriptors it closed. `none` is -1.
unfoldable pub passive_from : List Attempt → List ℕ → Option ℕ × List ℕ
passive_from [] closed = (none, closed)
passive_from (no_socket ∷ rest) closed = passive_from rest closed
passive_from (no_nonblock fd ∷ rest) closed = passive_from rest (closed ++ (fd ∷ []))
passive_from (no_bind fd ∷ rest) closed = passive_from rest (closed ++ (fd ∷ []))
passive_from (no_listen fd ∷ rest) closed = passive_from rest (closed ++ (fd ∷ []))
passive_from (listens fd ∷ rest) closed = (some fd, closed)

-- `create_passive_socket`; `none` for the list is a failure of `getaddrinfo`.
unfoldable pub create_passive_socket : Option (List Attempt) → Option ℕ × List ℕ
create_passive_socket none = (none, [])
create_passive_socket (some attempts) = passive_from attempts []

-- `shutdown_requested` and `force_shutdown`
pub record Flags : Type 0 where
  pub shutdown_requested : Bool
  pub force_shutdown : Bool

-- `sigterm_handler`
unfoldable pub sigterm_handler : Flags → Flags
sigterm_handler f =
    if f.shutdown_requested
    then record f { force_shutdown = true }
    else record f { shutdown_requested = true }

-- so many signals
unfoldable pub signals : ℕ → Flags → Flags
signals zero f = f
signals (suc n) f = signals n (sigterm_handler f)

-- What `server_run` has done: its loop's state, the listening descriptors that are registered, all
-- that it has closed, and how often the selector was destroyed and `selector_close` called.
pub record Server : Type 0 where
  pub flags : Flags
  pub stopped_accepting : Bool
  pub registered : List ℕ
  pub closed : List ℕ
  pub destroyed : ℕ
  pub selector_closed : ℕ

-- A round of the loop: the signals during `selector_select`, the active connections behind it, and
-- the signals until the next test of `force_shutdown`.
pub record Round : Type 0 where
  pub during : ℕ
  pub active : ℕ
  pub behind : ℕ

abbrev pub with_signals : ℕ → Server → Server
with_signals n s = record s { flags = signals n s.flags }

-- The two listening descriptors, unregistered and closed. Their handlers have no `handle_close`.
unfoldable pub stop_listening : ℕ → ℕ → Server → Server
stop_listening server_fd management_fd s = record s {
  registered = [];
  closed = s.closed ++ (server_fd ∷ (management_fd ∷ []));
}

-- the first `if` of the loop
unfoldable pub stop_if_requested : ℕ → ℕ → Server → Server
stop_if_requested server_fd management_fd s =
    if s.flags.shutdown_requested && not s.stopped_accepting
    then stop_listening server_fd management_fd (record s { stopped_accepting = true })
    else s

-- The loop, over the rounds to come: whether it has ended, and the state.
unfoldable pub loop : ℕ → ℕ → List Round → Server → Bool × Server
loop server_fd management_fd [] s = (s.flags.force_shutdown, s)
loop server_fd management_fd (r ∷ rounds) s =
    let s' = stop_if_requested server_fd management_fd (with_signals r.during s) in
    let rest = loop server_fd management_fd rounds (with_signals r.behind s') in
    if s.flags.force_shutdown
    then (true, s)
    else if s'.stopped_accepting && r.active == 0
    then (true, s')
    else rest

-- what follows the loop
unfoldable pub finish : ℕ → ℕ → Server → Server
finish server_fd management_fd s =
    let s' = if not s.stopped_accepting then stop_listening server_fd management_fd s else s in
    record s' { destroyed = suc s'.destroyed; selector_closed = suc s'.selector_closed }

-- What the system answers to `server_run` before its loop, and the signals until then.
pub record Setup : Type 0 where
  pub server_socket : Option (List Attempt)
  pub management_socket : Option (List Attempt)
  pub selector_init : Bool
  pub selector_new : Bool
  pub register_server : Bool
  pub register_management : Bool
  pub early : ℕ

-- How a run stands: ended, with its status, or still in the loop.
pub record Run : Type 0 where
  pub status : Option ℕ
  pub server : Server

abbrev pub fails : List ℕ → ℕ → ℕ → Run
fails closed destroyed selector_closed = record {
  status = some 1;
  server = record {
    flags = record { shutdown_requested = false; force_shutdown = false };
    stopped_accepting = false;
    registered = [];
    closed = closed;
    destroyed = destroyed;
    selector_closed = selector_closed;
  };
}

abbrev pub listening : ℕ → ℕ → List ℕ → ℕ → Server
listening server_fd management_fd closed early = record {
  flags = signals early (record { shutdown_requested = false; force_shutdown = false });
  stopped_accepting = false;
  registered = server_fd ∷ (management_fd ∷ []);
  closed = closed;
  destroyed = 0;
  selector_closed = 0;
}

abbrev pub ended : ℕ → ℕ → Bool × Server → Run
ended server_fd management_fd (true, s) = record {
  status = some 0;
  server = finish server_fd management_fd s;
}
ended server_fd management_fd (false, s) = record { status = none; server = s }

-- `server_run` with both sockets
unfoldable pub run_selector : Setup → List Round → ℕ → ℕ → List ℕ → Run
run_selector setup rounds server_fd management_fd closed =
    let both = closed ++ (management_fd ∷ (server_fd ∷ [])) in
    if not setup.selector_init
    then fails both 0 0
    else if not setup.selector_new
    then fails both 0 1
    else if not setup.register_server
    then fails both 1 1
    else if not setup.register_management
    then fails both 1 1
    else ended server_fd management_fd
        (loop server_fd management_fd rounds (listening server_fd management_fd closed setup.early))

abbrev pub with_management : Setup → List Round → ℕ → List ℕ → Option ℕ × List ℕ → Run
with_management setup rounds server_fd closed (none, closed') =
    fails (closed ++ (closed' ++ (server_fd ∷ []))) 0 0
with_management setup rounds server_fd closed (some management_fd, closed') =
    run_selector setup rounds server_fd management_fd (closed ++ closed')

abbrev pub with_server : Setup → List Round → Option ℕ × List ℕ → Run
with_server setup rounds (none, closed) = fails closed 0 0
with_server setup rounds (some server_fd, closed) =
    with_management setup rounds server_fd closed (create_passive_socket setup.management_socket)

-- `server_run`
unfoldable pub server_run : Setup → List Round → Run
server_run setup rounds = with_server setup rounds (create_passive_socket setup.server_socket)
