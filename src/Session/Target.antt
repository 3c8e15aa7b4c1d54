-- ===== src/Session/Target.antt =====
-- src/server/target_connection.c: connecting to the target, and writing to it.
use protos_tpe_g.Prelude.{
  ℕ, suc, ◌==◌, Bool, true, false, not, ◌&&◌, ◌||◌, if◌then◌else◌, Option, none, some, List, [],
  ◌∷◌, ◌++◌, ltb, take,
}
use protos_tpe_g.Socks5.{
  Request, SockAddr, atyp_domain, atyp_ipv4, atyp_ipv6, request_response, reply_success,
  reply_general_failure,
}
use protos_tpe_g.Metrics.{connection_failed, connection_succeeded}
use protos_tpe_g.Session.Defs.{
  World, Stage, relay, closing, connecting, resolving, Errno, no_error, GaiError, gai_success,
  gai_again, AddrInfo, Job, target_handler, update, op_noop, op_write, prepare, set_interest,
  set_stage, c_str, unknown, access_log_connection,
}
use protos_tpe_g.Session.Flush.{Outcome, flushed, broken, Flush, flush_all}
use protos_tpe_g.Session.Close.{
  close_fd, set_target_fd, free_addresses, detach_resolver, unregister, close_connection,
  set_interest_any, update_relay_interests,
}
use protos_tpe_g.Session.Env.{
  Env, Attempt, no_socket, no_nonblock, socket, target_connection_succeeded, reply_for_errno,
  reply_for_gai_error, is_einprogress, is_inet,
}

abbrev pub set_error : Errno → World → World
set_error e w = record w { state = record w.state { last_connect_error = e } }

abbrev pub set_destination : List ℕ → World → World
set_destination host w = record w { state = record w.state { destination_host = host } }

abbrev pub ntop_host : Env → SockAddr → List ℕ
ntop_host env addr = elim (env.inet_ntop addr) [ none ↦ unknown | some text ↦ text ]

-- the host that `remember_request_destination` writes down
abbrev pub destination_of : Env → Request → List ℕ
destination_of env r =
    if r.atyp == atyp_domain
    then take 255 (c_str r.host)
    else if r.atyp == atyp_ipv4 || r.atyp == atyp_ipv6
    then ntop_host env r.addr
    else unknown

-- `remember_request_destination`
abbrev pub remember_request_destination : Env → Request → World → World
remember_request_destination env r w = record w {
  state = record w.state {
    destination_port = r.port;
    access_logged = false;
    destination_host = destination_of env r;
  };
}

abbrev pub is_nil : List ℕ → Bool
is_nil [] = true
is_nil (x ∷ xs) = false

-- `access_log_client_connection`
unfoldable pub log_connection : Bool → World → World
log_connection success w =
    let s = w.state in
    if s.access_logged || is_nil s.destination_host then w else record w {
      log = access_log_connection s.username s.destination_host s.destination_port success ∷ w.log;
      state = record s { access_logged = true };
    }

abbrev pub is_free : World → ℕ → Bool
is_free w fd = elim (w.registry fd) [ none ↦ true | some _ ↦ false ]

-- `selector_register` accepts a descriptor below `FD_SETSIZE` that is not in use.
abbrev pub can_register : World → ℕ → Bool
can_register w fd = ltb fd 1024 && is_free w fd

-- `register_connecting_socket`; the error is `errno` when it is called
abbrev pub register_connecting_socket : ℕ → Errno → World → Bool × World
register_connecting_socket fd errno w =
    if can_register w fd
    then (
      true,
      set_stage connecting (record w {
        registry =
            update w.registry fd (some (record { handler = target_handler; interest = op_write }));
      }),
    )
    else (false, set_target_fd none (close_fd fd (set_error errno w)))

-- `connect(...) == -1 && errno != EINPROGRESS`
abbrev pub connect_failed : Option Errno → Bool
connect_failed none = false
connect_failed (some e) = not (is_einprogress e)

abbrev pub error_of : Option Errno → Errno → Errno
error_of none errno = errno
error_of (some e) errno = e

-- `start_target_connection`
unfoldable pub start_target_connection : Attempt → World → Bool × World
start_target_connection (no_socket e) w = (false, set_error e w)
start_target_connection (no_nonblock fd e) w = (false, close_fd fd (set_error e w))
start_target_connection (socket fd result errno) w =
    let v = set_target_fd (some fd) w in
    if connect_failed result
    then (false, set_target_fd none (close_fd fd (set_error (error_of result errno) v)))
    else register_connecting_socket fd (error_of result errno) v

abbrev pub set_current : List AddrInfo → World → World
set_current as' w = record w { state = record w.state { target_address_current = as' } }

-- `start_next_target_connection`: the addresses that are left, and how many attempts were made
unfoldable pub start_next : Env → ℕ → List AddrInfo → World → Bool × World
start_next env k [] w = (false, w)
start_next env k (current ∷ rest) w = elim (is_inet current.family) [
  | false ↦ start_next env k rest (set_current rest w)
  | true ↦ elim ((start_target_connection (env.attempts k) (set_current rest w)).0) [
    | true ↦ (true, (start_target_connection (env.attempts k) (set_current rest w)).1)
    | false ↦
        start_next env (suc k) rest
          (start_target_connection (env.attempts k) (set_current rest w)).1
  ]
]

abbrev pub start_next_target_connection : Env → World → Bool × World
start_next_target_connection env w = start_next env 0 w.state.target_address_current w

-- the block that answers a request which cannot be served
abbrev pub fail_request : ℕ → ℕ → World → World
fail_request fd reply w = set_interest fd op_write (
    set_stage closing (
      log_connection false (
        let v = prepare (request_response reply) w in
        record v { metrics = connection_failed v.metrics })))

-- the end of a `start_...` call: wait for the target, or answer with the error
abbrev pub await_or_fail : ℕ → Bool × World → World
await_or_fail fd (true, w) = set_interest fd op_noop w
await_or_fail fd (false, w) = fail_request fd (reply_for_errno w.state.last_connect_error) w

abbrev pub new_job : Request → Job
new_job r = record {
  host = c_str r.host;
  port = r.port;
  done = false;
  result = none;
  status = gai_again;
}

abbrev pub set_job : Option Job → World → World
set_job job w = record w { state = record w.state { resolver_job = job } }

-- `target_connection_begin`
unfoldable pub target_connection_begin : Env → ℕ → Request → World → World
target_connection_begin env fd r w =
    let v = remember_request_destination env r (set_error no_error (free_addresses w)) in
    if r.atyp == atyp_domain
    then if env.resolver_started
      then set_interest fd op_noop
          (set_stage resolving (set_job (some (new_job r)) (detach_resolver v)))
      else fail_request fd reply_general_failure (detach_resolver v)
    else await_or_fail fd (
        start_target_connection (env.attempts 0)
          (record v { state = record v.state { target_addr = r.addr } }))

abbrev pub set_addresses : List AddrInfo → World → World
set_addresses as' w = record w {
  state = record w.state { target_addresses = some as'; target_address_current = as' };
}

-- the part of `target_connection_on_resolve` behind the lock, with what it took out of the job
abbrev pub resolved : Env → ℕ → GaiError → Option (List AddrInfo) → World → World
resolved env fd gai_success (some as') w =
    await_or_fail fd (start_next_target_connection env (set_addresses as' w))
resolved env fd status _ w = fail_request fd (reply_for_gai_error status) w

abbrev pub resolve_job : Env → ℕ → Option Job → World → World
resolve_job env fd none w = w
resolve_job env fd (some job) w =
    if job.done then resolved env fd job.status job.result (set_job none w) else w

abbrev pub resolve_at : Stage → Env → ℕ → World → World
resolve_at resolving env fd w = resolve_job env fd w.state.resolver_job w
resolve_at _ env fd w = w

-- `target_connection_on_resolve`
unfoldable pub target_connection_on_resolve : Env → ℕ → World → World
target_connection_on_resolve env fd w = resolve_at w.state.stage env fd w

-- the end of `target_write` while connecting
abbrev pub finish_connect : Bool → World → World
finish_connect connected w =
    let reply = if connected then reply_success else reply_for_errno w.state.last_connect_error in
    let v = prepare (request_response reply) w in
    let u = record v {
      metrics = if connected then connection_succeeded v.metrics else connection_failed v.metrics;
    } in
    let t = set_stage (if connected then relay else closing) (log_connection connected u) in
    set_interest_any t.state.client_fd op_write t

abbrev pub finish_next : Bool × World → World
finish_next (true, w) = w
finish_next (false, w) = finish_connect false w

-- `target_write` while connecting
unfoldable pub target_write_connecting : Env → ℕ → World → World
target_write_connecting env fd w =
    let (connected, socket_error) = target_connection_succeeded env.so_error in
    if connected
    then finish_connect true (set_interest fd op_noop w)
    else finish_next (start_next_target_connection env (unregister (set_error socket_error w) fd).1)

-- what the loop of `target_write` has changed
abbrev pub sent_to_target : Flush → World → World
sent_to_target f w = record w {
  state = record w.state { c2t_off = f.off };
  to_target = w.to_target ++ f.out;
  metrics = record w.metrics { bytes_client_to_target = f.counter };
}

abbrev pub clear_c2t : World → World
clear_c2t w = record w { state = record w.state { c2t_len = 0; c2t_off = 0 } }

abbrev pub after_target_flush : Outcome → World → World
after_target_flush flushed w = update_relay_interests (clear_c2t w)
after_target_flush broken w = close_connection w
after_target_flush _ w = w

-- `target_write` at any other stage
unfoldable pub target_write_relay : Env → World → World
target_write_relay env w =
    let f =
      flush_all env.send w.state.c2t_buffer w.state.c2t_len w.state.c2t_off
        w.metrics.bytes_client_to_target in
    after_target_flush f.outcome (sent_to_target f w)

abbrev pub target_write_at : Stage → Env → ℕ → World → World
target_write_at connecting env fd w = target_write_connecting env fd w
target_write_at _ env fd w = target_write_relay env w

-- `target_write`
unfoldable pub target_write : Env → ℕ → World → World
target_write env fd w = target_write_at w.state.stage env fd w
