-- ===== src/Session/Guard/Connecting.antt =====
-- What connecting to the target leaves alone: the users and the name of the client.
use protos_tpe_g.Prelude.{
  ℕ, suc, if◌then◌else◌, ◌≡◌, refl, ap, ◌∙◌, Bool, true, false, ◌||◌, ◌==◌, if_lem, Option, none,
  some, List, [], ◌∷◌, Bool-cases, inl, inr,
}
use protos_tpe_g.Users.{Table}
use protos_tpe_g.Metrics.{connection_failed, connection_succeeded}
use protos_tpe_g.Socks5.{
  Request, reply_success, atyp_domain, request_response, reply_general_failure,
}
use protos_tpe_g.Session.Defs.{
  World, relay, closing, resolving, Interest, Errno, no_error, op_noop, op_write, GaiError,
  gai_success, gai_again, gai_noname, gai_nodata, gai_other, AddrInfo, set_interest, set_stage,
  prepare,
}
use protos_tpe_g.Session.Close.{free_addresses, detach_resolver, set_target_fd, unregister}
use protos_tpe_g.Session.Env.{
  Env, Attempt, no_socket, no_nonblock, socket, target_connection_succeeded, reply_for_errno,
  reply_for_gai_error, is_inet,
}
use protos_tpe_g.Session.Target.{
  set_error, remember_request_destination, is_nil, log_connection, can_register,
  register_connecting_socket, connect_failed, error_of, start_target_connection, set_current,
  start_next, start_next_target_connection, fail_request, await_or_fail, new_job, set_job,
  target_connection_begin, set_addresses, resolved, finish_connect, finish_next,
  target_write_connecting,
}
use protos_tpe_g.Session.Relay.{
  Wire, wire-set_interest, wire-set_interest_any, wire-unregister, wire-free_addresses,
}

-- the users and the name
abbrev pub user_of : Wire → Table × List ℕ
user_of x = (x.users, x.username)

abbrev pub user : World → Table × List ℕ
user w = (w.users, w.state.username)

user-set_interest : (fd : ℕ) (i : Interest) (w : World) → user (set_interest fd i w) ≡ user w
user-set_interest fd i w = ap user_of (wire-set_interest fd i w)

user-log_connection : (success : Bool) (w : World) → user (log_connection success w) ≡ user w
unfolding log_connection
user-log_connection success w =
    if_lem (λ v. user v ≡ user w) (w.state.access_logged || is_nil w.state.destination_host)
      (λ _. refl) (λ _. refl)

user-fail_request : (fd reply : ℕ) (w : World) → user (fail_request fd reply w) ≡ user w
user-fail_request fd reply w =
    let v = prepare (request_response reply) w in
    let u : World = record v { metrics = connection_failed v.metrics } in
    user-set_interest fd op_write (set_stage closing (log_connection false u))
    ∙ user-log_connection false u

user-await_or_fail : (fd : ℕ) (r : Bool × World) → user (await_or_fail fd r) ≡ user r.1
user-await_or_fail fd (true, w) = user-set_interest fd op_noop w
user-await_or_fail fd (false, w) =
    user-fail_request fd (reply_for_errno w.state.last_connect_error) w

user-register_connecting_socket :
    (fd : ℕ) (e : Errno) (w : World) → user (register_connecting_socket fd e w).1 ≡ user w
user-register_connecting_socket fd e w =
    if_lem (λ (r : Bool × World). user r.1 ≡ user w) (can_register w fd) (λ _. refl) (λ _. refl)

user-start_target_connection :
    (a : Attempt) (w : World) → user (start_target_connection a w).1 ≡ user w
unfolding start_target_connection
user-start_target_connection (no_socket e) w = refl
user-start_target_connection (no_nonblock fd e) w = refl
user-start_target_connection (socket fd result errno) w =
    if_lem (λ (r : Bool × World). user r.1 ≡ user w) (connect_failed result) (λ _. refl)
      (λ _. user-register_connecting_socket fd (error_of result errno) (set_target_fd (some fd) w))

user-start_next :
    (env : Env) (k : ℕ) (as' : List AddrInfo) (w : World) → user (start_next env k as' w).1 ≡ user w
unfolding start_next
user-start_next env k [] w = refl
user-start_next env k (current ∷ rest) w = elim (Bool-cases (is_inet current.family)) [
  | inr e ↦ rw (e, start_next) (user-start_next env k rest (set_current rest w))
  | inl e ↦ elim (Bool-cases (start_target_connection (env.attempts k) (set_current rest w)).0) [
    | inl f ↦
        rw (e, f, start_next) (user-start_target_connection (env.attempts k) (set_current rest w))
    | inr f ↦
        rw (e, f, start_next)
          (user-start_next env (suc k) rest
              (start_target_connection (env.attempts k) (set_current rest w)).1
            ∙ user-start_target_connection (env.attempts k) (set_current rest w))
  ]
]

user-free_addresses : (w : World) → user (free_addresses w) ≡ user w
user-free_addresses w = ap user_of (wire-free_addresses w)

-- `target_connection_begin` keeps the users and the name.
pub user-target_connection_begin :
    (env : Env) (fd : ℕ) (r : Request) (w : World)
    → user (target_connection_begin env fd r w) ≡ user w
unfolding target_connection_begin
user-target_connection_begin env fd r w =
    let v : World = remember_request_destination env r (set_error no_error (free_addresses w)) in
    let u : World = record v { state = record v.state { target_addr = r.addr } } in
    if_lem (λ x. user x ≡ user w) (r.atyp == atyp_domain)
      (λ _.
        if_lem (λ x. user x ≡ user w) env.resolver_started
          (λ _.
            user-set_interest fd op_noop
              (set_stage resolving (set_job (some (new_job r)) (detach_resolver v)))
            ∙ user-free_addresses w)
          (λ _.
            user-fail_request fd reply_general_failure (detach_resolver v) ∙ user-free_addresses w))
      (λ _.
        user-await_or_fail fd (start_target_connection (env.attempts 0) u)
        ∙ (user-start_target_connection (env.attempts 0) u ∙ user-free_addresses w))

-- so does the end of a resolution
pub user-resolved :
    (env : Env) (fd : ℕ) (status : GaiError) (result : Option (List AddrInfo)) (w : World)
    → user (resolved env fd status result w) ≡ user w
user-resolved env fd gai_success (some as') w =
    user-await_or_fail fd (start_next_target_connection env (set_addresses as' w))
    ∙ user-start_next env 0 as' (set_addresses as' w)
user-resolved env fd gai_success none w = user-fail_request fd (reply_for_gai_error gai_success) w
user-resolved env fd gai_again result w = user-fail_request fd (reply_for_gai_error gai_again) w
user-resolved env fd gai_noname result w = user-fail_request fd (reply_for_gai_error gai_noname) w
user-resolved env fd gai_nodata result w = user-fail_request fd (reply_for_gai_error gai_nodata) w
user-resolved env fd (gai_other n) result w =
    user-fail_request fd (reply_for_gai_error (gai_other n)) w

user-finish_connect : (connected : Bool) (w : World) → user (finish_connect connected w) ≡ user w
user-finish_connect connected w =
    let reply = if connected then reply_success else reply_for_errno w.state.last_connect_error in
    let v = prepare (request_response reply) w in
    let u : World = record v {
      metrics = if connected then connection_succeeded v.metrics else connection_failed v.metrics;
    } in
    let t : World = set_stage (if connected then relay else closing) (log_connection connected u) in
    ap user_of (wire-set_interest_any t.state.client_fd op_write t)
    ∙ user-log_connection connected u

user-finish_next : (r : Bool × World) → user (finish_next r) ≡ user r.1
user-finish_next (true, w) = refl
user-finish_next (false, w) = user-finish_connect false w

-- and the end of an attempt to connect
pub user-target_write_connecting :
    (env : Env) (fd : ℕ) (w : World) → user (target_write_connecting env fd w) ≡ user w
unfolding target_write_connecting
user-target_write_connecting env fd w =
    let (connected, e) = target_connection_succeeded env.so_error in
    let v : World = (unregister (set_error e w) fd).1 in
    if_lem (λ x. user x ≡ user w) connected
      (λ _. user-finish_connect true (set_interest fd op_noop w) ∙ user-set_interest fd op_noop w)
      (λ _.
        user-finish_next (start_next_target_connection env v)
        ∙ (user-start_next env 0 v.state.target_address_current v
            ∙ ap user_of (wire-unregister (set_error e w) fd)))
