-- ===== src/Session/Close.antt =====
-- Closing a connection: `client_session_close_connection`, `client_close`, `target_close` and the
-- selector's `selector_unregister_fd`, which calls the close handlers; and
-- `client_session_update_relay_interests`.
use protos_tpe_g.Prelude.{
  ℕ, zero, suc, ◌+◌, ◌-◌, ◌%◌, ◌^◌, ◌==◌, Bool, true, false, not, if◌then◌else◌, Option, none, some,
  List, [], ◌∷◌, ltb,
}
use protos_tpe_g.Metrics.{connection_closed}
use protos_tpe_g.Session.Defs.{
  World, ClientState, Handler, client_handler, target_handler, Registration, Interest, AddrInfo,
  update, set_interest,
}

-- `close(fd)`
abbrev pub close_fd : ℕ → World → World
close_fd fd w = record w { closed = fd ∷ w.closed }

abbrev pub holds : Option ℕ → ℕ → Bool
holds none fd = false
holds (some f) fd = f == fd

abbrev pub set_client_fd : Option ℕ → World → World
set_client_fd fd w = record w { state = record w.state { client_fd = fd } }

abbrev pub set_target_fd : Option ℕ → World → World
set_target_fd fd w = record w { state = record w.state { target_fd = fd } }

-- `target_close`
abbrev pub target_close : ℕ → World → World
target_close fd w = close_fd fd (if holds w.state.target_fd fd then set_target_fd none w else w)

-- `target_connection_free_addresses`
abbrev pub free_addresses_of : Option (List AddrInfo) → World → World
free_addresses_of none w = w
free_addresses_of (some _) w = record w {
  state = record w.state { target_addresses = none; target_address_current = [] };
}

abbrev pub free_addresses : World → World
free_addresses w = free_addresses_of w.state.target_addresses w

-- `target_connection_detach_resolver`, as far as the session sees it: the job is let go of
abbrev pub detach_resolver : World → World
detach_resolver w = record w { state = record w.state { resolver_job = none } }

-- `active_client_connections--`, of a `size_t`
abbrev pub dec_active : ℕ → ℕ
dec_active n = (n + 2 ^ 64 - 1) % 2 ^ 64

-- the end of `client_close`: all that the state owns, and the state
abbrev pub release : World → World
release w =
    let v = free_addresses (detach_resolver w) in
    record v {
      metrics = connection_closed v.metrics;
      active = dec_active v.active;
      frees = suc v.frees;
    }

-- A target that is being let go of: the selector closes it, or else the caller does.
abbrev pub close_target : (World → ℕ → Bool × World) → ℕ → World → World
close_target unregister fd w =
    let (success, v) = unregister (set_target_fd none w) fd in if success then v else close_fd fd v

abbrev pub close_target_if : (World → ℕ → Bool × World) → Option ℕ → World → World
close_target_if unregister none w = w
close_target_if unregister (some fd) w = close_target unregister fd w

abbrev pub close_any_target : (World → ℕ → Bool × World) → World → World
close_any_target unregister w = close_target_if unregister w.state.target_fd w

-- `client_close`, with `selector_unregister_fd` as it calls it
abbrev pub client_close : (World → ℕ → Bool × World) → ℕ → World → World
client_close unregister fd w = close_fd fd (
    release (
      close_any_target unregister (if holds w.state.client_fd fd then set_client_fd none w else w)))

-- `handle_close` of a handler
abbrev pub handle_close : (World → ℕ → Bool × World) → Handler → ℕ → World → World
handle_close unregister client_handler fd w = client_close unregister fd w
handle_close unregister target_handler fd w = target_close fd w

abbrev pub forget : ℕ → World → World
forget fd w = record w { registry = update w.registry fd none }

abbrev pub unregister_entry :
    (World → ℕ → Bool × World) → Option Registration → ℕ → World → Bool × World
unregister_entry unregister none fd w = (false, w)
unregister_entry unregister (some r) fd w =
    (true, forget fd (handle_close unregister r.handler fd w))

-- `selector_unregister_fd` calls the close handler, which may call it again; the first argument
-- bounds the nesting.
unfoldable pub unregister_to : ℕ → World → ℕ → Bool × World
unregister_to zero w fd = (false, w)
unregister_to (suc depth) w fd = unregister_entry (unregister_to depth) (w.registry fd) fd w

-- `client_close` may call it for the target, whose `target_close` does not: two levels.
unfoldable pub unregister : World → ℕ → Bool × World
unregister w fd = unregister_to 2 w fd

-- `client_session_close_connection`
abbrev pub close_either : Option ℕ → World → World
close_either (some fd) w = (unregister (set_client_fd none w) fd).1
close_either none w = close_any_target unregister w

unfoldable pub close_connection : World → World
close_connection w = close_either w.state.client_fd w

abbrev pub client_interest : ClientState → Interest
client_interest s = record { reads = s.c2t_len == 0; writes = ltb s.t2c_off s.t2c_len }

abbrev pub target_interest : ClientState → Interest
target_interest s = record { reads = s.t2c_len == 0; writes = ltb s.c2t_off s.c2t_len }

abbrev pub set_interest_any : Option ℕ → Interest → World → World
set_interest_any none i w = w
set_interest_any (some fd) i w = set_interest fd i w

-- `client_session_update_relay_interests`
unfoldable pub update_relay_interests : World → World
unfolding set_interest
update_relay_interests w =
    if not w.state.relay_started
    then w
    else set_interest_any w.state.target_fd (target_interest w.state)
        (set_interest_any w.state.client_fd (client_interest w.state) w)
