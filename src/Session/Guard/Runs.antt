-- ===== src/Session/Guard/Runs.antt =====
-- The handlers of one connection, over any sequence of calls: who is served.
use protos_tpe_g.Prelude.{
  ℕ, ◌≡◌, ◌≢◌, refl, ap, sym, ◌∙◌, true, false, not, ◌==◌, if_lem, Option, none, some, List, [],
  ◌∷◌,
}
use protos_tpe_g.Users.{Table, users_are_configured}
use protos_tpe_g.Users.View.{password_of, Distinct}
use protos_tpe_g.Session.Defs.{
  World, Stage, greeting, auth, request, resolving, connecting, relay, closing, Job, GaiError,
  AddrInfo, server_buffer_size,
}
use protos_tpe_g.Session.Close.{close_connection, update_relay_interests}
use protos_tpe_g.Session.Env.{Env, Recv, received, end_of_stream, failed}
use protos_tpe_g.Session.Target.{target_connection_on_resolve}
use protos_tpe_g.Session.Client.{
  client_read, client_read_at, client_read_relay, client_write, target_read, read_target,
  read_relay, read_handshake, append_read, fill_c2t, fill_t2c, write_target_if, write_client_if,
  read_nothing,
}
use protos_tpe_g.Session.Calls.{
  Call, client_reads, client_writes, target_writes, target_reads, resolves, resolver_ends, call,
  run, end_job,
}
use protos_tpe_g.Session.Guard.{
  who, is_served, who-update_relay_interests, who-close_connection, who-read_nothing,
  who-client_write,
}
use protos_tpe_g.Session.Guard.Served.{Guarded, same, Guarded-resolve_at, Guarded-target_write}
use protos_tpe_g.Session.Guard.Handshake.{Guarded-handshake}

module _ (users : Table) (configured : users_are_configured users ≡ true) (d : Distinct users) where
  Guarded-read_handshake :
      (env : Env) (fd : ℕ) (r : Recv) (w : World)
      → Guarded users (who w)
      → Guarded users (who (read_handshake env fd r w))
  Guarded-read_handshake env fd (received bytes) w g =
      Guarded-handshake users configured d w.state.stage env fd (append_read bytes w) refl g
  Guarded-read_handshake env fd (failed e) w g =
      same users w (read_nothing (failed e) w) (who-read_nothing (failed e) w) g
  Guarded-read_handshake env fd end_of_stream w g =
      same users w (close_connection w) (who-close_connection w) g

  Guarded-write_target_if :
      (env : Env) (t : Option ℕ) (w : World)
      → Guarded users (who w)
      → Guarded users (who (write_target_if env t w))
  Guarded-write_target_if env none w g = g
  Guarded-write_target_if env (some fd) w g = Guarded-target_write users env fd w g

  Guarded-write_client_if :
      (env : Env) (c : Option ℕ) (w : World)
      → Guarded users (who w)
      → Guarded users (who (write_client_if env c w))
  Guarded-write_client_if env none w g = g
  Guarded-write_client_if env (some fd) w g =
      same users w (client_write env fd w) (who-client_write env fd w) g

  Guarded-read_relay :
      (env : Env) (r : Recv) (w : World)
      → Guarded users (who w)
      → Guarded users (who (read_relay env r w))
  Guarded-read_relay env (received bytes) w g =
      let u : World = fill_c2t bytes w in
      let v = update_relay_interests u in
      Guarded-write_target_if env v.state.target_fd v
        (same users u v (who-update_relay_interests u) g)
  Guarded-read_relay env (failed e) w g =
      same users w (read_nothing (failed e) w) (who-read_nothing (failed e) w) g
  Guarded-read_relay env end_of_stream w g =
      same users w (close_connection w) (who-close_connection w) g

  Guarded-read_target :
      (env : Env) (r : Recv) (w : World)
      → Guarded users (who w)
      → Guarded users (who (read_target env r w))
  Guarded-read_target env (received bytes) w g =
      let u : World = fill_t2c bytes w in
      let v = update_relay_interests u in
      Guarded-write_client_if env v.state.client_fd v
        (same users u v (who-update_relay_interests u) g)
  Guarded-read_target env (failed e) w g =
      same users w (read_nothing (failed e) w) (who-read_nothing (failed e) w) g
  Guarded-read_target env end_of_stream w g =
      same users w (close_connection w) (who-close_connection w) g

  Guarded-client_read_relay :
      (env : Env) (w : World)
      → Guarded users (who w)
      → Guarded users (who (client_read_relay env w))
  unfolding client_read_relay
  Guarded-client_read_relay env w g =
      if_lem (λ v. Guarded users (who v)) (not (w.state.c2t_len == 0))
        (λ _. same users w (update_relay_interests w) (who-update_relay_interests w) g)
        (λ _. Guarded-read_relay env (env.recv server_buffer_size) w g)

  Guarded-client_read_at :
      (s : Stage) (env : Env) (fd : ℕ) (w : World)
      → Guarded users (who w)
      → Guarded users (who (client_read_at s env fd w))
  Guarded-client_read_at relay env fd w g = Guarded-client_read_relay env w g
  Guarded-client_read_at greeting env fd w g = Guarded-read_handshake env fd _ w g
  Guarded-client_read_at auth env fd w g = Guarded-read_handshake env fd _ w g
  Guarded-client_read_at request env fd w g = Guarded-read_handshake env fd _ w g
  Guarded-client_read_at resolving env fd w g = Guarded-read_handshake env fd _ w g
  Guarded-client_read_at connecting env fd w g = Guarded-read_handshake env fd _ w g
  Guarded-client_read_at closing env fd w g = Guarded-read_handshake env fd _ w g

  Guarded-target_read :
      (env : Env) (w : World) → Guarded users (who w) → Guarded users (who (target_read env w))
  unfolding target_read
  Guarded-target_read env w g =
      if_lem (λ v. Guarded users (who v)) (not (w.state.t2c_len == 0))
        (λ _. same users w (update_relay_interests w) (who-update_relay_interests w) g)
        (λ _. Guarded-read_target env (env.recv server_buffer_size) w g)

  Guarded-end_job :
      (status : GaiError) (result : Option (List AddrInfo)) (job : Option Job) (w : World)
      → Guarded users (who w)
      → Guarded users (who (end_job status result job w))
  Guarded-end_job status result none w g = g
  Guarded-end_job status result (some job) w g = g

  -- Every call keeps the guard.
  pub Guarded-call : (c : Call) (w : World) → Guarded users (who w) → Guarded users (who (call c w))
  unfolding call client_read target_connection_on_resolve
  Guarded-call (client_reads env fd) w g = Guarded-client_read_at w.state.stage env fd w g
  Guarded-call (client_writes env fd) w g =
      same users w (client_write env fd w) (who-client_write env fd w) g
  Guarded-call (target_writes env fd) w g = Guarded-target_write users env fd w g
  Guarded-call (target_reads env) w g = Guarded-target_read env w g
  Guarded-call (resolves env fd) w g = Guarded-resolve_at users w.state.stage env fd w refl g
  Guarded-call (resolver_ends status result) w g =
      Guarded-end_job status result w.state.resolver_job w g

  Guarded-run :
      (cs : List Call) (w : World) → Guarded users (who w) → Guarded users (who (run cs w))
  unfolding run
  Guarded-run [] w g = g
  Guarded-run (c ∷ cs) w g = Guarded-run cs (call c w) (Guarded-call c w g)

true_not_false : true ≢ false
true_not_false e = cc

-- On a server with users of distinct names, whatever calls are made on a connection that starts at
-- the greeting, and whatever the system answers, a connection whose request is being read,
-- resolved, connected or relayed has a name of the table of users, which the calls do not change.
pub run-is_served :
    (cs : List Call) (w : World)
    → w.state.stage ≡ greeting
    → users_are_configured w.users ≡ true
    → Distinct w.users
    → ((run cs w).users ≡ w.users)
      × (is_served (run cs w).state.stage ≡ true
          → password_of w.users (run cs w).state.username ≢ none)
run-is_served cs w s c d =
    let start : Guarded w.users (who w) = record {
      same_users = refl;
      known = λ h. absurd (true_not_false (sym h ∙ ap is_served s));
    } in
    let end = Guarded-run w.users c d cs w start in (end.same_users, end.known)
