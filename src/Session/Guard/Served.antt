-- ===== src/Session/Guard/Served.antt =====
-- Serving a request, and what is known of its user.
use protos_tpe_g.Prelude.{
  ℕ, ◌≡◌, ◌≢◌, refl, ap, sym, subst, ◌∙◌, true, false, not, ◌==◌, ltb, if_lem, Option, none, some,
  List,
}
use protos_tpe_g.Socks5.{
  Request, request_response, reply_success, reply_general_failure, request_reply_for,
  request_is_incomplete, parse_connect_request,
}
use protos_tpe_g.Users.{Table}
use protos_tpe_g.Users.View.{password_of}
use protos_tpe_g.Metrics.{connection_failed}
use protos_tpe_g.Session.Defs.{
  World, Stage, greeting, auth, request, resolving, connecting, relay, closing, Job, op_write,
  set_interest, set_stage, set_read_len, prepare,
}
use protos_tpe_g.Session.Env.{Env}
use protos_tpe_g.Session.Target.{
  target_write, target_write_at, target_write_relay, target_write_connecting,
  target_connection_begin, resolve_at, resolve_job, resolved, set_job,
}
use protos_tpe_g.Session.Client.{read_request, refuse_request, begin_or_refuse}
use protos_tpe_g.Session.Guard.{Who, who, is_served, who-set_interest, who-target_write_relay}
use protos_tpe_g.Session.Guard.Connecting.{
  user, user-target_connection_begin, user-resolved, user-target_write_connecting,
}

module _ (users : Table) where
  -- The users are these, and a client that is served has given a name of theirs.
  pub record Guarded (x : Who) : Type 0 where
    pub same_users : x.users ≡ users
    pub known : is_served x.stage ≡ true → password_of users x.username ≢ none

  pub same : (w v : World) → who v ≡ who w → Guarded (who w) → Guarded (who v)
  same w v e g = subst Guarded (sym e) g

  served :
      (w v : World)
      → user v ≡ user w
      → is_served w.state.stage ≡ true
      → Guarded (who w)
      → Guarded (who v)
  served w v e h g = record {
    same_users = ap (λ (p : Table × List ℕ). p.0) e ∙ g.same_users;
    known = λ _. subst (λ (p : Table × List ℕ). password_of users p.1 ≢ none) (sym e) (g.known h);
  }

  pub unserved : (v : World) → v.users ≡ users → is_served v.state.stage ≡ false → Guarded (who v)
  unserved v e h = record { same_users = e; known = λ k. absurd (cc) }

  Guarded-refuse_request :
      (fd reply : ℕ) (w : World) → Guarded (who w) → Guarded (who (refuse_request fd reply w))
  Guarded-refuse_request fd reply w g =
      let v = prepare (request_response reply) w in
      let u : World =
        set_read_len 0 (set_stage closing (record v { metrics = connection_failed v.metrics })) in
      same u (set_interest fd op_write u) (who-set_interest fd op_write u)
        (unserved u g.same_users refl)

  Guarded-begin_or_refuse :
      (env : Env) (fd : ℕ) (r : Option Request) (w : World)
      → is_served w.state.stage ≡ true
      → Guarded (who w)
      → Guarded (who (begin_or_refuse env fd r w))
  Guarded-begin_or_refuse env fd none w h g = Guarded-refuse_request fd reply_general_failure w g
  Guarded-begin_or_refuse env fd (some r) w h g =
      served w (set_read_len 0 (target_connection_begin env fd r w))
        (user-target_connection_begin env fd r w) h g

  pub Guarded-read_request :
      (env : Env) (fd : ℕ) (w : World)
      → is_served w.state.stage ≡ true
      → Guarded (who w)
      → Guarded (who (read_request env fd w))
  unfolding read_request
  Guarded-read_request env fd w h g =
      let buffer = w.state.read_buffer in
      let len = w.state.read_len in
      if_lem (λ v. Guarded (who v)) (ltb len 4) (λ _. g)
        λ _.
          if_lem (λ v. Guarded (who v)) (not (request_reply_for buffer len == reply_success))
            (λ _.
              if_lem (λ v. Guarded (who v)) (request_is_incomplete buffer len) (λ _. g)
                (λ _. Guarded-refuse_request fd (request_reply_for buffer len) w g))
            (λ _. Guarded-begin_or_refuse env fd (parse_connect_request buffer len) w h g)

  Guarded-resolve_job :
      (env : Env) (fd : ℕ) (job : Option Job) (w : World)
      → is_served w.state.stage ≡ true
      → Guarded (who w)
      → Guarded (who (resolve_job env fd job w))
  Guarded-resolve_job env fd none w h g = g
  Guarded-resolve_job env fd (some job) w h g =
      if_lem (λ v. Guarded (who v)) job.done
        (λ _.
          served w (resolved env fd job.status job.result (set_job none w))
            (user-resolved env fd job.status job.result (set_job none w)) h g)
        (λ _. g)

  pub Guarded-resolve_at :
      (s : Stage) (env : Env) (fd : ℕ) (w : World)
      → w.state.stage ≡ s
      → Guarded (who w)
      → Guarded (who (resolve_at s env fd w))
  Guarded-resolve_at resolving env fd w e g =
      Guarded-resolve_job env fd w.state.resolver_job w (ap is_served e) g
  Guarded-resolve_at greeting env fd w e g = g
  Guarded-resolve_at auth env fd w e g = g
  Guarded-resolve_at request env fd w e g = g
  Guarded-resolve_at connecting env fd w e g = g
  Guarded-resolve_at relay env fd w e g = g
  Guarded-resolve_at closing env fd w e g = g

  Guarded-target_write_at :
      (s : Stage) (env : Env) (fd : ℕ) (w : World)
      → w.state.stage ≡ s
      → Guarded (who w)
      → Guarded (who (target_write_at s env fd w))
  Guarded-target_write_at connecting env fd w e g =
      served w (target_write_connecting env fd w) (user-target_write_connecting env fd w)
        (ap is_served e) g
  Guarded-target_write_at resolving env fd w e g =
      same w (target_write_relay env w) (who-target_write_relay env w) g
  Guarded-target_write_at greeting env fd w e g =
      same w (target_write_relay env w) (who-target_write_relay env w) g
  Guarded-target_write_at auth env fd w e g =
      same w (target_write_relay env w) (who-target_write_relay env w) g
  Guarded-target_write_at request env fd w e g =
      same w (target_write_relay env w) (who-target_write_relay env w) g
  Guarded-target_write_at relay env fd w e g =
      same w (target_write_relay env w) (who-target_write_relay env w) g
  Guarded-target_write_at closing env fd w e g =
      same w (target_write_relay env w) (who-target_write_relay env w) g

  pub Guarded-target_write :
      (env : Env) (fd : ℕ) (w : World) → Guarded (who w) → Guarded (who (target_write env fd w))
  unfolding target_write
  Guarded-target_write env fd w g = Guarded-target_write_at w.state.stage env fd w refl g
