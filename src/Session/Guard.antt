-- ===== src/Session/Guard.antt =====
-- Who is served: the users, the name that a client has given, and the stage, over every handler.
pub mod Connecting
pub mod Served
pub mod Handshake
pub mod Runs
use protos_tpe_g.Prelude.{
  ℕ, ◌≡◌, ◌≢◌, refl, ap, ◌∙◌, Bool, true, false, not, ◌==◌, ltb, if_lem, Option, none, some, List,
}
use protos_tpe_g.Users.{Table}
use protos_tpe_g.Users.View.{password_of}
use protos_tpe_g.Session.Defs.{
  World, Stage, greeting, auth, request, resolving, connecting, relay, closing, Interest, op_read,
  set_interest,
}
use protos_tpe_g.Session.Flush.{
  Outcome, flushed, blocked, broken, unfinished, would_block, flush_all,
}
use protos_tpe_g.Session.Close.{unregister, close_connection, update_relay_interests}
use protos_tpe_g.Session.Env.{Env, Recv, received, end_of_stream, failed}
use protos_tpe_g.Session.Target.{target_write_relay, after_target_flush, sent_to_target, clear_c2t}
use protos_tpe_g.Session.Client.{
  client_write, client_write_relay, after_client_flush, after_response, response_sent,
  nothing_to_send, clear_t2c, clear_response, start_relay, sent_response, sent_to_client,
  read_nothing,
}
use protos_tpe_g.Session.Relay.{
  Wire, wire, wire-set_interest, wire-update_relay_interests, wire-unregister,
  wire-close_connection,
}

pub record Who : Type 0 where
  pub users : Table
  pub username : List ℕ
  pub stage : Stage

abbrev pub who_of : Wire → Who
who_of x = record { users = x.users; username = x.username; stage = x.stage }

abbrev pub who : World → Who
who w = record { users = w.users; username = w.state.username; stage = w.state.stage }

-- A request of the client is being served.
abbrev pub is_served : Stage → Bool
is_served request = true
is_served resolving = true
is_served connecting = true
is_served relay = true
is_served _ = false

pub who-set_interest : (fd : ℕ) (i : Interest) (w : World) → who (set_interest fd i w) ≡ who w
who-set_interest fd i w = ap who_of (wire-set_interest fd i w)

pub who-update_relay_interests : (w : World) → who (update_relay_interests w) ≡ who w
who-update_relay_interests w = ap who_of (wire-update_relay_interests w)

pub who-unregister : (w : World) (fd : ℕ) → who (unregister w fd).1 ≡ who w
who-unregister w fd = ap who_of (wire-unregister w fd)

pub who-close_connection : (w : World) → who (close_connection w) ≡ who w
who-close_connection w = ap who_of (wire-close_connection w)

pub who-read_nothing : (r : Recv) (w : World) → who (read_nothing r w) ≡ who w
who-read_nothing (failed e) w =
    if_lem (λ v. who v ≡ who w) (would_block e) (λ _. refl) (λ _. who-close_connection w)
who-read_nothing (received bytes) w = who-close_connection w
who-read_nothing end_of_stream w = who-close_connection w

who-response_sent : (s : Stage) (fd : ℕ) (w : World) → who (response_sent s fd w) ≡ who w
who-response_sent closing fd w = who-unregister w fd
who-response_sent relay fd w =
    if_lem (λ v. who v ≡ who w) w.state.relay_started (λ _. who-set_interest fd op_read w)
      (λ _. who-update_relay_interests (start_relay w))
who-response_sent greeting fd w = who-set_interest fd op_read w
who-response_sent auth fd w = who-set_interest fd op_read w
who-response_sent request fd w = who-set_interest fd op_read w
who-response_sent resolving fd w = who-set_interest fd op_read w
who-response_sent connecting fd w = who-set_interest fd op_read w

who-after_client_flush : (o : Outcome) (w : World) → who (after_client_flush o w) ≡ who w
who-after_client_flush flushed w = who-update_relay_interests (clear_t2c w)
who-after_client_flush broken w = who-close_connection w
who-after_client_flush blocked w = refl
who-after_client_flush unfinished w = refl

who-client_write_relay : (env : Env) (w : World) → who (client_write_relay env w) ≡ who w
unfolding client_write_relay
who-client_write_relay env w =
    let f =
      flush_all env.send w.state.t2c_buffer w.state.t2c_len w.state.t2c_off
        w.metrics.bytes_target_to_client in
    who-after_client_flush f.outcome (sent_to_client f w)

who-nothing_to_send :
    (s : Stage) (env : Env) (fd : ℕ) (w : World) → who (nothing_to_send s env fd w) ≡ who w
who-nothing_to_send relay env fd w = who-client_write_relay env w
who-nothing_to_send greeting env fd w = who-set_interest fd op_read w
who-nothing_to_send auth env fd w = who-set_interest fd op_read w
who-nothing_to_send request env fd w = who-set_interest fd op_read w
who-nothing_to_send resolving env fd w = who-set_interest fd op_read w
who-nothing_to_send connecting env fd w = who-set_interest fd op_read w
who-nothing_to_send closing env fd w = who-set_interest fd op_read w

who-after_response :
    (env : Env) (fd : ℕ) (o : Outcome) (w : World) → who (after_response env fd o w) ≡ who w
who-after_response env fd flushed w =
    if_lem (λ v. who v ≡ who w) (ltb 0 w.state.write_len)
      (λ _. who-response_sent w.state.stage fd (clear_response w))
      (λ _. who-nothing_to_send w.state.stage env fd w)
who-after_response env fd broken w = who-close_connection w
who-after_response env fd blocked w = refl
who-after_response env fd unfinished w = refl

-- `client_write` changes neither the stage nor the user.
pub who-client_write : (env : Env) (fd : ℕ) (w : World) → who (client_write env fd w) ≡ who w
unfolding client_write
who-client_write env fd w =
    let f = flush_all env.send w.state.write_buffer w.state.write_len w.state.write_off 0 in
    who-after_response env fd f.outcome (sent_response f w)

who-after_target_flush : (o : Outcome) (w : World) → who (after_target_flush o w) ≡ who w
who-after_target_flush flushed w = who-update_relay_interests (clear_c2t w)
who-after_target_flush broken w = who-close_connection w
who-after_target_flush blocked w = refl
who-after_target_flush unfinished w = refl

pub who-target_write_relay : (env : Env) (w : World) → who (target_write_relay env w) ≡ who w
unfolding target_write_relay
who-target_write_relay env w =
    let f =
      flush_all env.send w.state.c2t_buffer w.state.c2t_len w.state.c2t_off
        w.metrics.bytes_client_to_target in
    who-after_target_flush f.outcome (sent_to_target f w)
