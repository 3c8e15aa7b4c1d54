-- ===== src/Session/Client.antt =====
-- src/server/client_session.c: reading from and writing to the client; and `target_read`.
use protos_tpe_g.Prelude.{
  ℕ, ◌+◌, ◌-◌, ◌==◌, Bool, true, not, ◌&&◌, if◌then◌else◌, Option, none, some, List, ◌++◌, ltb,
  length, drop,
}
use protos_tpe_g.Socks5.{
  Request, socks5_version, method_no_auth, method_username_password, method_no_acceptable, byte_at,
  client_offers_no_auth, client_offers_username_password, greeting_response, auth_response,
  request_response, auth_success, auth_failure, reply_success, reply_general_failure,
  request_reply_for, request_is_incomplete, parse_connect_request,
}
use protos_tpe_g.Metrics.{connection_failed}
use protos_tpe_g.Auth.{auth_is_required, auth_parse_request}
use protos_tpe_g.Session.Defs.{
  World, Stage, greeting, auth, request, relay, closing, server_buffer_size, op_read, op_write,
  prepare, set_interest, set_stage, set_read_len, write_at,
}
use protos_tpe_g.Session.Flush.{Outcome, flushed, broken, Flush, flush_all, would_block}
use protos_tpe_g.Session.Close.{unregister, close_connection, update_relay_interests}
use protos_tpe_g.Session.Env.{Env, Recv, received, failed}
use protos_tpe_g.Session.Target.{target_write, target_connection_begin}

-- what the first loop of `client_write` has changed
abbrev pub sent_response : Flush → World → World
sent_response f w = record w {
  state = record w.state { write_off = f.off };
  to_client = w.to_client ++ f.out;
}

-- what its second loop has changed
abbrev pub sent_to_client : Flush → World → World
sent_to_client f w = record w {
  state = record w.state { t2c_off = f.off };
  to_client = w.to_client ++ f.out;
  metrics = record w.metrics { bytes_target_to_client = f.counter };
}

abbrev pub clear_t2c : World → World
clear_t2c w = record w { state = record w.state { t2c_len = 0; t2c_off = 0 } }

abbrev pub after_client_flush : Outcome → World → World
after_client_flush flushed w = update_relay_interests (clear_t2c w)
after_client_flush broken w = close_connection w
after_client_flush _ w = w

-- the second loop of `client_write` and what follows it
unfoldable pub client_write_relay : Env → World → World
client_write_relay env w =
    let f =
      flush_all env.send w.state.t2c_buffer w.state.t2c_len w.state.t2c_off
        w.metrics.bytes_target_to_client in
    after_client_flush f.outcome (sent_to_client f w)

abbrev pub start_relay : World → World
start_relay w = record w { state = record w.state { relay_started = true } }

abbrev pub clear_response : World → World
clear_response w = record w { state = record w.state { write_len = 0; write_off = 0 } }

-- `client_write` with a response that has been sent whole
abbrev pub response_sent : Stage → ℕ → World → World
response_sent closing fd w = (unregister w fd).1
response_sent relay fd w =
    if w.state.relay_started
    then set_interest fd op_read w
    else update_relay_interests (start_relay w)
response_sent _ fd w = set_interest fd op_read w

-- `client_write` with no response left to send
abbrev pub nothing_to_send : Stage → Env → ℕ → World → World
nothing_to_send relay env fd w = client_write_relay env w
nothing_to_send _ env fd w = set_interest fd op_read w

abbrev pub after_response : Env → ℕ → Outcome → World → World
after_response env fd flushed w =
    if ltb 0 w.state.write_len
    then response_sent w.state.stage fd (clear_response w)
    else nothing_to_send w.state.stage env fd w
after_response env fd broken w = close_connection w
after_response env fd _ w = w

-- `client_write`
unfoldable pub client_write : Env → ℕ → World → World
client_write env fd w =
    let f = flush_all env.send w.state.write_buffer w.state.write_len w.state.write_off 0 in
    after_response env fd f.outcome (sent_response f w)

-- The method that the server chooses from those that the client offers.
unfoldable pub choose_method : Bool → Bool → Bool → ℕ
choose_method accepts_username_password accepts_no_auth required =
    if accepts_username_password
    then method_username_password
    else if not required && accepts_no_auth
    then method_no_auth
    else method_no_acceptable

abbrev pub stage_of_method : ℕ → Stage
stage_of_method method =
    if method == method_username_password
    then auth
    else if method == method_no_auth
    then request
    else closing

-- the answer to a complete greeting
abbrev pub answer_greeting : ℕ → ℕ → World → World
answer_greeting fd method w =
    set_interest fd op_write
      (set_read_len 0 (set_stage (stage_of_method method) (prepare (greeting_response method) w)))

-- `client_read` at the stage of the greeting, with the bytes read
unfoldable pub read_greeting : ℕ → World → World
read_greeting fd w =
    let buffer = w.state.read_buffer in
    let nmethods = byte_at buffer 1 in
    if ltb w.state.read_len 2
    then w
    else if not (byte_at buffer 0 == socks5_version)
    then (unregister w fd).1
    else if ltb w.state.read_len (2 + nmethods)
    then w
    else answer_greeting fd
        (choose_method (client_offers_username_password (drop 2 buffer) nmethods)
          (client_offers_no_auth (drop 2 buffer) nmethods) (auth_is_required w.users))
        w

abbrev pub keep_username : Option (List ℕ) → World → World
keep_username none w = w
keep_username (some name) w = record w { state = record w.state { username = name } }

-- `client_read` at the stage of the authentication, with the bytes read
unfoldable pub read_auth : ℕ → World → World
read_auth fd w =
    let out = auth_parse_request w.users w.state.read_buffer w.state.read_len in
    if not out.complete
    then w
    else set_interest fd op_write (
        set_read_len 0 (
          set_stage (if out.authenticated then request else closing) (
            prepare (auth_response (if out.authenticated then auth_success else auth_failure))
              (keep_username out.username w))))

-- the block of `client_read` that turns a request down
abbrev pub refuse_request : ℕ → ℕ → World → World
refuse_request fd reply w =
    let v = prepare (request_response reply) w in
    set_interest fd op_write
      (set_read_len 0 (set_stage closing (record v { metrics = connection_failed v.metrics })))

abbrev pub begin_or_refuse : Env → ℕ → Option Request → World → World
begin_or_refuse env fd none w = refuse_request fd reply_general_failure w
begin_or_refuse env fd (some r) w = set_read_len 0 (target_connection_begin env fd r w)

-- `client_read` at the stage of the request, with the bytes read
unfoldable pub read_request : Env → ℕ → World → World
read_request env fd w =
    let buffer = w.state.read_buffer in
    let len = w.state.read_len in
    if ltb len 4
    then w
    else if not (request_reply_for buffer len == reply_success)
    then if request_is_incomplete buffer len
      then w
      else refuse_request fd (request_reply_for buffer len) w
    else begin_or_refuse env fd (parse_connect_request buffer len) w

-- the end of `client_read` at the stages where no bytes are expected: `errno` is an old one
abbrev pub unexpected_bytes : Env → World → World
unexpected_bytes env w = if would_block env.stale_errno then w else close_connection w

abbrev pub append_read : List ℕ → World → World
append_read bytes w = record w {
  state = record w.state {
    read_buffer = write_at w.state.read_buffer w.state.read_len bytes;
    read_len = w.state.read_len + length bytes;
  };
}

abbrev pub handshake : Stage → Env → ℕ → World → World
handshake greeting env fd w = read_greeting fd w
handshake auth env fd w = read_auth fd w
handshake request env fd w = read_request env fd w
handshake _ env fd w = unexpected_bytes env w

abbrev pub read_nothing : Recv → World → World
read_nothing (failed e) w = if would_block e then w else close_connection w
read_nothing _ w = close_connection w

abbrev pub read_handshake : Env → ℕ → Recv → World → World
read_handshake env fd (received bytes) w = handshake w.state.stage env fd (append_read bytes w)
read_handshake env fd r w = read_nothing r w

abbrev pub fill_c2t : List ℕ → World → World
fill_c2t bytes w = record w {
  state = record w.state {
    c2t_buffer = write_at w.state.c2t_buffer 0 bytes;
    c2t_len = length bytes;
    c2t_off = 0;
  };
}

abbrev pub write_target_if : Env → Option ℕ → World → World
write_target_if env none w = w
write_target_if env (some fd) w = target_write env fd w

abbrev pub read_relay : Env → Recv → World → World
read_relay env (received bytes) w =
    let v = update_relay_interests (fill_c2t bytes w) in write_target_if env v.state.target_fd v
read_relay env r w = read_nothing r w

-- `client_read` while relaying
unfoldable pub client_read_relay : Env → World → World
client_read_relay env w =
    if not (w.state.c2t_len == 0)
    then update_relay_interests w
    else read_relay env (env.recv server_buffer_size) w

abbrev pub client_read_at : Stage → Env → ℕ → World → World
client_read_at relay env fd w = client_read_relay env w
client_read_at _ env fd w =
    read_handshake env fd (env.recv (server_buffer_size - w.state.read_len)) w

-- `client_read`
unfoldable pub client_read : Env → ℕ → World → World
client_read env fd w = client_read_at w.state.stage env fd w

abbrev pub fill_t2c : List ℕ → World → World
fill_t2c bytes w = record w {
  state = record w.state {
    t2c_buffer = write_at w.state.t2c_buffer 0 bytes;
    t2c_len = length bytes;
    t2c_off = 0;
  };
}

abbrev pub write_client_if : Env → Option ℕ → World → World
write_client_if env none w = w
write_client_if env (some fd) w = client_write env fd w

abbrev pub read_target : Env → Recv → World → World
read_target env (received bytes) w =
    let v = update_relay_interests (fill_t2c bytes w) in write_client_if env v.state.client_fd v
read_target env r w = read_nothing r w

-- `target_read`
unfoldable pub target_read : Env → World → World
target_read env w =
    if not (w.state.t2c_len == 0)
    then update_relay_interests w
    else read_target env (env.recv server_buffer_size) w
