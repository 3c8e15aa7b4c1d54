-- ===== src/Session/Tests.antt =====
-- A concrete connection, and runs of its handlers.
use protos_tpe_g.Prelude.{
  ℕ, ◌≡◌, refl, ◌==◌, true, if◌then◌else◌, none, some, List, [], ◌∷◌, replicate, take, length,
  length-replicate, length-take, arith,
}
use protos_tpe_g.Socks5.{unset}
use protos_tpe_g.Users.{Table, users_init_from_args}
use protos_tpe_g.Metrics.{initial}
use protos_tpe_g.Session.Defs.{
  World, ClientState, relay, no_error, server_buffer_size, op_read, client_handler, target_handler,
  Registry, eagain,
}
use protos_tpe_g.Session.Flush.{Kernel, Honest, sent, flush}
use protos_tpe_g.Session.Close.{unregister_to, unregister, close_connection}
use protos_tpe_g.Session.Env.{Env, IsHonest, Recv, received, so_error, no_socket}
use protos_tpe_g.Session.Calls.{Call, client_reads, target_writes, run}
use protos_tpe_g.Session.Sending.{Sent, flush-Sent}
use protos_tpe_g.Session.Relay.{wire}
use protos_tpe_g.Session.Relay.Carried.{IsReady, Carried}
use protos_tpe_g.Session.Relay.Runs.{up_inputs, down_inputs, run-Carried}
use protos_tpe_g.Socks5.{byte_at, method_username_password, reply_success}
use protos_tpe_g.Users.{
  users_are_configured, users_count, users_add, add_valid, find_user_index, find_free_index,
}
use protos_tpe_g.Users.View.{password_of}
use protos_tpe_g.Users.Invariant.{users_init_from_args-IsValid}
use protos_tpe_g.Auth.{auth_is_required, auth_parse_request}
use protos_tpe_g.Session.Defs.{greeting, closing, AddrInfo, af_other, gai_success}
use protos_tpe_g.Session.Target.{resolved}
use protos_tpe_g.Session.Client.{choose_method}
use protos_tpe_g.Session.Guard.{is_served}
use protos_tpe_g.Session.Guard.Runs.{run-is_served}
use protos_tpe_g.Session.Replies.{choose_method-no_users, resolved-NoInet}
use protos_tpe_g.Prelude.{◌≢◌, false}
use protos_tpe_g.Session.Teardown.Depth.{unregister_depth}
use protos_tpe_g.Session.Teardown.{IsOpen, Torn, close_connection-Torn}

-- A kernel that takes two bytes of what it is offered, at most, and one that takes all.
abbrev take_two : Kernel
take_two k bytes = sent (length (take 2 bytes))

take_two-Honest : Honest take_two
take_two-Honest k bytes n e = ground (arith, length-take 2 bytes)

abbrev three_bytes : ℕ → Recv
three_bytes room = received (take room (7 ∷ 8 ∷ 9 ∷ []))

flush_example :
    Sent (1 ∷ 2 ∷ 3 ∷ 4 ∷ 5 ∷ []) 5 1 [] 0 (flush 5 take_two (1 ∷ 2 ∷ 3 ∷ 4 ∷ 5 ∷ []) 5 1 [] 0 0)
flush_example =
    flush-Sent take_two take_two-Honest (1 ∷ 2 ∷ 3 ∷ 4 ∷ 5 ∷ []) 5 5 1 [] 0 0 (omega arith)
      (omega arith) (omega arith) (omega arith)

abbrev zeros : List ℕ
zeros = replicate server_buffer_size 0

-- Client 4 and target 5, relaying, with nothing in the buffers.
abbrev relaying : ClientState
relaying = record {
  read_buffer = zeros;
  write_buffer = zeros;
  c2t_buffer = zeros;
  t2c_buffer = zeros;
  read_len = 0;
  write_len = 0;
  write_off = 0;
  c2t_len = 0;
  c2t_off = 0;
  t2c_len = 0;
  t2c_off = 0;
  client_fd = some 4;
  target_fd = some 5;
  target_addr = unset;
  target_addresses = none;
  target_address_current = [];
  resolver_job = none;
  last_connect_error = no_error;
  username = [];
  destination_host = b'h' ∷ [];
  destination_port = 80;
  access_logged = true;
  stage = relay;
  relay_started = true;
}

abbrev both : Registry
both fd =
    if fd == 4
    then some (record { handler = client_handler; interest = op_read })
    else if fd == 5
    then some (record { handler = target_handler; interest = op_read })
    else none

abbrev world : World
world = record {
  state = relaying;
  frees = 0;
  registry = both;
  closed = [];
  metrics = initial;
  active = 1;
  users = users_init_from_args none;
  log = [];
  to_client = [];
  to_target = [];
}

abbrev env : Env
env = record {
  send = take_two;
  recv = three_bytes;
  attempts = λ k. no_socket eagain;
  so_error = so_error no_error;
  resolver_started = true;
  inet_ntop = λ addr. none;
  stale_errno = eagain;
}

env-IsHonest : IsHonest env
env-IsHonest = record {
  send_le = take_two-Honest;
  recv_le = λ room bytes e. ground (arith, length-take {A = ℕ} room (7 ∷ 8 ∷ 9 ∷ []));
}

world-IsReady : IsReady (wire world)
world-IsReady = record {
  relaying = refl;
  c2t_size = length-replicate {A = ℕ} server_buffer_size 0;
  c2t_fits = omega arith;
  c2t_sent = omega arith;
  t2c_size = length-replicate {A = ℕ} server_buffer_size 0;
  t2c_fits = omega arith;
  t2c_sent = omega arith;
  write_size = length-replicate {A = ℕ} server_buffer_size 0;
  write_fits = omega arith;
  write_sent = omega arith;
  counter_up = omega arith;
  counter_down = omega arith;
}

world-IsOpen : IsOpen world 4 (some 5)
world-IsOpen = record {
  client_open = refl;
  target_open = refl;
  interest = op_read;
  client_registered = refl;
  target_registered = (op_read, refl, ground arith);
}

abbrev calls : List Call
calls = client_reads env 4 ∷ target_writes env 5 ∷ []

run_example :
    Carried (wire world) (wire (run calls world)) (up_inputs calls world) (down_inputs calls world)
run_example = run-Carried calls world (env-IsHonest, (env-IsHonest, tt)) world-IsReady

close_example : Torn world 4 (some 5) (close_connection world)
close_example = close_connection-Torn world 4 (some 5) world-IsOpen

depth_example : unregister_to 3 world 4 ≡ unregister world 4
depth_example = unregister_depth 1 world 4

abbrev guarded_users : Table
guarded_users = users_init_from_args (some ((some (b'a' ∷ []), some (b'b' ∷ [])) ∷ []))

guarded_configured : users_are_configured guarded_users ≡ true
unfolding users_are_configured users_count users_init_from_args users_add add_valid find_user_index
    find_free_index
guarded_configured = refl

abbrev newcomer : World
newcomer = record world {
  state = record relaying { stage = greeting; target_fd = none; relay_started = false };
  users = guarded_users;
}

served_example :
    ((run calls newcomer).users ≡ guarded_users)
    × (is_served (run calls newcomer).state.stage ≡ true
        → password_of guarded_users (run calls newcomer).state.username ≢ none)
served_example =
    run-is_served calls newcomer refl guarded_configured
      (users_init_from_args-IsValid (some ((some (b'a' ∷ []), some (b'b' ∷ [])) ∷ []))).distinct

nobody : users_are_configured (users_init_from_args none) ≡ false
unfolding users_are_configured users_count users_init_from_args
nobody = refl

no_users_example :
    (choose_method true true (auth_is_required (users_init_from_args none))
      ≡ method_username_password)
    × ((auth_parse_request (users_init_from_args none) (1 ∷ 0 ∷ 0 ∷ []) 3).authenticated ≡ false)
no_users_example = choose_method-no_users (users_init_from_args none) true (1 ∷ 0 ∷ 0 ∷ []) 3 nobody

abbrev odd_address : AddrInfo
odd_address = record { family = af_other 1; addr = unset }

no_inet_example :
    ((resolved env 4 gai_success (some (odd_address ∷ [])) world).state.stage ≡ closing)
    × (byte_at (resolved env 4 gai_success (some (odd_address ∷ [])) world).state.write_buffer 1
        ≡ reply_success)
no_inet_example = resolved-NoInet env 4 (odd_address ∷ []) world (refl, tt) refl
