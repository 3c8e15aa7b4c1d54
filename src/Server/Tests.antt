-- ===== src/Server/Tests.antt =====
-- Runs of the server up to a shutdown.
use protos_tpe_g.Prelude.{◌≡◌, inl, refl, true, none, some, [], ◌∷◌, ◌++◌, arith}
use protos_tpe_g.Selector.{Status, item_at}
use protos_tpe_g.Selector.Dispatch.{
  Loop, ready, notify_from, handle_block_notifications, selector_select,
}
use protos_tpe_g.Selector.Dispatch.Calls.{selector_select-Keeps}
use protos_tpe_g.Server.Table.{table_size}
use protos_tpe_g.Server.Serving.{Connections, server_handlers}
use protos_tpe_g.Server.Serving.Sound.{Served, Active, server_handlers-IsSound}
use protos_tpe_g.Server.Serving.Samples.{system, start, start-Served}
use protos_tpe_g.Server.{
  no_bind, no_socket, listens, passive_from, create_passive_socket, sigterm_handler, signals, Round,
  stop_listening, stop_if_requested, loop, Setup, listening, run_selector, server_run,
}
use protos_tpe_g.Server.Descriptors.{count, opened_in, server_run-closed}
use protos_tpe_g.Server.Shutdown.{total, loop-ends}

abbrev setup : Setup
setup = record {
  server_socket = some (no_socket ∷ (no_bind 3 ∷ (listens 3 ∷ [])));
  management_socket = some (listens 4 ∷ []);
  selector_init = true;
  selector_new = true;
  register_server = true;
  register_management = true;
  early = 0;
}

-- a signal in the first round, while two connections are active, which end in the second
abbrev busy : Round
busy = record { during = 1; active = 2; behind = 0 }

abbrev idle : Round
idle = record { during = 0; active = 0; behind = 0 }

run_ends : (server_run setup (busy ∷ (idle ∷ []))).status ≡ some 0
unfolding server_run create_passive_socket passive_from run_selector loop signals sigterm_handler
    stop_if_requested stop_listening
run_ends = refl

descriptors_example :
    count 3 (server_run setup (busy ∷ (idle ∷ []))).server.closed ≡ count 3 (opened_in setup)
descriptors_example = server_run-closed 3 setup (busy ∷ (idle ∷ [])) (λ e. cc (e, run_ends))

ends_example : (loop 3 4 ((busy ∷ []) ++ (idle ∷ [])) (listening 3 4 [] 0)).0 ≡ true
unfolding total
ends_example = loop-ends 3 4 [] 0 (busy ∷ []) idle [] (inl (refl, omega arith))

-- A round of the server in which everything is ready and the resolver of a client has ended.
select_example :
    (out : Status × Loop Connections) × (selector_select
        (server_handlers system)
        (ready (λ i. true) (λ i. true))
        start
      ≡ some out)
    × Served out.1
select_example =
    selector_select-Keeps (server_handlers system) Served Active table_size
      (server_handlers-IsSound system) (ready (λ i. true) (λ i. true)) start start-Served

-- A finished job of a descriptor that has become a management connection.
block_null :
    handle_block_notifications (server_handlers system) (record start { jobs = 6 ∷ [] }) ≡ none
unfolding handle_block_notifications notify_from item_at
block_null = refl
