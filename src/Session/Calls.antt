-- ===== src/Session/Calls.antt =====
-- The calls that the selector makes on a connection, and the end of its resolver thread, in any
-- order.
use protos_tpe_g.Prelude.{ℕ, true, Option, none, some, List, [], ◌∷◌}
use protos_tpe_g.Session.Defs.{World, GaiError, AddrInfo, Job}
use protos_tpe_g.Session.Env.{Env}
use protos_tpe_g.Session.Target.{target_write, target_connection_on_resolve}
use protos_tpe_g.Session.Client.{client_read, client_write, target_read}

-- Which handler is called, with what the system answers during the call; or the result with which
-- `getaddrinfo` returns in the resolver thread.
pub data Call : Type 0 where
  client_reads client_writes target_writes resolves : Env → ℕ → Call
  target_reads : Env → Call
  resolver_ends : GaiError → Option (List AddrInfo) → Call

-- what `resolve_target` leaves in the job
abbrev pub end_job : GaiError → Option (List AddrInfo) → Option Job → World → World
end_job status result none w = w
end_job status result (some job) w = record w {
  state = record w.state {
    resolver_job = some (record job { done = true; result = result; status = status });
  };
}

unfoldable pub call : Call → World → World
call (client_reads env fd) w = client_read env fd w
call (client_writes env fd) w = client_write env fd w
call (target_writes env fd) w = target_write env fd w
call (target_reads env) w = target_read env w
call (resolves env fd) w = target_connection_on_resolve env fd w
call (resolver_ends status result) w = end_job status result w.state.resolver_job w

unfoldable pub run : List Call → World → World
run [] w = w
run (c ∷ cs) w = run cs (call c w)
