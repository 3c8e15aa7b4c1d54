-- ===== src/Session/Relay/Runs.antt =====
-- Any sequence of handler calls on a connection that relays.
use protos_tpe_g.Prelude.{ℕ, ◌≡◌, refl, sym, subst, Option, none, some, List, [], ◌∷◌, ◌++◌}
use protos_tpe_g.Session.Defs.{World, GaiError, AddrInfo, Job}
use protos_tpe_g.Session.Env.{IsHonest}
use protos_tpe_g.Session.Target.{resolve_at, target_connection_on_resolve}
use protos_tpe_g.Session.Calls.{
  Call, client_reads, client_writes, target_writes, target_reads, resolves, resolver_ends, call,
  run, end_job,
}
use protos_tpe_g.Session.Relay.{wire}
use protos_tpe_g.Session.Relay.Carried.{IsReady, Carried, Carried-none, Carried-trans}
use protos_tpe_g.Session.Relay.Stream.{
  client_input, target_input, Carried-client_read, Carried-target_read, Moves-client_write,
  Moves-target_write,
}

-- what one call takes from the client's socket, and from the target's
abbrev pub up_input : Call → World → List ℕ
up_input (client_reads env fd) w = client_input env w
up_input _ w = []

abbrev pub down_input : Call → World → List ℕ
down_input (target_reads env) w = target_input env w
down_input _ w = []

pub up_inputs : List Call → World → List ℕ
up_inputs [] w = []
up_inputs (c ∷ cs) w = up_input c w ++ up_inputs cs (call c w)

pub down_inputs : List Call → World → List ℕ
down_inputs [] w = []
down_inputs (c ∷ cs) w = down_input c w ++ down_inputs cs (call c w)

abbrev pub IsHonestCall : Call → Type 0
IsHonestCall (client_reads env fd) = IsHonest env
IsHonestCall (client_writes env fd) = IsHonest env
IsHonestCall (target_writes env fd) = IsHonest env
IsHonestCall (target_reads env) = IsHonest env
IsHonestCall (resolves env fd) = IsHonest env
IsHonestCall (resolver_ends status result) = Unit

abbrev pub AllHonest : List Call → Type 0
AllHonest [] = Unit
AllHonest (c ∷ cs) = IsHonestCall c × AllHonest cs

wire-end_job :
    (status : GaiError) (result : Option (List AddrInfo)) (job : Option Job) (w : World)
    → wire (end_job status result job w) ≡ wire w
wire-end_job status result none w = refl
wire-end_job status result (some job) w = refl

call-Carried :
    (c : Call) (w : World)
    → IsHonestCall c
    → IsReady (wire w)
    → Carried (wire w) (wire (call c w)) (up_input c w) (down_input c w)
unfolding call target_connection_on_resolve
call-Carried (client_reads env fd) w h r = Carried-client_read env h fd w r
call-Carried (client_writes env fd) w h r = Moves-client_write env h fd w r
call-Carried (target_writes env fd) w h r = Moves-target_write env h fd w r
call-Carried (target_reads env) w h r = Carried-target_read env h w r
call-Carried (resolves env fd) w h r =
    subst (λ s. Carried (wire w) (wire (resolve_at s env fd w)) [] []) (sym r.relaying)
      (Carried-none (wire w) r)
call-Carried (resolver_ends status result) w h r =
    subst (λ x. Carried (wire w) x [] []) (sym (wire-end_job status result w.state.resolver_job w))
      (Carried-none (wire w) r)

-- From any relaying connection with consistent buffers, any sequence of handler calls, with a
-- system that answers as documented, keeps the buffers consistent; what has gone to the target
-- followed by what waits for it grows exactly by the bytes read from the client, in order, and
-- likewise towards the client; and each byte counter grows by the bytes sent on its side.
pub run-Carried :
    (cs : List Call) (w : World)
    → AllHonest cs
    → IsReady (wire w)
    → Carried (wire w) (wire (run cs w)) (up_inputs cs w) (down_inputs cs w)
unfolding run up_inputs down_inputs
run-Carried [] w h r = Carried-none (wire w) r
run-Carried (c ∷ cs) w h r =
    let first = call-Carried c w h.0 r in
    Carried-trans first (run-Carried cs (call c w) h.1 first.ready)
