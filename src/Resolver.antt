-- ===== src/Resolver.antt =====
-- src/server/target_connection.c: the job that a resolver thread and a connection share. Either may
-- be the one to free it; the steps are what each does while it holds the lock, or after it.
pub mod Once
mod Tests
use protos_tpe_g.Prelude.{
  ℕ, zero, suc, ◌+◌, Bool, true, false, if◌then◌else◌, Option, none, some, List, [], ◌∷◌,
}

-- Where the thread is, with `has_waiting_client` and `result` as its variables hold them.
pub data Phase : Type 0 where
  looking_up : Phase
  posted : Bool → Option ℕ → Phase
  ended : Bool → Option ℕ → Phase

-- The job, seen from both sides. A list of addresses is a number. `held` is whether the
-- connection's `resolver_job` points to the job, `attached` whether the job's `state` is set. The
-- rest counts calls: `free(job)`, `freeaddrinfo`, notifications, and results the connection took.
pub record Resolver : Type 0 where
  pub phase : Phase
  pub held : Bool
  pub attached : Bool
  pub done : Bool
  pub result : Option ℕ
  pub frees : ℕ
  pub released : ℕ
  pub taken : ℕ
  pub notified : ℕ

abbrev pub count : Option ℕ → ℕ
count none = 0
count (some r) = 1

-- `start_target_resolution`, when it succeeds
abbrev pub started : Resolver
started = record {
  phase = looking_up;
  held = true;
  attached = true;
  done = false;
  result = none;
  frees = 0;
  released = 0;
  taken = 0;
  notified = 0;
}

-- `resolve_target` under the lock
abbrev pub post : Option ℕ → Resolver → Resolver
post r s = record s { result = r; done = true; phase = posted s.attached r }

abbrev pub post_at : Phase → Option ℕ → Resolver → Resolver
post_at looking_up r s = post r s
post_at _ r s = s

-- `resolve_target` behind the lock
abbrev pub end_at : Phase → Resolver → Resolver
end_at (posted true r) s = record s { notified = suc s.notified; phase = ended true r }
end_at (posted false r) s = record s {
  released = s.released + count r;
  frees = suc s.frees;
  phase = ended false r;
}
end_at _ s = s

-- `target_connection_detach_resolver`
unfoldable pub detach : Resolver → Resolver
detach s =
    if s.held
    then if s.done
      then record s {
        attached = false;
        held = false;
        released = s.released + count s.result;
        result = none;
        frees = suc s.frees;
      }
      else record s { attached = false; held = false }
    else s

-- the part of `target_connection_on_resolve` that takes the result out of the job
unfoldable pub take_result : Resolver → Resolver
take_result s =
    if s.held
    then if s.done
      then record s {
        taken = s.taken + count s.result;
        result = none;
        attached = false;
        held = false;
        frees = suc s.frees;
      }
      else s
    else s

pub data Event : Type 0 where
  thread_posts : Option ℕ → Event
  thread_ends detaches takes : Event

unfoldable pub step : Event → Resolver → Resolver
step (thread_posts r) s = post_at s.phase r s
step thread_ends s = end_at s.phase s
step detaches s = detach s
step takes s = take_result s

unfoldable pub run_events : List Event → Resolver → Resolver
run_events [] s = s
run_events (e ∷ es) s = run_events es (step e s)
