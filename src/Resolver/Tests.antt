-- ===== src/Resolver/Tests.antt =====
-- Concrete runs of a job.
use protos_tpe_g.Prelude.{◌≡◌, ◌≤◌, refl, true, some, List, [], ◌∷◌}
use protos_tpe_g.Resolver.{
  started, Event, thread_posts, thread_ends, detaches, takes, run_events, step, detach, take_result,
}
use protos_tpe_g.Resolver.Once.{Live, run_events-Live}

abbrev late : List Event
late = detaches ∷ thread_posts (some 3) ∷ takes ∷ thread_ends ∷ []

late_example :
    Live (run_events late started).phase (run_events late started)
    × ((run_events late started).frees ≤ 1)
    × ((run_events late started).held ≡ true → (run_events late started).frees ≡ 0)
late_example = run_events-Live late

late_frees : (run_events late started).released ≡ 1
unfolding run_events step detach take_result
late_frees = refl
