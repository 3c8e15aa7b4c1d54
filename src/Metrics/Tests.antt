-- ===== src/Metrics/Tests.antt =====
-- Two connections, one of them closed.
use protos_tpe_g.Prelude.{◌+◌, ◌≡◌, refl, List, [], ◌∷◌, arith}
use protos_tpe_g.Metrics.{initial}
use protos_tpe_g.Metrics.Gauge.{
  Event, opens, closes, count_events, opened, closed, count_events-gauge,
}

abbrev visits : List Event
visits = opens ∷ opens ∷ closes ∷ []

gauge_example :
    ((count_events visits initial).concurrent + closed visits ≡ initial.concurrent + opened visits)
    × ((count_events visits initial).historical ≡ initial.historical + opened visits)
gauge_example = count_events-gauge visits initial (omega arith) (omega arith) (1, refl, tt)
