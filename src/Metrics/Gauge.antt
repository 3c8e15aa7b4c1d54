-- ===== src/Metrics/Gauge.antt =====
-- The gauge of open connections, over the openings and closings that the server counts.
use protos_tpe_g.Prelude.{ℕ, suc, ◌+◌, ◌≤◌, ◌<◌, ◌≡◌, ◌^◌, arith, sym, subst, List, [], ◌∷◌}
use protos_tpe_g.Metrics.{Metrics, connection_opened, connection_closed}

pub data Event : Type 0 where
  opens closes : Event

unfoldable pub count_event : Event → Metrics → Metrics
unfolding connection_opened connection_closed
count_event opens m = connection_opened m
count_event closes m = connection_closed m

unfoldable pub count_events : List Event → Metrics → Metrics
unfolding count_event
count_events [] m = m
count_events (e ∷ es) m = count_events es (count_event e m)

abbrev pub opened : List Event → ℕ
opened [] = 0
opened (opens ∷ es) = suc (opened es)
opened (closes ∷ es) = opened es

abbrev pub closed : List Event → ℕ
closed [] = 0
closed (opens ∷ es) = closed es
closed (closes ∷ es) = suc (closed es)

-- With `n` connections open, none is closed that is not open.
abbrev pub Balanced : ℕ → List Event → Type 0
Balanced n [] = Unit
Balanced n (opens ∷ es) = Balanced (suc n) es
Balanced n (closes ∷ es) = (m : ℕ) × (n ≡ suc m) × Balanced m es

opened_once :
    (m : Metrics)
    → m.concurrent ≤ m.historical
    → m.historical + 1 < 2 ^ 64
    → ((connection_opened m).concurrent ≡ suc m.concurrent)
      × ((connection_opened m).historical ≡ suc m.historical)
unfolding connection_opened
opened_once m le h = (omega arith, omega arith)

closed_once :
    (m : Metrics) (n : ℕ)
    → m.concurrent ≡ suc n
    → ((connection_closed m).concurrent ≡ n) × ((connection_closed m).historical ≡ m.historical)
unfolding connection_closed
closed_once m n e = ground arith

-- Over any sequence of openings and closings that closes open connections only, and that opens
-- fewer than 2^64 in all, the gauge grows by the openings less the closings, and the count of
-- connections by the openings.
pub count_events-gauge :
    (es : List Event) (m : Metrics)
    → m.concurrent ≤ m.historical
    → m.historical + opened es < 2 ^ 64
    → Balanced m.concurrent es
    → ((count_events es m).concurrent + closed es ≡ m.concurrent + opened es)
      × ((count_events es m).historical ≡ m.historical + opened es)
unfolding count_events
count_events-gauge [] m le h b = (omega arith, omega arith)
count_events-gauge (opens ∷ es) m le h b =
    let o = opened_once m le (omega arith) in
    let rest =
      count_events-gauge es (connection_opened m) (omega (arith, o.0, o.1)) (omega (arith, o.1))
        (subst (λ c. Balanced c es) (sym o.0) b) in
    (omega (arith, rest.0, o.0), omega (arith, rest.1, o.1))
count_events-gauge (closes ∷ es) m le h (n, e, b) =
    let c = closed_once m n e in
    let rest =
      count_events-gauge es (connection_closed m) (omega (arith, c.0, c.1)) (omega (arith, c.1))
        (subst (λ k. Balanced k es) (sym c.0) b) in
    (omega (arith, rest.0, c.0), omega (arith, rest.1, c.1))
