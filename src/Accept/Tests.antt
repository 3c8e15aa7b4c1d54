-- ===== src/Accept/Tests.antt =====
-- New connections of clients, of which one cannot be used.
use protos_tpe_g.Prelude.{◌≡◌, refl, true, false, none, some, List, [], ◌∷◌, replicate}
use protos_tpe_g.Metrics.{initial}
use protos_tpe_g.Session.Defs.{ClientState, eagain}
use protos_tpe_g.Selector.{Selector, ensure_capacity, next_capacity, bits}
use protos_tpe_g.Selector.Lifetime.{selector_new, selector_new-IsLarge, empty}
use protos_tpe_g.Accept.{Accepted, no_connection, connection, Acceptor, client_kind, accept_all}
use protos_tpe_g.Accept.Counting.{Balanced, accept_all-Balanced}

abbrev table : Selector
table = record empty { fds = replicate 1025 none }

table_is_new : selector_new true true 1024 ≡ some table
unfolding selector_new ensure_capacity next_capacity bits
table_is_new = refl

abbrev before : Acceptor ClientState
before = record {
  selector = table;
  live = [];
  closed = [];
  frees = 0;
  metrics = initial;
  active = 0;
}

-- The third descriptor is too large for `select`.
abbrev answers : List Accepted
answers =
    connection 5 true (some 1) true
    ∷ (connection 6 false none true
        ∷ (connection 1024 true (some 2) true ∷ (no_connection eagain ∷ [])))

accept_example :
    (out : Acceptor ClientState) × (accept_all client_kind answers before ≡ some out)
    × Balanced client_kind before answers out
accept_example =
    accept_all-Balanced client_kind answers before (selector_new-IsLarge true table table_is_new)
