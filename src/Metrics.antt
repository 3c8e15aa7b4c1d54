-- ===== src/Metrics.antt =====
-- src/server/metrics.c: the counters of the server, 64 bits each.
pub mod Gauge
mod Tests
use protos_tpe_g.Prelude.{ℕ, ◌+◌, ◌-◌, ◌%◌, ◌^◌, Option, none, some, if◌then◌else◌, ltb}

-- `server_metrics_t`
pub record Metrics : Type 0 where
  pub historical : ℕ
  pub concurrent : ℕ
  pub successful : ℕ
  pub failed : ℕ
  pub bytes_client_to_target : ℕ
  pub bytes_target_to_client : ℕ

-- a static variable without an initialiser
abbrev pub initial : Metrics
initial = record {
  historical = 0;
  concurrent = 0;
  successful = 0;
  failed = 0;
  bytes_client_to_target = 0;
  bytes_target_to_client = 0;
}

-- `uint64_t` addition
abbrev pub add64 : ℕ → ℕ → ℕ
add64 a b = (a + b) % 2 ^ 64

unfoldable pub connection_opened : Metrics → Metrics
connection_opened m = record m {
  historical = add64 m.historical 1;
  concurrent = add64 m.concurrent 1;
}

-- `--` runs only at a positive value.
unfoldable pub connection_closed : Metrics → Metrics
connection_closed m = if ltb 0 m.concurrent then record m { concurrent = m.concurrent - 1 } else m

unfoldable pub connection_succeeded : Metrics → Metrics
connection_succeeded m = record m { successful = add64 m.successful 1 }

unfoldable pub connection_failed : Metrics → Metrics
connection_failed m = record m { failed = add64 m.failed 1 }

unfoldable pub add_client_to_target_bytes : ℕ → Metrics → Metrics
add_client_to_target_bytes bytes m = record m {
  bytes_client_to_target = add64 m.bytes_client_to_target bytes;
}

unfoldable pub add_target_to_client_bytes : ℕ → Metrics → Metrics
add_target_to_client_bytes bytes m = record m {
  bytes_target_to_client = add64 m.bytes_target_to_client bytes;
}

-- `none` is a NULL pointer.
unfoldable pub total_transferred_bytes : Option Metrics → ℕ
total_transferred_bytes none = 0
total_transferred_bytes (some m) = add64 m.bytes_client_to_target m.bytes_target_to_client
