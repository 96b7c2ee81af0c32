-- ===== src/Query/ServiceMap.antt =====
-- The map of the services and of what they call: internal/query/service_map.go and
-- internal/query/service_map_external.go. Floating-point arithmetic is a parameter.
pub mod Severity
pub mod Targets
pub mod External
pub mod Graph
pub mod Statements
pub mod Handler
use opa_hub.Prelude.{
  ℕ, String, Bool, true, false, Option, none, some, List, [], ◌∷◌, ◌⊎◌, inl, inr, ◌||◌,
  if◌then◌else◌,
}
use opa_hub.Query.Db.{Row}

-- The arithmetic of `float64`.
pub record Arith (F : Type 0) : Type 0 where
  -- `float64(n)`, and the literals of the code
  pub of_uint : ℕ → F
  pub plus : F → F → F
  pub minus : F → F → F
  pub times : F → F → F
  pub over : F → F → F
  -- `a >= b` and `a > b`
  pub at_least : F → F → Bool
  pub above : F → F → Bool

pub data Health : Type 0 where
  healthy : Health
  degraded : Health
  down : Health

pub record Thresholds (F : Type 0) : Type 0 where
  pub degraded_error : F
  pub down_error : F
  pub degraded_lat : F
  pub down_lat : F

-- What an edge to a target outside of the services has besides.
pub record Target : Type 0 where
  pub dependency_target : String
  pub host : String
  pub port : String
  pub resolved_host : String
  pub scheme : String

pub record Edge (F : Type 0) : Type 0 where
  pub from : String
  pub to : String
  pub avg_latency_ms : F
  pub min_latency_ms : F
  pub max_latency_ms : F
  pub p95_latency_ms : F
  pub p99_latency_ms : F
  pub error_rate : F
  pub success_rate : F
  pub call_count : ℕ
  pub throughput : F
  pub bytes_sent : ℕ
  pub bytes_received : ℕ
  pub health_status : Health
  pub dependency_type : String
  pub target : Option Target

module _ {F : Type 0} (a : Arith F) where
  -- `calcHealth`
  unfoldable pub calc_health : Thresholds F → F → F → Health
  calc_health t error_rate avg_latency =
      if a.at_least error_rate t.down_error || a.at_least avg_latency t.down_lat
      then down
      else if a.at_least error_rate t.degraded_error || a.at_least avg_latency t.degraded_lat
      then degraded
      else healthy

  abbrev pub default_thresholds : Thresholds F
  default_thresholds = record {
    degraded_error = a.of_uint 10;
    down_error = a.of_uint 50;
    degraded_lat = a.of_uint 1000;
    down_lat = a.of_uint 5000;
  }

  abbrev positive_or : F → F → F
  positive_or v def = if a.above v (a.of_uint 0) then v else def

  -- what `loadMapThresholds` makes of the answer
  unfoldable pub thresholds_of : String ⊎ List (Row F) → Thresholds F
  thresholds_of (inl e) = default_thresholds
  thresholds_of (inr []) = default_thresholds
  thresholds_of (inr (row ∷ rows)) = record {
    degraded_error =
        positive_or (row.float "degraded_error_rate") default_thresholds.degraded_error;
    down_error = positive_or (row.float "down_error_rate") default_thresholds.down_error;
    degraded_lat = positive_or (row.float "degraded_latency_ms") default_thresholds.degraded_lat;
    down_lat = positive_or (row.float "down_latency_ms") default_thresholds.down_lat;
  }

  -- a hundred less the rate of the errors, and not below zero
  unfoldable pub success_of : F → F
  success_of error_rate =
      let rate = a.minus (a.of_uint 100) error_rate in
      if a.above (a.of_uint 0) rate then a.of_uint 0 else rate
