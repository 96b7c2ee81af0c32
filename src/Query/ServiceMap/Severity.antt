-- ===== src/Query/ServiceMap/Severity.antt =====
-- The health of a node or an edge of the service map.
use opa_hub.Prelude.{ℕ, ◌≤◌, true, ◌≡◌, arith}
use opa_hub.Query.ServiceMap.{Arith, Thresholds, Health, healthy, degraded, down, calc_health}

abbrev pub severity : Health → ℕ
severity healthy = 0
severity degraded = 1
severity down = 2

module _ {F : Type 0} (a : Arith F) where
  -- Where the comparison of numbers is transitive, a greater rate of errors and a greater latency never
  -- look healthier, whatever the thresholds are.
  pub calc_health-severity :
      ((x y z : F) → a.at_least x y ≡ true → a.at_least y z ≡ true → a.at_least x z ≡ true)
      → (t : Thresholds F) (rate latency more_rate more_latency : F)
      → a.at_least more_rate rate ≡ true
      → a.at_least more_latency latency ≡ true
      → severity (calc_health a t rate latency) ≤ severity (calc_health a t more_rate more_latency)
  unfolding calc_health
  calc_health-severity trans t rate latency more_rate more_latency h k =
      let d1 = trans more_rate rate t.down_error h in
      let d2 = trans more_latency latency t.down_lat k in
      let d3 = trans more_rate rate t.degraded_error h in
      let d4 = trans more_latency latency t.degraded_lat k in ground arith
