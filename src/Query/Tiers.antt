-- ===== src/Query/Tiers.antt =====
-- internal/query/metrics_tiers.go: the table of metric tiers, and the choice of a tier and a step. A
-- time is a number of nanoseconds; a difference that would be negative is 0, which the tests of the
-- source take in the same way.
pub mod Choice
use Prim.Native.String.{◌++◌}
use mathlib.Core.Bool.{not, ◌&&◌}
use mathlib.Core.Option
use opa_hub.Prelude.{
  ℕ, ◌-◌, ◌*◌, ◌/◌, ◌%◌, String, Bool, true, false, Option, none, some, List, [], ◌∷◌, ◌==◌, ltb,
  leb, any, filter, ℤ, pos, nonpos, if◌then◌else◌,
}

-- `tierSpec`
pub record TierSpec : Type 0 where
  pub name : String
  pub resolution : ℕ
  pub retention : ℕ
  pub time_col : String
  pub raw : Bool

abbrev pub second : ℕ
second = 1_000_000_000

abbrev pub minute : ℕ
minute = 60 * second

abbrev pub hour : ℕ
hour = 60 * minute

abbrev pub day : ℕ
day = 24 * hour

abbrev rollup : String → ℕ → ℕ → TierSpec
rollup name resolution retention = record {
  name = name;
  resolution = resolution;
  retention = retention;
  time_col = "bucket";
  raw = false;
}

abbrev pub metric_points : TierSpec
metric_points = record {
  name = "opa.metric_points";
  resolution = 0;
  retention = 7 * day;
  time_col = "ts";
  raw = true;
}

-- the last entry of `metricTierSpecs`
abbrev pub coarsest : TierSpec
coarsest = rollup "opa.metric_1d" day (1095 * day)

-- `metricTierSpecs`
abbrev pub metric_tier_specs : List TierSpec
metric_tier_specs =
    metric_points
    ∷ rollup "opa.metric_1m" minute (30 * day)
    ∷ rollup "opa.metric_5m" (5 * minute) (90 * day)
    ∷ rollup "opa.metric_1h" hour (400 * day)
    ∷ coarsest
    ∷ []

-- `maxPoints`, or the default
abbrev pub points : ℤ → ℕ
points (pos n) = if nonpos (pos n) then 500 else n
points n = 500

abbrev pub span_of : ℕ → ℕ → ℕ
span_of from to = if leb to from then minute else to - from

-- the tiers that still hold data of this age
unfoldable pub eligible : ℕ → List TierSpec
eligible age = filter (λ t. leb age t.retention) metric_tier_specs

-- the loop that chooses among the eligible tiers
unfoldable pub choose : ℕ → TierSpec → List TierSpec → TierSpec
choose target chosen [] = chosen
choose target chosen (t ∷ rest) =
    choose target
      (if leb t.resolution target && leb chosen.resolution t.resolution then t else chosen) rest

-- the step for a chosen tier: `step.Truncate(d)` is `step - step % d`
unfoldable pub step_of : ℕ → TierSpec → ℕ
step_of target chosen =
    if ltb 0 chosen.resolution
    then (if ltb target chosen.resolution
        then chosen.resolution
        else target - target % chosen.resolution)
    else if ltb target second
    then second
    else target

-- `selectMetricTier` behind the eligible tiers
unfoldable pub select_from : ℕ → List TierSpec → TierSpec × ℕ
unfolding choose step_of
select_from target [] = (coarsest, coarsest.resolution)
select_from target (first ∷ rest) =
    let chosen = choose target first (first ∷ rest) in (chosen, step_of target chosen)

-- `selectMetricTier`
unfoldable pub select_metric_tier : ℕ → ℕ → ℕ → ℤ → TierSpec × ℕ
unfolding eligible select_from
select_metric_tier from to now max_points =
    select_from (span_of from to / points max_points) (eligible (now - from))

-- `validMetricAggregations`
abbrev pub valid_metric_aggregations : List String
valid_metric_aggregations =
    "avg" ∷ "sum" ∷ "min" ∷ "max" ∷ "last" ∷ "p50" ∷ "p90" ∷ "p95" ∷ "p99" ∷ []

-- `quantileLevel`
unfoldable pub quantile_level : String → String
quantile_level agg =
    if agg == "p90"
    then "0.9"
    else if agg == "p95"
    then "0.95"
    else if agg == "p99"
    then "0.99"
    else "0.5"

-- `quantileIndex` as a text, 0 for what is not in the map
unfoldable pub quantile_index : String → String
quantile_index agg =
    if agg == "p50"
    then "1"
    else if agg == "p90"
    then "2"
    else if agg == "p95"
    then "3"
    else if agg == "p99"
    then "4"
    else "0"

raw_expr : String → String
unfolding quantile_level
raw_expr agg =
    if agg == "avg"
    then "avg(value)"
    else if agg == "sum"
    then "sum(value)"
    else if agg == "min"
    then "min(value)"
    else if agg == "max"
    then "max(value)"
    else if agg == "last"
    then "argMax(value, ts)"
    else "quantileTDigest(" ++ quantile_level agg ++ ")(value)"

rollup_expr : String → String
unfolding quantile_index
rollup_expr agg =
    if agg == "avg"
    then "sum(sum_v) / greatest(sum(samples), 1)"
    else if agg == "sum"
    then "sum(sum_v)"
    else if agg == "min"
    then "min(min_v)"
    else if agg == "max"
    then "max(max_v)"
    else if agg == "last"
    then "argMaxMerge(last_state)"
    else "arrayElement(quantilesTDigestMerge(0.5, 0.9, 0.95, 0.99)(q_state), "
      ++ quantile_index agg
      ++ ")"

-- `valueExpr`, none on its error
unfoldable pub value_expr : TierSpec → String → Option String
unfolding raw_expr rollup_expr
value_expr t agg =
    if not (any (λ a. a == agg) valid_metric_aggregations)
    then none
    else if t.raw
    then some (raw_expr agg)
    else some (rollup_expr agg)
