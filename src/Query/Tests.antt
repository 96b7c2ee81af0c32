-- ===== src/Query/Tests.antt =====
-- Metric ranges and facets at concrete inputs.
use opa_hub.Prelude.{
  String, some, none, inr, if◌then◌else◌, ◌==◌, [], ◌/◌, ◌*◌, ◌≡◌, refl, arith, pos,
}
use opa_hub.Query.Intervals.{safe_interval}
use opa_hub.Query.Tiers.{day, minute, points, span_of, select_metric_tier}
use opa_hub.Query.Tiers.Choice.{IsChoice, select_metric_tier-IsChoice}
use opa_hub.Http.{Request}
use opa_hub.Query.Numbers.{clamp_int, parse_int_default}
use opa_hub.Query.Facets.{
  Plan, Database, parse_explore_signal, resolve_explore_attr, facet_plan, facet_sql,
  serve_explore_facets,
}
use opa_hub.Query.Facets.Allowed.{serve_explore_facets-IsAllowed}

-- the last 24 hours at 100 points: the five-minute tier, in steps of 10 minutes
last_day : (select_metric_tier (9 * day) (10 * day) (10 * day) (pos 100)).1 ≡ 10 * minute
unfolding select_metric_tier
last_day = refl

select_metric_tier-IsChoice_example :
    IsChoice
      (1 * day)
      (span_of (9 * day) (10 * day) / points (pos 100))
      (select_metric_tier (9 * day) (10 * day) (10 * day) (pos 100))
select_metric_tier-IsChoice_example =
    select_metric_tier-IsChoice (9 * day) (10 * day) (10 * day) (pos 100) (omega arith)

abbrev level_query : String → String
level_query k =
    if k == "signal"
    then "Log"
    else if k == "field"
    then " LEVEL "
    else if k == "hours"
    then "9999"
    else ""

abbrev level_request : Request Unit
level_request = record {
  method = "GET";
  path = "/api/explore/facets";
  header = λ k. "";
  query = level_query;
  body = none;
}

abbrev level_plan : Plan
level_plan = record {
  attr = record { field = "level"; signal = "logs"; column = "level" };
  hours = 168;
}

level_planned : facet_plan level_request ≡ inr level_plan
unfolding facet_plan parse_explore_signal resolve_explore_attr clamp_int parse_int_default
level_planned = refl

level_sql :
    facet_sql "1=1" level_plan
    ≡ "SELECT level AS value, count() AS count\n\t\tFROM opa.logs WHERE timestamp >= now() - INTERVAL 168 HOUR AND 1=1 AND level != ''\n\t\tGROUP BY value ORDER BY count DESC LIMIT 40"
unfolding facet_sql
level_sql = refl

-- two databases that know nothing of other texts
abbrev empty_database : Database
empty_database text = some []

serve_explore_facets-IsAllowed_example :
    serve_explore_facets (some empty_database) "1=1" level_request
    ≡ serve_explore_facets (some (λ text. some [])) "1=1" level_request
serve_explore_facets-IsAllowed_example =
    serve_explore_facets-IsAllowed empty_database (λ text. some []) "1=1" level_request
      (λ p a. refl)

five_minutes_token : safe_interval " 5M " ≡ "5 MINUTE"
unfolding safe_interval
five_minutes_token = refl
