-- ===== src/Query/Facets.antt =====
-- internal/query/explore_facets.go: the value counts of a facet. ClickHouse is the function from a SQL
-- text to the rows that the handler reads, none on an error; the condition of the tenant, which
-- open-tenant-go writes, is an argument.
pub mod Allowed
use Prim.Native.String.{◌++◌}
use mathlib.Core.Bool.{◌&&◌, ◌||◌, not}
use opa_hub.Prelude.{
  ℕ, String, Bool, true, false, Option, none, some, List, [], ◌∷◌, ◌==◌, ℤ, pos, if◌then◌else◌, ◌⊎◌,
  inl, inr,
}
use opa_hub.Text.{trim_space, lower_equals}
use opa_hub.Http.{Request, Response, write_error, write_json, method_not_allowed}
use opa_hub.Query.Numbers.{parse_int_default, clamp_int, decimal}

-- a column of a facet: the field, the signal and the expression
pub record Attr : Type 0 where
  pub field : String
  pub signal : String
  pub column : String

abbrev attr : String → String → String → Attr
attr field signal column = record { field = field; signal = signal; column = column }

-- `exploreAttr`
abbrev pub explore_attr : List Attr
explore_attr =
    attr "service" "spans" "service"
    ∷ attr "service" "logs" "service"
    ∷ attr "service" "metrics" "arrayElement(label_values, indexOf(label_names, 'service'))"
    ∷ attr "host" "spans" "hostname"
    ∷ attr "host" "logs" "host"
    ∷ attr "host" "metrics" "arrayElement(label_values, indexOf(label_names, 'host'))"
    ∷ attr "environment" "spans" "environment"
    ∷ attr "environment" "rum" "environment"
    ∷ attr "environment" "metrics" "arrayElement(label_values, indexOf(label_names, 'environment'))"
    ∷ attr "release" "spans" "release"
    ∷ attr "release" "rum" "release"
    ∷ attr "release" "metrics" "arrayElement(label_values, indexOf(label_names, 'release'))"
    ∷ attr "route" "spans" "route"
    ∷ attr "route" "rum" "route"
    ∷ attr "status" "spans" "status"
    ∷ attr "language" "spans" "language"
    ∷ attr "framework" "spans" "framework"
    ∷ attr "db_system" "spans" "db_system"
    ∷ attr "url_path" "spans" "url_path"
    ∷ attr "level" "logs" "level"
    ∷ attr "metric_name" "metrics" "metric_name"
    ∷ attr "page_url" "rum" "page_url"
    ∷ attr "session_id" "rum" "session_id"
    ∷ attr "geo_country" "rum" "geo_country"
    ∷ attr "trace_id" "spans" "trace_id"
    ∷ attr "trace_id" "logs" "trace_id"
    ∷ []

-- `parseExploreSignal`
unfoldable pub parse_explore_signal : String → Option String
unfolding trim_space lower_equals
parse_explore_signal raw =
    let s = trim_space raw in
    if lower_equals s ""
      || (lower_equals s "spans"
          || (lower_equals s "span" || (lower_equals s "traces" || lower_equals s "trace")))
    then some "spans"
    else if lower_equals s "metrics" || lower_equals s "metric"
    then some "metrics"
    else if lower_equals s "logs" || lower_equals s "log"
    then some "logs"
    else if lower_equals s "rum" || (lower_equals s "frontend" || lower_equals s "browser")
    then some "rum"
    else none

-- `exploreTable`
unfoldable pub explore_table : String → String
explore_table signal =
    if signal == "spans"
    then "opa.spans_min"
    else if signal == "metrics"
    then "opa.metric_points"
    else if signal == "logs"
    then "opa.logs"
    else if signal == "rum"
    then "opa.rum_events"
    else ""

-- `exploreTimeColumn`
unfoldable pub explore_time_column : String → String
explore_time_column signal =
    if signal == "spans"
    then "start_ts"
    else if signal == "metrics"
    then "ts"
    else if signal == "logs"
    then "timestamp"
    else if signal == "rum"
    then "occurred_at"
    else ""

-- the entry of a list for a signal and a trimmed field
unfoldable pub resolve_in : List Attr → String → String → Option Attr
unfolding lower_equals
resolve_in [] signal field = none
resolve_in (a ∷ rest) signal field =
    let later = resolve_in rest signal field in
    if lower_equals field a.field && a.signal == signal then some a else later

-- `resolveExploreAttr`; the field of the entry is the lower-case one
unfoldable pub resolve_explore_attr : String → String → Option Attr
unfolding resolve_in trim_space
resolve_explore_attr signal field = resolve_in explore_attr signal (trim_space field)

-- what the handler asks ClickHouse for
pub record Plan : Type 0 where
  pub attr : Attr
  pub hours : ℕ

-- the text of the query
unfoldable pub facet_sql : String → Plan → String
unfolding explore_table explore_time_column decimal
facet_sql tenant p =
    "SELECT "
    ++ p.attr.column
    ++ " AS value, count() AS count\n\t\tFROM "
    ++ explore_table p.attr.signal
    ++ " WHERE "
    ++ explore_time_column p.attr.signal
    ++ " >= now() - INTERVAL "
    ++ decimal p.hours
    ++ " HOUR AND "
    ++ tenant
    ++ " AND "
    ++ p.attr.column
    ++ " != ''\n\t\tGROUP BY value ORDER BY count DESC LIMIT 40"

plan_at : Option Attr → ℕ → String ⊎ Plan
plan_at none hours = inl "unknown field for signal"
plan_at (some a) hours = inr (record { attr = a; hours = hours })

plan_from : Option String → String → ℕ → String ⊎ Plan
unfolding plan_at
plan_from none field hours = inl "unknown signal"
plan_from (some signal) field hours = plan_at (resolve_explore_attr signal field) hours

-- the plan of a request, or the message of the refusal
unfoldable pub facet_plan : Request Unit → String ⊎ Plan
unfolding plan_from
facet_plan req =
    let given = trim_space (req.query "field") in
    let field = if given == "" then "service" else given in
    let hours = clamp_int (parse_int_default (req.query "hours") (pos 24)) 1 168 in
    plan_from (parse_explore_signal (req.query "signal")) field hours

-- a value with its count
pub record Facet : Type 0 where
  pub value : String
  pub count : ℕ

pub record Facets : Type 0 where
  pub signal : String
  pub field : String
  pub facets : List Facet

abbrev pub Database : Type 0
Database = String → Option (List Facet)

facets_reply : Plan → Option (List Facet) → Response Facets
facets_reply p none = write_error 500 "query_error" ""
facets_reply p (some rows) =
    write_json 200 (record { signal = p.attr.signal; field = p.attr.field; facets = rows })

facets_answer : Database → String → String ⊎ Plan → Response Facets
unfolding facets_reply
facets_answer query tenant (inl message) = write_error 400 "bad_request" message
facets_answer query tenant (inr p) = facets_reply p (query (facet_sql tenant p))

-- `ServeExploreFacets`; a nil writer is `none`, and the text of a query's error is left out
unfoldable pub serve_explore_facets : Option Database → String → Request Unit → Response Facets
unfolding facets_answer
serve_explore_facets writer tenant req =
    if not (req.method == "GET") then method_not_allowed "GET required" else elim writer [
      | none ↦ write_error 503 "clickhouse_unavailable" "ClickHouse not configured"
      | some query ↦ facets_answer query tenant (facet_plan req)
    ]
