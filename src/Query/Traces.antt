-- ===== src/Query/Traces.antt =====
-- The traces: internal/query/traces.go. The text of a stored value of JSON is decoded by a parameter.
pub mod Handler
pub mod Words
pub mod Texts
pub mod Payloads
pub mod Kept
use Prim.Native.String.{◌++◌}
use opa_hub.Prelude.{
  ℕ, String, Bool, true, false, Option, none, some, List, [], ◌∷◌, ◌==◌, ◌&&◌, ◌||◌, not,
  if◌then◌else◌,
}
use opa_hub.Text.{lower_equals}
use opa_hub.Query.Sql.{raw, quoted, number, tenant_and, tenant_where, Sql}
use opa_hub.Query.Sql.Parts.{joined, where_given}
use opa_hub.Query.Times.{TimeLib, time_compare_sql}

-- the columns that a list may be sorted by
unfoldable pub sort_column : String → String
sort_column sort_by =
    if sort_by == "start_ts"
    then "start_ts"
    else if sort_by == "duration_ms"
    then "duration_ms"
    else if sort_by == "service"
    then "service"
    else if sort_by == "status"
    then "status"
    else "created_at"

unfoldable pub sort_order : String → String
unfolding lower_equals
sort_order order = if lower_equals order "asc" then "asc" else "desc"

-- the parameters of a list
pub record Filters : Type 0 where
  pub service : String
  pub status : String
  pub language : String
  pub framework : String
  pub since : String
  pub until : String

module _ {F : Type 0} where
  -- the traces of a tenant that pass the filters, one row each
  abbrev pub inner_parts : {T : Type 0} → TimeLib T → Filters → List (Sql F)
  inner_parts m f =
      (raw
          "\nSELECT\n\ttrace_id,\n\tany(service) AS service,\n\tmin(start_ts) AS start_ts,\n\tmax(end_ts) AS end_ts,\n\tmax(duration_ms) AS duration_ms,\n\tcount() AS span_count,\n\tany(status) AS status,\n\tany(language) AS language,\n\tany(language_version) AS language_version,\n\tany(framework) AS framework,\n\tany(framework_version) AS framework_version,\n\tmin(created_at) AS created_at\nFROM opa.spans_min\nWHERE "
        ∷ tenant_where ""
        ∷ [])
      ∷ where_given " AND service = " f.service
      ∷ (if not (f.status == "") && not (f.status == "all")
          then raw " AND status = " ∷ quoted f.status ∷ []
          else [])
      ∷ where_given " AND language = " f.language
      ∷ where_given " AND framework = " f.framework
      ∷ time_compare_sql m "start_ts" ">=" f.since
      ∷ time_compare_sql m "start_ts" "<=" f.until
      ∷ (raw "\nGROUP BY trace_id" ∷ [])
      ∷ []

  abbrev pub list_parts :
      {T : Type 0} → TimeLib T → Filters → String → String → ℕ → ℕ → List (Sql F)
  list_parts m f column order limit offset =
      (raw "SELECT * FROM (" ∷ [])
      ∷ joined (inner_parts m f)
      ∷ (raw ") ORDER BY " ∷ [])
      ∷ (raw column ∷ [])
      ∷ (raw " " ∷ [])
      ∷ (raw order ∷ [])
      ∷ (raw " LIMIT " ∷ number limit ∷ raw " OFFSET " ∷ number offset ∷ [])
      ∷ []

  abbrev pub count_parts : {T : Type 0} → TimeLib T → Filters → List (Sql F)
  count_parts m f =
      (raw "SELECT count() AS total FROM (" ∷ []) ∷ joined (inner_parts m f) ∷ (raw ")" ∷ []) ∷ []

  -- the logs of a trace
  abbrev pub logs_parts : String → String → ℕ → List (Sql F)
  logs_parts trace_id span_id limit =
      (raw
          "SELECT id, trace_id, span_id, service, level, message, timestamp, fields\n\t\t\tFROM opa.logs\n\t\t\tWHERE trace_id = "
        ∷ quoted trace_id
        ∷ tenant_and ""
        ∷ [])
      ∷ where_given " AND span_id = " span_id
      ∷ (raw "\n\t\t\tORDER BY timestamp DESC\n\t\t\tLIMIT " ∷ number limit ∷ [])
      ∷ []

  -- the spans of a trace
  abbrev pub spans_sql : String → Sql F
  spans_sql trace_id =
      raw "\nSELECT *\nFROM opa.spans_min\nWHERE "
      ∷ tenant_where ""
      ∷ raw " AND trace_id = "
      ∷ quoted trace_id
      ∷ raw "\nORDER BY start_ts"
      ∷ []

  -- what their payloads hold
  abbrev pub full_sql : String → Sql F
  full_sql trace_id =
      raw
        "\nSELECT span_id, tags, http, sql, net, cache, redis, stack, dumps, w3c_traceparent, w3c_tracestate\nFROM opa.spans_full\nWHERE "
      ∷ tenant_where ""
      ∷ raw " AND trace_id = "
      ∷ quoted trace_id
      ∷ []
