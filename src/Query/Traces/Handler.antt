-- ===== src/Query/Traces/Handler.antt =====
-- The HTTP handlers of the traces: `ServeTraces` and `ServeTracesSubpath` of internal/query/traces.go.
use opa_hub.Prelude.{
  ℕ, ◌-◌, ◌^◌, ℤ, pos, negsuc, String, Bool, true, false, Option, none, some, List, [], ◌∷◌, ◌⊎◌,
  inl, inr, map, length, ◌==◌, not, ltb, if◌then◌else◌,
}
use opa_hub.Prelude.Assoc.{lookup, insert}
use opa_hub.Text.{trim_space, trim_prefix, trim_slash}
use opa_hub.Text.Split.{split_slash}
use opa_hub.Http.{Request, Response, write_error, write_json, method_not_allowed}
use opa_hub.Query.Pages.{limit_of, offset_of}
use opa_hub.Query.Sql.Parts.{joined}
use opa_hub.Query.Db.{Row, Db, done, query, refuse, with_writer}
use opa_hub.Query.Times.{TimeLib}
use opa_hub.Query.Traces.{
  Filters, sort_column, sort_order, list_parts, count_parts, logs_parts, spans_sql, full_sql,
}

pub record Trace (F : Type 0) : Type 0 where
  pub trace_id : String
  pub service : String
  pub start_ts : String
  pub created_at : String
  pub end_ts : String
  pub duration_ms : F
  pub span_count : ℕ
  pub status : String
  pub language : Option String
  pub language_version : Option String
  pub framework : Option String
  pub framework_version : Option String

-- a line of the logs, with its decoded fields
pub record Log (J : Type 0) : Type 0 where
  pub id : String
  pub trace_id : String
  pub span_id : String
  pub service : String
  pub level : String
  pub message : String
  pub timestamp : String
  pub fields : J

-- a value of a span, which is a map from texts to values
pub data Value (F : Type 0) : Type 0 where
  text : String → Value F
  float : F → Value F

abbrev pub Span : Type 0 → Type 0
Span F = List (String × Value F)

pub record Detail (F : Type 0) : Type 0 where
  pub trace_id : String
  pub spans : List (Span F)
  pub span_count : ℕ
  pub full : Bool
  pub service : String
  pub status : String
  pub duration_ms : F
  pub start_ts : String

-- the values that the handlers answer with: a list has its total, its limit and its offset
pub data Reply (F J : Type 0) : Type 0 where
  traces : List (Trace F) → ℤ → ℕ → ℕ → Reply F J
  logs : List (Log J) → ℕ → String → Reply F J
  detail : Detail F → Reply F J

-- What the handlers call outside the repository.
pub record Values (F J : Type 0) : Type 0 where
  pub zero_value : F
  -- `fmt.Sprint`
  pub sprint : F → String
  -- `a > b`
  pub above : F → F → Bool
  -- nil, and `json.Unmarshal` into any value, nil where it fails
  pub nil : J
  pub decoded : String → J

-- `int64(n)` of a uint64
unfoldable pub to_int64 : ℕ → ℤ
to_int64 n = if ltb n (2 ^ 63) then pos n else negsuc (2 ^ 64 - 1 - n)

-- `asStringPtr`
abbrev as_string_ptr : String → Option String
as_string_ptr s = if s == "" then none else some s

-- the keys of a full answer
abbrev pub payload_keys : List String
payload_keys =
    "tags" ∷ "http" ∷ "sql" ∷ "net" ∷ "cache" ∷ "redis" ∷ "stack" ∷ "dumps" ∷ "w3c_traceparent"
    ∷ "w3c_tracestate" ∷ []

module _ {F : Type 0} where
  abbrev pub trace_of : Row F → Trace F
  trace_of row = record {
    trace_id = row.text "trace_id";
    service = row.text "service";
    start_ts = row.text "start_ts";
    created_at = row.text "created_at";
    end_ts = row.text "end_ts";
    duration_ms = row.float "duration_ms";
    span_count = row.uint "span_count";
    status = row.text "status";
    language = as_string_ptr (row.text "language");
    language_version = as_string_ptr (row.text "language_version");
    framework = as_string_ptr (row.text "framework");
    framework_version = as_string_ptr (row.text "framework_version");
  }

  abbrev pub span_of : Row F → Span F
  span_of row =
      ("trace_id", text (row.text "trace_id"))
      ∷ ("span_id", text (row.text "span_id"))
      ∷ ("parent_id", text (row.text "parent_id"))
      ∷ ("service", text (row.text "service"))
      ∷ ("name", text (row.text "name"))
      ∷ ("start_ts", text (row.text "start_ts"))
      ∷ ("end_ts", text (row.text "end_ts"))
      ∷ ("duration_ms", float (row.float "duration_ms"))
      ∷ ("cpu_ms", float (row.float "cpu_ms"))
      ∷ ("status", text (row.text "status"))
      ∷ ("language", text (row.text "language"))
      ∷ ("language_version", text (row.text "language_version"))
      ∷ ("framework", text (row.text "framework"))
      ∷ ("framework_version", text (row.text "framework_version"))
      ∷ ("url_scheme", text (row.text "url_scheme"))
      ∷ ("url_host", text (row.text "url_host"))
      ∷ ("url_path", text (row.text "url_path"))
      ∷ ("organization_id", text (row.text "organization_id"))
      ∷ ("project_id", text (row.text "project_id"))
      ∷ []

  -- `asString` of a key of a span, with `fmt.Sprint` of a float64
  unfoldable pub as_string : (F → String) → Option (Value F) → String
  as_string sprint none = ""
  as_string sprint (some (text s)) = s
  as_string sprint (some (float x)) = sprint x

  -- the total of a list
  unfoldable pub total_of : ℕ → String ⊎ List (Row F) → ℤ
  unfolding to_int64
  total_of shown (inl e) = pos shown
  total_of shown (inr []) = pos shown
  total_of shown (inr (row ∷ rows)) = to_int64 (row.uint "total")

  -- `byID`
  unfoldable pub by_id : List (Row F) → List (String × Row F) → List (String × Row F)
  unfolding insert
  by_id [] known = known
  by_id (row ∷ rows) known = by_id rows (insert (row.text "span_id") row known)

  -- the loop over the keys of a payload, which writes those that are not empty into the span
  unfoldable pub written : List String → Row F → Span F → Span F
  unfolding insert
  written [] row sp = sp
  written (k ∷ ks) row sp =
      written ks row (if row.text k == "" then sp else insert k (text (row.text k)) sp)

  unfoldable pub enriched : Span F → Option (Row F) → Span F
  unfolding written
  enriched sp none = sp
  enriched sp (some row) = written payload_keys row sp

  -- the row for the span
  abbrev pub full_row : (F → String) → List (String × Row F) → Span F → Option (Row F)
  full_row sprint known sp = lookup (as_string sprint (lookup "span_id" sp)) known

  -- the spans of a full answer, and whether it is one
  unfoldable pub with_payloads :
      (F → String) → List (Span F) → String ⊎ List (Row F) → List (Span F) × Bool
  unfolding by_id enriched lookup as_string
  with_payloads sprint spans (inl e) = (spans, false)
  with_payloads sprint spans (inr []) = (spans, false)
  with_payloads sprint spans (inr (row ∷ rows)) =
      (map (λ sp. enriched sp (full_row sprint (by_id (row ∷ rows) []) sp)) spans, true)

abbrev pub filters : Request Unit → Filters
filters req = record {
  service = req.query "service";
  status = req.query "status";
  language = req.query "language";
  framework = req.query "framework";
  since = req.query "from";
  until = req.query "to";
}

abbrev pub is_second : String → List String → Bool
is_second word [] = false
is_second word (w ∷ ws) = w == word

module _ {F J T : Type 0} (v : Values F J) (m : TimeLib T) where
  abbrev limit : Request Unit → ℕ
  limit req = limit_of (req.query "limit") 50 500

  -- behind the read of the list
  unfoldable pub listed : Request Unit → String ⊎ List (Row F) → Db F (Response (Reply F J))
  unfolding total_of limit_of offset_of
  listed req (inl e) = done (write_error 500 "query_error" e)
  listed req (inr rows) = query (joined (count_parts m (filters req))) (λ r. done (
      write_json 200 (
        traces (map trace_of rows) (total_of (length rows) r) (limit req)
          (offset_of (req.query "offset")))))

  -- `ServeTraces`
  unfoldable pub serve_traces : Bool → Request Unit → Db F (Response (Reply F J))
  unfolding listed sort_column sort_order limit_of offset_of
  serve_traces writer req =
      if not (req.method == "GET")
      then done (method_not_allowed "GET required")
      else with_writer writer (
          query
            (joined (
              list_parts m (filters req) (sort_column (req.query "sort"))
                (sort_order (req.query "order")) (limit req) (offset_of (req.query "offset"))))
            (listed req))

  abbrev log_of : Row F → Log J
  log_of row = record {
    id = row.text "id";
    trace_id = row.text "trace_id";
    span_id = row.text "span_id";
    service = row.text "service";
    level = row.text "level";
    message = row.text "message";
    timestamp = row.text "timestamp";
    fields = if row.text "fields" == "" then v.nil else v.decoded (row.text "fields");
  }

  abbrev logged : String → String ⊎ List (Row F) → Response (Reply F J)
  logged trace_id (inl e) = write_error 500 "query_error" e
  logged trace_id (inr rows) = write_json 200 (logs (map log_of rows) (length rows) trace_id)

  abbrev pub log_reads : String → Request Unit → Db F (Response (Reply F J))
  log_reads trace_id req =
      query
        (joined (
          logs_parts trace_id (trim_space (req.query "span_id"))
            (limit_of (req.query "limit") 100 500)))
        (λ r. done (logged trace_id r))

  -- the greatest duration, not below zero
  longest : List (Row F) → F → F
  longest [] max = max
  longest (row ∷ rows) max =
      longest rows (if v.above (row.float "duration_ms") max then row.float "duration_ms" else max)

  abbrev detail_of : String → Row F → List (Row F) → List (Span F) × Bool → Response (Reply F J)
  detail_of trace_id row rows (spans, full) = write_json 200 (
      detail (record {
        trace_id = trace_id;
        spans = spans;
        span_count = length (row ∷ rows);
        full = full;
        service = row.text "service";
        status = row.text "status";
        duration_ms = longest (row ∷ rows) v.zero_value;
        start_ts = row.text "start_ts";
      }))

  -- behind the read of the spans
  unfoldable pub with_spans : String → Bool → String ⊎ List (Row F) → Db F (Response (Reply F J))
  unfolding with_payloads longest
  with_spans trace_id want_full (inl e) = done (write_error 500 "query_error" e)
  with_spans trace_id want_full (inr []) = done (write_error 404 "not_found" "trace not found")
  with_spans trace_id want_full (inr (row ∷ rows)) =
      let spans = map span_of (row ∷ rows) in
      if want_full
      then query (full_sql trace_id)
          (λ r. done (detail_of trace_id row rows (with_payloads v.sprint spans r)))
      else done (detail_of trace_id row rows (spans, false))

  unfoldable pub at_parts : List String → Request Unit → Db F (Response (Reply F J))
  unfolding with_spans
  at_parts [] req = refuse 400 "bad_request" "trace id required"
  at_parts (trace_id ∷ rest) req =
      if trace_id == ""
      then refuse 400 "bad_request" "trace id required"
      else if is_second "logs" rest
      then log_reads trace_id req
      else query (spans_sql trace_id) (with_spans trace_id (is_second "full" rest))

  -- `ServeTracesSubpath`
  unfoldable pub serve_traces_subpath : Bool → Request Unit → Db F (Response (Reply F J))
  unfolding at_parts split_slash trim_slash trim_prefix
  serve_traces_subpath writer req =
      if not (req.method == "GET")
      then done (method_not_allowed "GET required")
      else with_writer writer
          (at_parts (split_slash (trim_slash (trim_prefix req.path "/api/traces/"))) req)
