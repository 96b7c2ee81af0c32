-- ===== src/Query/ServiceMap/Handler.antt =====
-- The handlers of the service map: `ServeServiceMap`, `ServeServiceMapThresholds` and
-- `ServeServiceMapEdgeTraces` of internal/query/service_map.go. The text of a decoding error is left out.
pub mod Words
pub mod Texts
pub mod Answers
use opa_hub.Prelude.{
  String, Bool, true, false, Option, none, some, List, [], ◌∷◌, ◌⊎◌, inl, inr, map, ◌==◌, ◌||◌, not,
  if◌then◌else◌,
}
use opa_hub.Http.{Request, Response, write_error, write_json, method_not_allowed}
use opa_hub.Query.Sql.{ScopeLib, Sql}
use opa_hub.Query.Db.{Row, Db, done, query, exec, ◌>>=◌, refuse, with_writer}
use opa_hub.Query.Times.{TimeLib}
use opa_hub.Query.ServiceMap.{Arith, Thresholds, default_thresholds, thresholds_of}
use opa_hub.Query.ServiceMap.External.{Dep, merged}
use opa_hub.Query.ServiceMap.Graph.{Graph, graph_of}
use opa_hub.Query.ServiceMap.Statements.{
  edge_sql, service_sql, stats_sql, db_sql, http_sql, redis_sql, cache_sql, thresholds_sql,
  dated_thresholds_sql, insert_sql, since_bound, until_bound, edge_traces_sql,
}

-- A value of a decoded JSON object, with `fmt.Sscanf(s, "%f", …)` of a text: zero where it fails.
pub data Json (F : Type 0) : Type 0 where
  null : Json F
  float : F → Json F
  text : F → Json F
  other : Json F

-- a decoded body: its keys with their values
abbrev pub Body : Type 0 → Type 0
Body F = String → Option (Json F)

pub record TraceTime (F : Type 0) : Type 0 where
  pub trace_id : String
  pub created_at : String
  pub duration_ms : F

-- the values that the handlers answer with
pub data Reply (F : Type 0) : Type 0 where
  service_map : Graph F → Reply F
  stored : Row F → Reply F
  thresholds : Thresholds F → Reply F
  saved : Thresholds F → Reply F
  edge_traces : String → String → List (TraceTime F) → Reply F

module _ {F T : Type 0} (a : Arith F) (nonzero : F → Bool) (m : TimeLib T) (l : ScopeLib F) where
  -- `floatOr`
  float_in : Option (Json F) → F → F
  float_in none def = def
  float_in (some null) def = def
  float_in (some other) def = def
  float_in (some (float x)) def = x
  float_in (some (text x)) def = if nonzero x then x else def

  abbrev pub Answer : Type 0
  Answer = Response (Reply F)

  -- `loadMapThresholds`
  unfoldable pub load_map_thresholds : Db F (Thresholds F)
  unfolding thresholds_of
  load_map_thresholds = query (thresholds_sql l.write_tenant) (λ r. done (thresholds_of a r))

  -- the reads of `appendExternalDependencyEdges`
  unfoldable pub external_reads : Sql F → Sql F → Db F (List (String × Dep F))
  unfolding merged
  external_reads since until = query (db_sql since until) (λ sql.
      query (http_sql since until) (λ http.
        query (redis_sql since until)
          (λ redis. query (cache_sql since until) (λ cache. done (merged a sql http redis cache)))))

  -- behind the read of the edges
  unfoldable pub with_edges :
      Sql F → Sql F → Thresholds F → String ⊎ List (Row F) → Db F (Response (Reply F))
  unfolding external_reads graph_of
  with_edges since until t (inl e) = done (write_error 500 "query_error" e)
  with_edges since until t (inr rows) = external_reads since until >>= (λ merge.
      query (service_sql since until) (λ services.
        query (stats_sql since until)
          (λ stats. done (write_json 200 (service_map (graph_of a t rows merge services stats))))))

  abbrev pub map_reads : Sql F → Sql F → Db F (Response (Reply F))
  map_reads since until =
      load_map_thresholds >>= (λ t. query (edge_sql since until) (with_edges since until t))

  -- `ServeServiceMap`
  unfoldable pub serve_service_map : Bool → Request Unit → Db F (Response (Reply F))
  unfolding load_map_thresholds with_edges
  serve_service_map writer req =
      if not (req.method == "GET")
      then done (method_not_allowed "GET required")
      else with_writer writer
          (map_reads (since_bound m (req.query "from")) (until_bound m (req.query "to")))

  abbrev shown : String ⊎ List (Row F) → Response (Reply F)
  shown (inl e) = write_error 500 "query_error" e
  shown (inr []) = write_json 200 (thresholds (default_thresholds a))
  shown (inr (row ∷ rows)) = write_json 200 (stored row)

  abbrev told : Thresholds F → Option String → Response (Reply F)
  told t none = write_json 200 (saved t)
  told t (some e) = write_error 500 "query_error" e

  -- the thresholds of a body
  unfoldable pub thresholds_in : Body F → Thresholds F
  unfolding float_in
  thresholds_in body =
      let d = default_thresholds a in
      record {
        degraded_error = float_in (body "degraded_error_rate") d.degraded_error;
        down_error = float_in (body "down_error_rate") d.down_error;
        degraded_lat = float_in (body "degraded_latency_ms") d.degraded_lat;
        down_lat = float_in (body "down_latency_ms") d.down_lat;
      }

  unfoldable pub thresholds_written : Option (Body F) → Db F (Response (Reply F))
  unfolding thresholds_in
  thresholds_written none = refuse 400 "bad_request" ""
  thresholds_written (some body) =
      exec (insert_sql l.write_tenant (thresholds_in body))
        (λ r. done (told (thresholds_in body) r))

  -- `ServeServiceMapThresholds`
  unfoldable pub serve_service_map_thresholds : Bool → Request (Body F) → Db F (Response (Reply F))
  unfolding thresholds_written
  serve_service_map_thresholds writer req = with_writer writer (
      if req.method == "GET"
      then query (dated_thresholds_sql l.write_tenant) (λ r. done (shown r))
      else if req.method == "POST" || req.method == "PUT"
      then thresholds_written req.body
      else done (method_not_allowed "GET or POST required"))

  abbrev trace_time : Row F → TraceTime F
  trace_time row = record {
    trace_id = row.text "trace_id";
    created_at = row.text "created_at";
    duration_ms = row.float "duration_ms";
  }

  abbrev traced : String → String → String ⊎ List (Row F) → Response (Reply F)
  traced from_svc to_svc (inl e) = write_error 500 "query_error" e
  traced from_svc to_svc (inr rows) =
      write_json 200 (edge_traces from_svc to_svc (map trace_time rows))

  -- `ServeServiceMapEdgeTraces`
  unfoldable pub serve_service_map_edge_traces : Bool → Request Unit → Db F (Response (Reply F))
  serve_service_map_edge_traces writer req =
      let from_svc = req.query "from_service" in
      let to_svc = req.query "to_service" in
      if not (req.method == "GET")
      then done (method_not_allowed "GET required")
      else with_writer writer (
          if from_svc == "" || to_svc == ""
          then refuse 400 "bad_request" "from_service and to_service are required"
          else query (edge_traces_sql m from_svc to_svc (req.query "from") (req.query "to"))
              (λ r. done (traced from_svc to_svc r)))
