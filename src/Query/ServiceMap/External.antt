-- ===== src/Query/ServiceMap/External.antt =====
-- The calls that leave the services: `appendExternalDependencyEdges` of
-- internal/query/service_map_external.go behind its four reads. Counters are uint64.
pub mod Merge
use Prim.Native.String.{◌++◌}
use opa_hub.Prelude.{
  ℕ, ◌+◌, ◌%◌, ◌^◌, String, Bool, true, false, Option, none, some, List, [], ◌∷◌, ◌⊎◌, inl, inr,
  ◌==◌, ◌&&◌, ◌||◌, not, eqb, ltb, if◌then◌else◌,
}
use opa_hub.Prelude.Assoc.{lookup, insert}
use opa_hub.Query.Intervals.{invalid_service_name}
use opa_hub.Query.Db.{Row}
use opa_hub.Query.ServiceMap.{Arith, Thresholds, Edge, calc_health, success_of}
use opa_hub.Query.ServiceMap.Targets.{default_db_port, parse_http_target, base_url, is_own}

-- `agg`
pub record Dep (F : Type 0) : Type 0 where
  pub from : String
  pub target : String
  pub dep_type : String
  pub host : String
  pub port : String
  pub scheme : String
  pub calls : ℕ
  pub total_dur : F
  pub errors : ℕ

abbrev pub wrapped : ℕ → ℕ
wrapped n = n % 2 ^ 64

module _ {F : Type 0} where
  -- the key of a target in the map `merge`
  abbrev pub dep_key : Dep F → String
  dep_key d = d.from ++ ("->" ++ (d.target ++ ("|" ++ d.dep_type)))

  -- the guard of `add`
  abbrev pub is_refused : Dep F → Bool
  is_refused d = invalid_service_name d.from || invalid_service_name d.target || eqb d.calls 0

  -- the calls from a row of `sql`, none where the loop goes on
  unfoldable pub db_dep : Row F → Option (Dep F)
  unfolding invalid_service_name default_db_port
  db_dep row =
      let sys = row.text "db_system" in
      let host = if invalid_service_name (row.text "db_host") then "" else row.text "db_host" in
      if invalid_service_name sys
      then none
      else some (record {
        from = row.text "service";
        target = if not (host == "") then sys ++ ("://" ++ host) else "db:" ++ sys;
        dep_type = "database";
        host = host;
        port = if row.text "db_port" == "" then default_db_port sys else row.text "db_port";
        scheme = sys;
        calls = row.uint "call_count";
        total_dur = row.float "total_duration";
        errors = row.uint "error_count";
      })

  abbrev http_target : Row F → String → String × String × String → Dep F
  http_target row base (host, port, scheme) = record {
    from = row.text "service";
    target = base;
    dep_type = if row.text "req_type" == "curl" then "curl" else "http";
    host = host;
    port = port;
    scheme = scheme;
    calls = row.uint "call_count";
    total_dur = row.float "total_duration";
    errors = row.uint "error_count";
  }

  -- the calls from a row of `http`
  unfoldable pub http_dep : Row F → Option (Dep F)
  unfolding invalid_service_name is_own base_url parse_http_target
  http_dep row =
      let url = row.text "url" in
      let base = base_url url in
      if url == "" || invalid_service_name url
      then none
      else if is_own (row.text "service") url
      then none
      else if invalid_service_name base
      then none
      else some (http_target row base (parse_http_target base))

  -- the calls from a row of `redis`
  unfoldable pub redis_dep : Row F → Option (Dep F)
  unfolding invalid_service_name
  redis_dep row =
      let host = if invalid_service_name (row.text "host") then "redis" else row.text "host" in
      some (record {
        from = row.text "service";
        target = "redis://" ++ host;
        dep_type = "redis";
        host = host;
        port = if row.text "port" == "" then "6379" else row.text "port";
        scheme = "redis";
        calls = row.uint "call_count";
        total_dur = row.float "total_duration";
        errors = row.uint "error_count";
      })

  -- the calls from a row of `cache`
  unfoldable pub cache_dep : Row F → Option (Dep F)
  unfolding invalid_service_name
  cache_dep row =
      let sys = row.text "system" in
      let host = row.text "host" in
      some (record {
        from = row.text "service";
        target =
            if not (host == "") && not (invalid_service_name host)
            then "cache://" ++ host
            else "cache:" ++ sys;
        dep_type = "cache";
        host = host;
        port = "";
        scheme = sys;
        calls = row.uint "call_count";
        total_dur = row.float "total_duration";
        errors = row.uint "error_count";
      })

module _ {F : Type 0} (a : Arith F) where
  abbrev pub met : Dep F → Option (Dep F) → Dep F
  met d none = d
  met d (some cur) = record cur {
    calls = wrapped (cur.calls + d.calls);
    total_dur = a.plus cur.total_dur d.total_dur;
    errors = wrapped (cur.errors + d.errors);
  }

  -- `add`
  unfoldable pub add : Dep F → List (String × Dep F) → List (String × Dep F)
  unfolding invalid_service_name lookup insert
  add d merge =
      if is_refused d then merge else insert (dep_key d) (met d (lookup (dep_key d) merge)) merge

  abbrev pub add_some : Option (Dep F) → List (String × Dep F) → List (String × Dep F)
  add_some none merge = merge
  add_some (some d) merge = add d merge

  -- the loop over the rows of a read
  unfoldable pub add_rows :
      (Row F → Option (Dep F)) → List (Row F) → List (String × Dep F) → List (String × Dep F)
  unfolding add
  add_rows read [] merge = merge
  add_rows read (row ∷ rows) merge = add_rows read rows (add_some (read row) merge)

  -- an error of a read is passed over
  unfoldable pub gather :
      (Row F → Option (Dep F))
      → String ⊎ List (Row F)
      → List (String × Dep F)
      → List (String × Dep F)
  unfolding add_rows
  gather read (inl e) merge = merge
  gather read (inr rows) merge = add_rows read rows merge

  -- the map behind the four reads
  unfoldable pub merged :
      String ⊎ List (Row F)
      → String ⊎ List (Row F)
      → String ⊎ List (Row F)
      → String ⊎ List (Row F)
      → List (String × Dep F)
  unfolding gather db_dep http_dep redis_dep cache_dep
  merged sql http redis cache =
      gather cache_dep cache (gather redis_dep redis (gather http_dep http (gather db_dep sql [])))

  -- an average over the calls
  abbrev pub per_call : F → ℕ → F
  per_call x calls = if ltb 0 calls then a.over x (a.of_uint calls) else a.of_uint 0

  -- the edge to a target
  unfoldable pub external_edge : Thresholds F → Dep F → Edge F
  unfolding calc_health success_of
  external_edge t d =
      let avg = per_call d.total_dur d.calls in
      let rate =
        (if ltb 0 d.calls
          then a.times (a.over (a.of_uint d.errors) (a.of_uint d.calls)) (a.of_uint 100)
          else a.of_uint 0) in
      record {
        from = d.from;
        to = d.target;
        avg_latency_ms = avg;
        min_latency_ms = avg;
        max_latency_ms = avg;
        p95_latency_ms = avg;
        p99_latency_ms = avg;
        error_rate = rate;
        success_rate = success_of a rate;
        call_count = d.calls;
        throughput = a.of_uint 0;
        bytes_sent = 0;
        bytes_received = 0;
        health_status = calc_health a t rate avg;
        dependency_type = d.dep_type;
        target = some (record {
          dependency_target = d.target;
          host = d.host;
          port = d.port;
          resolved_host = "";
          scheme = d.scheme;
        });
      }
