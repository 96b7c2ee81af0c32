-- ===== src/Query/ServiceMap/Statements.antt =====
-- The statements of the service map: internal/query/service_map.go and
-- internal/query/service_map_external.go. Those over a time take its two bounds.
use opa_hub.Prelude.{String, List, [], ◌∷◌, ◌==◌, if◌then◌else◌}
use opa_hub.Query.Sql.{raw, quoted, cents, tenant_and, tenant_where, Sql}
use opa_hub.Query.Sql.Parts.{joined}
use opa_hub.Query.Times.{TimeLib, service_map_time_bound, time_compare_sql}
use opa_hub.Query.ServiceMap.{Thresholds}

module _ {F : Type 0} where
  -- the edges between services
  abbrev pub edge_parts : Sql F → Sql F → List (Sql F)
  edge_parts since until =
      ((raw
            "SELECT\n\t\tparent.service as from_service,\n\t\tchild.service as to_service,\n\t\tavg(child.duration_ms) as avg_latency_ms,\n\t\tmin(child.duration_ms) as min_latency_ms,\n\t\tmax(child.duration_ms) as max_latency_ms,\n\t\tquantile(0.95)(child.duration_ms) as p95_latency_ms,\n\t\tquantile(0.99)(child.duration_ms) as p99_latency_ms,\n\t\tsum(CASE WHEN child.status = 'error' OR child.status = '0' THEN 1 ELSE 0 END) * 100.0 / greatest(count(*), 1) as error_rate,\n\t\tcount() as call_count,\n\t\tcount() / greatest(toFloat64(dateDiff('second', "
          ∷ [])
        ∷ since
        ∷ (raw ", " ∷ [])
        ∷ until
        ∷ (raw
              ")), 1.0) as throughput,\n\t\tsum(coalesce(child.bytes_sent, 0)) as bytes_sent,\n\t\tsum(coalesce(child.bytes_received, 0)) as bytes_received\n\t\tFROM opa.spans_min as child\n\t\tINNER JOIN opa.spans_min as parent ON child.parent_id = parent.span_id AND child.trace_id = parent.trace_id\n\t\tWHERE "
            ∷ tenant_where "child."
            ∷ raw " AND "
            ∷ tenant_where "parent."
            ∷ raw
                "\n\t\t\tAND child.service != parent.service\n\t\t\tAND child.service != ''\n\t\t\tAND parent.service != ''\n\t\t\tAND child.start_ts >= "
            ∷ [])
        ∷ since
        ∷ (raw " AND child.start_ts <= " ∷ [])
        ∷ until
        ∷ (raw "\n\t\tGROUP BY parent.service, child.service\n\t\tORDER BY call_count DESC" ∷ [])
        ∷ [])

  abbrev pub edge_sql : Sql F → Sql F → Sql F
  edge_sql since until = joined (edge_parts since until)

  -- the services
  abbrev pub service_parts : Sql F → Sql F → List (Sql F)
  service_parts since until =
      ((raw "SELECT DISTINCT service\n\t\tFROM opa.spans_min\n\t\tWHERE "
          ∷ tenant_where ""
          ∷ raw " AND start_ts >= "
          ∷ [])
        ∷ since
        ∷ (raw " AND start_ts <= " ∷ [])
        ∷ until
        ∷ [])

  abbrev pub service_sql : Sql F → Sql F → Sql F
  service_sql since until = joined (service_parts since until)

  -- their statistics
  abbrev pub stats_parts : Sql F → Sql F → List (Sql F)
  stats_parts since until =
      ((raw
            "SELECT\n\t\tservice,\n\t\tcount() as total_spans,\n\t\tavg(duration_ms) as avg_duration,\n\t\tmin(duration_ms) as min_duration,\n\t\tmax(duration_ms) as max_duration,\n\t\tquantile(0.95)(duration_ms) as p95_duration,\n\t\tquantile(0.99)(duration_ms) as p99_duration,\n\t\tsum(CASE WHEN status = 'error' OR status = '0' THEN 1 ELSE 0 END) * 100.0 / greatest(count(*), 1) as error_rate,\n\t\tsum(coalesce(bytes_sent, 0)) + sum(coalesce(bytes_received, 0)) as total_traffic,\n\t\tcount() / greatest(toFloat64(dateDiff('second', "
          ∷ [])
        ∷ since
        ∷ (raw ", " ∷ [])
        ∷ until
        ∷ (raw ")), 1.0) as throughput\n\t\tFROM opa.spans_min\n\t\tWHERE "
            ∷ tenant_where ""
            ∷ raw " AND start_ts >= "
            ∷ [])
        ∷ since
        ∷ (raw " AND start_ts <= " ∷ [])
        ∷ until
        ∷ (raw "\n\t\tGROUP BY service" ∷ [])
        ∷ [])

  abbrev pub stats_sql : Sql F → Sql F → Sql F
  stats_sql since until = joined (stats_parts since until)

  -- the calls in the column `sql`
  abbrev pub db_parts : Sql F → Sql F → List (Sql F)
  db_parts since until =
      ((raw
            "SELECT\n\t\tservice,\n\t\tcoalesce(nullIf(JSONExtractString(item, 'db_system'), ''), JSONExtractString(item, 'dbSystem')) AS db_system,\n\t\tJSONExtractString(item, 'db_host') AS db_host,\n\t\tJSONExtractString(item, 'db_port') AS db_port,\n\t\tcount() AS call_count,\n\t\tsum(coalesce(nullIf(JSONExtractFloat(item, 'duration_ms'), 0), JSONExtractFloat(item, 'duration') * 1000)) AS total_duration,\n\t\tsum(JSONExtractString(item, 'status') IN ('error', '0')) AS error_count\n\t\tFROM opa.spans_full\n\t\tARRAY JOIN JSONExtractArrayRaw(sql) AS item\n\t\tWHERE "
          ∷ tenant_where ""
          ∷ raw " AND sql NOT IN ('', '[]', 'null') AND start_ts >= "
          ∷ [])
        ∷ since
        ∷ (raw " AND start_ts <= " ∷ [])
        ∷ until
        ∷ (raw "\n\t\tGROUP BY service, db_system, db_host, db_port LIMIT 5000" ∷ [])
        ∷ [])

  abbrev pub db_sql : Sql F → Sql F → Sql F
  db_sql since until = joined (db_parts since until)

  -- the calls in the column `http`
  abbrev pub http_parts : Sql F → Sql F → List (Sql F)
  http_parts since until =
      ((raw
            "SELECT\n\t\tservice,\n\t\tcoalesce(nullIf(JSONExtractString(item, 'url'), ''), nullIf(JSONExtractString(item, 'URL'), ''),\n\t\t\tconcat(coalesce(nullIf(JSONExtractString(item, 'scheme'), ''), 'http'), '://', JSONExtractString(item, 'host'))) AS url,\n\t\tJSONExtractString(item, 'type') AS req_type,\n\t\tcount() AS call_count,\n\t\tsum(coalesce(nullIf(JSONExtractFloat(item, 'duration_ms'), 0), JSONExtractFloat(item, 'duration') * 1000)) AS total_duration,\n\t\tsum(JSONExtractInt(item, 'status') >= 400 OR JSONExtractString(item, 'status') IN ('error', '0')) AS error_count\n\t\tFROM opa.spans_full\n\t\tARRAY JOIN JSONExtractArrayRaw(http) AS item\n\t\tWHERE "
          ∷ tenant_where ""
          ∷ raw " AND http NOT IN ('', '[]', 'null') AND start_ts >= "
          ∷ [])
        ∷ since
        ∷ (raw " AND start_ts <= " ∷ [])
        ∷ until
        ∷ (raw "\n\t\tGROUP BY service, url, req_type LIMIT 5000" ∷ [])
        ∷ [])

  abbrev pub http_sql : Sql F → Sql F → Sql F
  http_sql since until = joined (http_parts since until)

  -- the calls in the column `redis`
  abbrev pub redis_parts : Sql F → Sql F → List (Sql F)
  redis_parts since until =
      ((raw
            "SELECT\n\t\tservice, coalesce(nullIf(JSONExtractString(item, 'host'), ''), 'redis') AS host,\n\t\tJSONExtractString(item, 'port') AS port, count() AS call_count,\n\t\tsum(coalesce(nullIf(JSONExtractFloat(item, 'duration_ms'), 0), JSONExtractFloat(item, 'duration') * 1000)) AS total_duration,\n\t\tsum(JSONExtractString(item, 'status') IN ('error', '0')) AS error_count\n\t\tFROM opa.spans_full ARRAY JOIN JSONExtractArrayRaw(redis) AS item\n\t\tWHERE "
          ∷ tenant_where ""
          ∷ raw " AND redis NOT IN ('', '[]', 'null') AND start_ts >= "
          ∷ [])
        ∷ since
        ∷ (raw " AND start_ts <= " ∷ [])
        ∷ until
        ∷ (raw "\n\t\tGROUP BY service, host, port LIMIT 2000" ∷ [])
        ∷ [])

  abbrev pub redis_sql : Sql F → Sql F → Sql F
  redis_sql since until = joined (redis_parts since until)

  -- the calls in the column `cache`
  abbrev pub cache_parts : Sql F → Sql F → List (Sql F)
  cache_parts since until =
      ((raw
            "SELECT\n\t\tservice,\n\t\tcoalesce(nullIf(JSONExtractString(item, 'system'), ''), nullIf(JSONExtractString(item, 'cache_system'), ''), 'cache') AS system,\n\t\tJSONExtractString(item, 'host') AS host, count() AS call_count,\n\t\tsum(coalesce(nullIf(JSONExtractFloat(item, 'duration_ms'), 0), JSONExtractFloat(item, 'duration') * 1000)) AS total_duration,\n\t\tsum(JSONExtractString(item, 'status') IN ('error', '0')) AS error_count\n\t\tFROM opa.spans_full ARRAY JOIN JSONExtractArrayRaw(cache) AS item\n\t\tWHERE "
          ∷ tenant_where ""
          ∷ raw " AND cache NOT IN ('', '[]', 'null') AND start_ts >= "
          ∷ [])
        ∷ since
        ∷ (raw " AND start_ts <= " ∷ [])
        ∷ until
        ∷ (raw "\n\t\tGROUP BY service, system, host LIMIT 2000" ∷ [])
        ∷ [])

  abbrev pub cache_sql : Sql F → Sql F → Sql F
  cache_sql since until = joined (cache_parts since until)

  -- the thresholds of a tenant, as the map reads them
  abbrev pub thresholds_sql : String × String → Sql F
  thresholds_sql (org, proj) =
      raw
        "SELECT degraded_error_rate, down_error_rate, degraded_latency_ms, down_latency_ms\n\t\tFROM opa.service_map_thresholds FINAL\n\t\tWHERE organization_id = "
      ∷ quoted org
      ∷ raw " AND project_id = "
      ∷ quoted proj
      ∷ raw "\n\t\tLIMIT 1"
      ∷ []

  -- as a GET reads them
  abbrev pub dated_thresholds_sql : String × String → Sql F
  dated_thresholds_sql (org, proj) =
      raw
        "SELECT degraded_error_rate, down_error_rate, degraded_latency_ms, down_latency_ms, updated_at\n\t\t\tFROM opa.service_map_thresholds FINAL\n\t\t\tWHERE organization_id = "
      ∷ quoted org
      ∷ raw " AND project_id = "
      ∷ quoted proj
      ∷ raw "\n\t\t\tLIMIT 1"
      ∷ []

  abbrev pub insert_sql : String × String → Thresholds F → Sql F
  insert_sql (org, proj) t =
      raw
        "INSERT INTO opa.service_map_thresholds\n\t\t\t(organization_id, project_id, degraded_error_rate, down_error_rate, degraded_latency_ms, down_latency_ms, updated_at)\n\t\t\tVALUES ("
      ∷ quoted org
      ∷ raw ", "
      ∷ quoted proj
      ∷ raw ", "
      ∷ cents t.degraded_error
      ∷ raw ", "
      ∷ cents t.down_error
      ∷ raw ", "
      ∷ cents t.degraded_lat
      ∷ raw ", "
      ∷ cents t.down_lat
      ∷ raw ", now64(3))"
      ∷ []

  -- the bounds of `ServeServiceMap`
  abbrev pub since_bound : {T : Type 0} → TimeLib T → String → Sql F
  since_bound m text = service_map_time_bound m text (raw "now() - INTERVAL 24 HOUR" ∷ [])

  abbrev pub until_bound : {T : Type 0} → TimeLib T → String → Sql F
  until_bound m text = service_map_time_bound m text (raw "now()" ∷ [])

  -- the traces of an edge
  abbrev pub edge_traces_parts :
      {T : Type 0} → TimeLib T → String → String → String → String → List (Sql F)
  edge_traces_parts m from_svc to_svc since until =
      (raw
          "SELECT DISTINCT child.trace_id AS trace_id, max(child.start_ts) AS created_at, max(child.duration_ms) AS duration_ms\n\t\tFROM opa.spans_min AS child\n\t\tINNER JOIN opa.spans_min AS parent ON child.parent_id = parent.span_id AND child.trace_id = parent.trace_id\n\t\tWHERE parent.service = "
        ∷ quoted from_svc
        ∷ raw " AND child.service = "
        ∷ quoted to_svc
        ∷ raw " AND child.trace_id != ''"
        ∷ tenant_and "child."
        ∷ [])
      ∷ time_compare_sql m "child.start_ts" ">=" since
      ∷ (if since == "" then raw " AND child.start_ts >= now() - INTERVAL 24 HOUR" ∷ [] else [])
      ∷ time_compare_sql m "child.start_ts" "<=" until
      ∷ (raw " GROUP BY child.trace_id ORDER BY created_at DESC LIMIT 200" ∷ [])
      ∷ []

  abbrev pub edge_traces_sql : {T : Type 0} → TimeLib T → String → String → String → String → Sql F
  edge_traces_sql m from_svc to_svc since until =
      joined (edge_traces_parts m from_svc to_svc since until)
