-- ===== src/Query/ServiceMap/Handler/Words.antt =====
-- The texts that the statements of the service map are made of, those without bounds on the time and the
-- texts of such bounds.
use opa_hub.Prelude.{String, List, [], ◌∷◌, ◌++◌}
use opa_hub.Query.Sql.Spelled.{words}
use opa_hub.Query.ServiceMap.{Thresholds}
use opa_hub.Query.ServiceMap.Statements.{
  edge_sql, service_sql, stats_sql, db_sql, http_sql, redis_sql, cache_sql, thresholds_sql,
  dated_thresholds_sql, insert_sql,
}

abbrev bound_words : List String
bound_words =
    "now() - INTERVAL 24 HOUR" ∷ "now()" ∷ "parseDateTimeBestEffort(" ∷ ")"
    ∷ " AND child.start_ts >= parseDateTimeBestEffort("
    ∷ " AND child.start_ts <= parseDateTimeBestEffort("
    ∷ " AND child.start_ts >= now() - INTERVAL 24 HOUR" ∷ []

abbrev edge_words : List String
edge_words =
    "SELECT DISTINCT child.trace_id AS trace_id, max(child.start_ts) AS created_at, max(child.duration_ms) AS duration_ms\n\t\tFROM opa.spans_min AS child\n\t\tINNER JOIN opa.spans_min AS parent ON child.parent_id = parent.span_id AND child.trace_id = parent.trace_id\n\t\tWHERE parent.service = "
    ∷ " AND child.service = " ∷ " AND child.trace_id != ''"
    ∷ " GROUP BY child.trace_id ORDER BY created_at DESC LIMIT 200" ∷ []

abbrev no_limits : Thresholds (Unit {0})
no_limits = record { degraded_error = tt; down_error = tt; degraded_lat = tt; down_lat = tt }

abbrev pub map_words : List String
map_words =
    bound_words
    ++ (edge_words
        ++ (words {F = Unit} (edge_sql [] [])
            ++ (words {F = Unit} (service_sql [] [])
                ++ (words {F = Unit} (stats_sql [] [])
                    ++ (words {F = Unit} (db_sql [] [])
                        ++ (words {F = Unit} (http_sql [] [])
                            ++ (words {F = Unit} (redis_sql [] [])
                                ++ (words {F = Unit} (cache_sql [] [])
                                    ++ (words {F = Unit} (thresholds_sql ("", ""))
                                        ++ (words {F = Unit} (dated_thresholds_sql ("", ""))
                                            ++ words {F = Unit}
                                                (insert_sql ("", "") no_limits)))))))))))
