-- ===== src/Query/Traces/Words.antt =====
-- The texts that the statements of the traces are made of: those of the statements for an empty id and
-- without conditions, the conditions, the columns and the orders that a list may be sorted by.
use opa_hub.Prelude.{String, List, [], ◌∷◌, ◌++◌}
use opa_hub.Query.Sql.Spelled.{words}
use opa_hub.Query.Traces.{spans_sql, full_sql}

abbrev list_words : List String
list_words =
    "created_at" ∷ "start_ts" ∷ "duration_ms" ∷ "service" ∷ "status" ∷ "asc" ∷ "desc"
    ∷ "\nSELECT\n\ttrace_id,\n\tany(service) AS service,\n\tmin(start_ts) AS start_ts,\n\tmax(end_ts) AS end_ts,\n\tmax(duration_ms) AS duration_ms,\n\tcount() AS span_count,\n\tany(status) AS status,\n\tany(language) AS language,\n\tany(language_version) AS language_version,\n\tany(framework) AS framework,\n\tany(framework_version) AS framework_version,\n\tmin(created_at) AS created_at\nFROM opa.spans_min\nWHERE "
    ∷ " AND status = " ∷ "\nGROUP BY trace_id" ∷ "SELECT * FROM (" ∷ ") ORDER BY " ∷ " " ∷ " LIMIT "
    ∷ " OFFSET " ∷ "SELECT count() AS total FROM (" ∷ ")"
    ∷ "SELECT id, trace_id, span_id, service, level, message, timestamp, fields\n\t\t\tFROM opa.logs\n\t\t\tWHERE trace_id = "
    ∷ "\n\t\t\tORDER BY timestamp DESC\n\t\t\tLIMIT " ∷ " AND service = " ∷ " AND language = "
    ∷ " AND framework = " ∷ " AND span_id = " ∷ " AND start_ts >= parseDateTimeBestEffort("
    ∷ " AND start_ts <= parseDateTimeBestEffort(" ∷ []

abbrev pub trace_words : List String
trace_words = list_words ++ (words {F = Unit} (spans_sql "") ++ words {F = Unit} (full_sql ""))
