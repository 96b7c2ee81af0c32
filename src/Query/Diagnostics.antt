-- ===== src/Query/Diagnostics.antt =====
-- The diagnostics of the dashboard: internal/query/diagnostics.go. SHA-1, the clock with its formats, the
-- JSON of stored values, floating-point arithmetic and `sort.Slice` are parameters.
pub mod Schema
pub mod Suspects
pub mod Placed
pub mod Handler
use Prim.Native.String.{◌++◌, slice}
use opa_hub.Prelude.{ℕ, String, Bool, Option, none, some, List, [], ◌∷◌, ◌==◌, if◌then◌else◌}
use opa_hub.Text.{trim_space}
use opa_hub.Http.{Request}
use opa_hub.Query.Sql.{raw, quoted, tenant_and, Sql}

-- The body of a release marker; `commits` is its raw JSON, "" where it is absent.
pub record Release : Type 0 where
  pub service : String
  pub release : String
  pub git_sha : String
  pub git_repo : String
  pub author : String
  pub message : String
  pub commits : String
  pub deployed_at : String

-- What the handlers call outside the repository.
pub record Outside : Type 0 where
  -- the hexadecimal SHA-1 of texts with zero bytes between them
  pub sha1_hex : List String → String
  -- the time of the call, and `time.Parse(time.RFC3339, s)`, both as `Format` prints them
  pub now_text : String
  pub parse_rfc3339 : String → Option String

-- `diagID`
unfoldable pub diag_id : Outside → String → List String → String
diag_id o prefix parts = prefix ++ ("-" ++ slice (o.sha1_hex (prefix ∷ parts)) 0 16)

abbrev pub parsed_or : String → Option String → String
parsed_or now none = now
parsed_or now (some t) = t

-- the time of a release
abbrev pub deployed : Outside → String → String
deployed o s = if s == "" then o.now_text else parsed_or o.now_text (o.parse_rfc3339 s)

module _ {F : Type 0} where
  -- a condition on the service, where one is given
  abbrev pub with_service : String → Sql F → Sql F
  with_service svc rest = if svc == "" then rest else raw " AND service = " ∷ quoted svc ∷ rest

  abbrev pub release_sql : Outside → String × String → Release → Sql F
  release_sql o (org, proj) b =
      raw
        "INSERT INTO opa.release_markers\n\t\t\t(id, organization_id, project_id, service, release, git_sha, git_repo, author, message, commits_json, deployed_at)\n\t\t\tVALUES ("
      ∷ quoted (diag_id o "rel" (org ∷ b.service ∷ b.release ∷ []))
      ∷ raw ","
      ∷ quoted org
      ∷ raw ","
      ∷ quoted proj
      ∷ raw ","
      ∷ quoted b.service
      ∷ raw ","
      ∷ quoted b.release
      ∷ raw ","
      ∷ quoted b.git_sha
      ∷ raw ","
      ∷ quoted b.git_repo
      ∷ raw ","
      ∷ quoted b.author
      ∷ raw ","
      ∷ quoted b.message
      ∷ raw ","
      ∷ quoted (if b.commits == "" then "[]" else b.commits)
      ∷ raw ", toDateTime64("
      ∷ quoted (deployed o b.deployed_at)
      ∷ raw ", 3))"
      ∷ []

  abbrev pub releases_sql : String → Sql F
  releases_sql svc =
      raw
        "\n\t\t\tSELECT id, service, release, git_sha, git_repo, author, message, deployed_at\n\t\t\tFROM opa.release_markers FINAL WHERE 1=1"
      ∷ tenant_and ""
      ∷ with_service svc (raw "\n\t\t\tORDER BY deployed_at DESC LIMIT 100" ∷ [])

  abbrev pub snapshot_sql : String → Sql F
  snapshot_sql id =
      raw
        "\n\t\t\tSELECT id, service, host, runtime, total_bytes, dominators_json, retained_json, captured_at\n\t\t\tFROM opa.heap_snapshots WHERE id = "
      ∷ quoted id
      ∷ raw " LIMIT 1"
      ∷ []

  abbrev pub snapshots_sql : String → Sql F
  snapshots_sql svc =
      raw
        "\n\t\tSELECT id, service, host, runtime, total_bytes, captured_at\n\t\tFROM opa.heap_snapshots WHERE captured_at >= now() - INTERVAL 7 DAY"
      ∷ tenant_and ""
      ∷ with_service svc (raw "\n\t\tORDER BY captured_at DESC LIMIT 100" ∷ [])

  abbrev pub threads_sql : String → Sql F
  threads_sql svc =
      raw
        "\n\t\tSELECT service, thread_name, state, lock_name, count() AS samples, avg(wait_ms) AS avg_wait_ms, max(sampled_at) AS last_seen\n\t\tFROM opa.thread_samples\n\t\tWHERE sampled_at >= now() - INTERVAL 6 HOUR"
      ∷ tenant_and ""
      ∷ with_service svc (
          raw
            "\n\t\tGROUP BY service, thread_name, state, lock_name\n\t\tORDER BY samples DESC LIMIT 200"
          ∷ [])

  abbrev pub locks_sql : String → Sql F
  locks_sql svc =
      raw
        "\n\t\tSELECT service, lock_name, sum(waiters) AS waiters, avg(hold_ms) AS hold_ms, avg(wait_ms) AS wait_ms,\n\t\t       max(deadlock) AS deadlock, max(observed_at) AS last_seen\n\t\tFROM opa.lock_contention\n\t\tWHERE observed_at >= now() - INTERVAL 6 HOUR"
      ∷ tenant_and ""
      ∷ with_service svc
          (raw "\n\t\tGROUP BY service, lock_name\n\t\tORDER BY wait_ms DESC LIMIT 200" ∷ [])
