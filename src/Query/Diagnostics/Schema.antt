-- ===== src/Query/Diagnostics/Schema.antt =====
-- The tables of the diagnostics: `ensureDiagnosticsTables` of internal/query/diagnostics.go. The flag
-- `diagDDLReady` is the state; its mutex makes every call one step.
pub mod Created
use opa_hub.Prelude.{
  String, Bool, true, false, not, Option, none, some, List, [], ◌∷◌, if◌then◌else◌,
}
use opa_hub.Query.Sql.{raw, Sql}
use opa_hub.Query.Db.{Db, done, exec, ◌>>=◌}

abbrev pub release_markers : String
release_markers =
    "CREATE TABLE IF NOT EXISTS opa.release_markers\n(\n    id               String,\n    organization_id  String DEFAULT '',\n    project_id       String DEFAULT '',\n    service          LowCardinality(String),\n    release          String,\n    git_sha          String DEFAULT '',\n    git_repo         String DEFAULT '',\n    author           String DEFAULT '',\n    message          String DEFAULT '',\n    commits_json     String DEFAULT '[]',\n    deployed_at      DateTime64(3) DEFAULT now64(3)\n)\nENGINE = ReplacingMergeTree(deployed_at)\nORDER BY (organization_id, project_id, service, release)"

abbrev pub heap_snapshots : String
heap_snapshots =
    "CREATE TABLE IF NOT EXISTS opa.heap_snapshots\n(\n    id               String,\n    organization_id  String DEFAULT '',\n    project_id       String DEFAULT '',\n    service          LowCardinality(String),\n    host             LowCardinality(String) DEFAULT '',\n    runtime          LowCardinality(String) DEFAULT '',\n    total_bytes      UInt64 DEFAULT 0,\n    dominators_json  String DEFAULT '[]',\n    retained_json    String DEFAULT '[]',\n    captured_at      DateTime64(3) DEFAULT now64(3)\n)\nENGINE = MergeTree\nPARTITION BY toDate(captured_at)\nORDER BY (organization_id, project_id, service, captured_at, id)\nTTL toDateTime(captured_at) + INTERVAL 30 DAY"

abbrev pub thread_samples : String
thread_samples =
    "CREATE TABLE IF NOT EXISTS opa.thread_samples\n(\n    organization_id  String DEFAULT '',\n    project_id       String DEFAULT '',\n    service          LowCardinality(String),\n    host             LowCardinality(String) DEFAULT '',\n    thread_id        String DEFAULT '',\n    thread_name      String DEFAULT '',\n    state            LowCardinality(String) DEFAULT '',\n    stack_json       String DEFAULT '[]',\n    lock_name        String DEFAULT '',\n    wait_ms          Float64 DEFAULT 0,\n    sampled_at       DateTime64(3) DEFAULT now64(3)\n)\nENGINE = MergeTree\nPARTITION BY toDate(sampled_at)\nORDER BY (organization_id, project_id, service, sampled_at)\nTTL toDateTime(sampled_at) + INTERVAL 14 DAY"

abbrev pub lock_contention : String
lock_contention =
    "CREATE TABLE IF NOT EXISTS opa.lock_contention\n(\n    organization_id  String DEFAULT '',\n    project_id       String DEFAULT '',\n    service          LowCardinality(String),\n    lock_name        String,\n    waiters          UInt64 DEFAULT 0,\n    hold_ms          Float64 DEFAULT 0,\n    wait_ms          Float64 DEFAULT 0,\n    deadlock         UInt8 DEFAULT 0,\n    holders_json     String DEFAULT '[]',\n    observed_at      DateTime64(3) DEFAULT now64(3)\n)\nENGINE = SummingMergeTree\nPARTITION BY toDate(observed_at)\nORDER BY (organization_id, project_id, service, lock_name, observed_at)\nTTL toDateTime(observed_at) + INTERVAL 14 DAY"

-- `diagnosticsDDLStmts`
abbrev pub diagnostics_ddl_stmts : List String
diagnostics_ddl_stmts = release_markers ∷ heap_snapshots ∷ thread_samples ∷ lock_contention ∷ []

abbrev pub marked : Option String → Bool × Option String
marked none = (true, none)
marked (some e) = (false, some e)

module _ {F : Type 0} where
  abbrev pub statement : String → Sql F
  statement stmt = raw stmt ∷ []

  -- an error ends the loop
  abbrev pub unless_error : Db F (Option String) → Option String → Db F (Option String)
  unless_error more none = more
  unless_error more (some e) = done (some e)

  -- the loop over the statements
  unfoldable pub create : List String → Db F (Option String)
  create [] = done none
  create (stmt ∷ rest) = let more = create rest in exec (statement stmt) (unless_error more)

  -- `ensureDiagnosticsTables`, with the flag before and behind it
  unfoldable pub ensure_diagnostics_tables : Bool → Bool → Db F (Bool × Option String)
  unfolding create
  ensure_diagnostics_tables writer ready =
      if not writer
      then done (ready, some "clickhouse writer not configured")
      else if ready
      then done (true, none)
      else create diagnostics_ddl_stmts >>= (λ r. done (marked r))
