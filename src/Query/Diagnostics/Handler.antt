-- ===== src/Query/Diagnostics/Handler.antt =====
-- The HTTP handlers of the diagnostics. The flag `diagDDLReady` stands before and behind a request.
pub mod Texts
pub mod Ready
pub mod Retry
pub mod Unscoped
use opa_hub.Prelude.{
  ℕ, String, Bool, true, false, Option, none, some, List, [], ◌∷◌, ◌⊎◌, inl, inr, pos, ◌==◌, ◌||◌,
  not, ltb, if◌then◌else◌,
}
use opa_hub.Text.{trim_space}
use opa_hub.Http.{Request, Response, write_error, write_json, method_not_allowed}
use opa_hub.Query.Numbers.{clamp_int, parse_int_default}
use opa_hub.Query.Sql.{ScopeLib, Sql}
use opa_hub.Query.Db.{Row, Db, done, query, exec, ◌>>=◌, refuse, with_writer}
use opa_hub.Query.Diagnostics.{
  Outside, Release, diag_id, release_sql, releases_sql, snapshot_sql, snapshots_sql, threads_sql,
  locks_sql,
}
use opa_hub.Query.Diagnostics.Schema.{ensure_diagnostics_tables}
use opa_hub.Query.Diagnostics.Suspects.{Values, Suspect, suspects_sql, suspects_of}

pub record Snapshot (F J : Type 0) : Type 0 where
  pub id : String
  pub service : String
  pub host : String
  pub runtime : String
  pub total_bytes : F
  pub dominators : J
  pub retained_paths : J
  pub captured_at : String

-- The values that the handlers answer with: rows are passed on under a key, and an error of a read is a
-- value too, with an empty list under the key.
pub data Reply (F J : Type 0) : Type 0 where
  saved : String → Reply F J
  listing : String → List (Row F) → Reply F J
  listing_error : String → String → Reply F J
  suspects : List (Suspect J) → ℕ → Reply F J
  snapshot : Snapshot F J → Reply F J

-- the requests of the five handlers
pub data Call : Type 0 where
  releases : Request (Option Release) → Call
  suspect_commits : Request Unit → Call
  heap : Request Unit → Call
  threads : Request Unit → Call
  locks : Request Unit → Call

abbrev pub service : {B : Type 0} → Request B → String
service req = trim_space (req.query "service")

module _ {F J : Type 0} (m : Values F J) where
  told : String → Option String → Response (Reply F J)
  told id none = write_json 200 (saved id)
  told id (some e) = write_error 500 "query_error" e

  listed : String → String ⊎ List (Row F) → Response (Reply F J)
  listed key (inl e) = write_json 200 (listing_error key e)
  listed key (inr rows) = write_json 200 (listing key rows)

  abbrev release_refused : Db F (Response (Reply F J))
  release_refused = refuse 400 "bad_request" "service and release required"

  -- a POST to `ServeReleases`; the body is none where it cannot be read, and some none where its JSON
  -- cannot be decoded
  created : ScopeLib F → Outside → Option (Option Release) → Db F (Response (Reply F J))
  unfolding told diag_id
  created l o none = refuse 400 "bad_request" "read error"
  created l o (some none) = release_refused
  created l o (some (some b)) =
      let (org, proj) = l.write_tenant in
      if b.service == "" || b.release == ""
      then release_refused
      else exec (release_sql o l.write_tenant b)
          (λ r. done (told (diag_id o "rel" (org ∷ b.service ∷ b.release ∷ [])) r))

  release_method : ScopeLib F → Outside → Request (Option Release) → Db F (Response (Reply F J))
  unfolding created listed
  release_method l o req =
      if req.method == "POST"
      then created l o req.body
      else if req.method == "GET"
      then query (releases_sql (service req)) (λ r. done (listed "releases" r))
      else done (method_not_allowed "GET or POST required")

  -- the suspects of the releases that a read answers with, the highest scores first
  ranked :
      (List (Suspect J) → List (Suspect J))
      → ScopeLib F
      → ℕ
      → String ⊎ List (Row F)
      → Db F (Response (Reply F J))
  unfolding suspects_of
  ranked sort l hours (inl e) = done (write_json 200 (listing_error "suspects" e))
  ranked sort l hours (inr rows) =
      suspects_of m l.write_tenant rows
      >>= (λ out. done (write_json 200 (suspects (sort out) hours)))

  abbrev pub window_hours : Request Unit → ℕ
  window_hours req = clamp_int (parse_int_default (req.query "hours") (pos 24)) 1 168

  -- what `ServeSuspectCommits` does behind its checks
  suspect_reads :
      (List (Suspect J) → List (Suspect J))
      → ScopeLib F
      → Request Unit
      → Db F (Response (Reply F J))
  unfolding ranked clamp_int parse_int_default
  suspect_reads sort l req =
      query (suspects_sql l.write_tenant (window_hours req) (service req))
        (ranked sort l (window_hours req))

  abbrev snapshot_of : Row F → Snapshot F J
  snapshot_of row = record {
    id = row.text "id";
    service = row.text "service";
    host = row.text "host";
    runtime = row.text "runtime";
    total_bytes = row.float "total_bytes";
    dominators = m.decoded (row.text "dominators_json");
    retained_paths = m.decoded (row.text "retained_json");
    captured_at = row.text "captured_at";
  }

  pub found : String ⊎ List (Row F) → Response (Reply F J)
  found (inl e) = write_error 404 "not_found" "snapshot not found"
  found (inr []) = write_error 404 "not_found" "snapshot not found"
  found (inr (row ∷ rows)) = write_json 200 (snapshot (snapshot_of row))

  -- what `ServeHeapDiagnostics` does behind its checks
  heap_reads : Request Unit → Db F (Response (Reply F J))
  unfolding found listed
  heap_reads req =
      let id = trim_space (req.query "id") in
      if not (id == "")
      then query (snapshot_sql id) (λ r. done (found r))
      else query (snapshots_sql (service req)) (λ r. done (listed "snapshots" r))

  -- the handler behind `ensureDiagnosticsTables`
  with_schema :
      Db F (Response (Reply F J)) → Bool × Option String → Db F (Bool × Response (Reply F J))
  with_schema d (ready, none) = d >>= (λ reply. done (ready, reply))
  with_schema d (ready, some e) = done (ready, write_error 500 "schema_error" e)

  abbrev ensured : Bool → Bool → Db F (Response (Reply F J)) → Db F (Bool × Response (Reply F J))
  ensured writer ready d =
      if writer
      then ensure_diagnostics_tables writer ready >>= with_schema d
      else done (ready, write_error 503 "clickhouse_unavailable" "ClickHouse not configured")

  abbrev get_only :
      Bool → Bool → Request Unit → Db F (Response (Reply F J)) → Db F (Bool × Response (Reply F J))
  get_only writer ready req d =
      if not (req.method == "GET")
      then done (ready, method_not_allowed "GET required")
      else ensured writer ready d

  -- `ServeReleases`, `ServeSuspectCommits`, `ServeHeapDiagnostics`, `ServeThreadDiagnostics` and
  -- `ServeLockDiagnostics`
  unfoldable pub serve :
      (List (Suspect J) → List (Suspect J))
      → Bool
      → ScopeLib F
      → Outside
      → Bool
      → Call
      → Db F (Bool × Response (Reply F J))
  unfolding ensure_diagnostics_tables with_schema release_method suspect_reads heap_reads listed
  serve sort writer l o ready (releases req) = ensured writer ready (release_method l o req)
  serve sort writer l o ready (suspect_commits req) =
      get_only writer ready req (suspect_reads sort l req)
  serve sort writer l o ready (heap req) = get_only writer ready req (heap_reads req)
  serve sort writer l o ready (threads req) =
      get_only writer ready req (query (threads_sql (service req)) (λ r. done (listed "threads" r)))
  serve sort writer l o ready (locks req) =
      get_only writer ready req (query (locks_sql (service req)) (λ r. done (listed "locks" r)))
