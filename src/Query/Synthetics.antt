-- ===== src/Query/Synthetics.antt =====
-- The synthetic checks: internal/query/synthetics.go. The unsigned integers have the widths of the source.
-- `strings.ToUpper` and the clock are parameters; the text of a decoding error is left out.
pub mod Normal
pub mod Handler
use Prim.Native.String.{◌++◌}
use opa_hub.Prelude.{
  ℕ, ◌%◌, ◌^◌, String, Bool, true, false, Option, none, some, ℤ, List, [], ◌∷◌, ◌⊎◌, inl, inr, map,
  ◌==◌, ◌||◌, eqb, ltb, if◌then◌else◌,
}
use opa_hub.Text.{trim_prefix, trim_slash, trim_space}
use opa_hub.Text.Split.{split_slash}
use opa_hub.Http.{Request, Response, write_error, write_json, method_not_allowed}
use opa_hub.Query.Numbers.{decimal}
use opa_hub.Query.Sql.{ScopeLib, raw, quoted, number, tenant_and, owned_row, Sql}
use opa_hub.Query.Db.{Row, Db, done, query, exec, ◌>>=◌, refuse, with_writer}
use opa_hub.Query.Times.{TimeLib, safe_time_literal}

-- `SyntheticCheck`: uint32, uint16 and uint8 numbers
pub record SyntheticCheck : Type 0 where
  pub id : String
  pub organization_id : String
  pub project_id : String
  pub name : String
  pub url : String
  pub method : String
  pub headers : String
  pub interval_seconds : ℕ
  pub timeout_ms : ℕ
  pub assert_status : ℕ
  pub assert_body_contains : String
  pub assert_max_latency_ms : ℕ
  pub enabled : ℕ

-- What the handlers call outside the repository.
pub record Outside (F : Type 0) : Type 0 where
  -- `strings.ToUpper`
  pub to_upper : String → String
  -- the time of the call, in nanoseconds and as `Format` prints it
  pub now : ℕ
  pub now_text : String
  -- `int(x)` and `int64(x)` of a column
  pub to_int : F → ℤ

abbrev pub name_of : String → String → String
name_of name url = let s = trim_space name in if s == "" then url else s

abbrev pub method_of : (String → String) → String → String
method_of to_upper verb = let s = to_upper (trim_space verb) in if s == "" then "GET" else s

abbrev pub interval_of : ℕ → ℕ
interval_of n = if ltb n 15 then 60 else n

abbrev pub timeout_of : ℕ → ℕ
timeout_of n = if eqb n 0 || ltb 60000 n then 10000 else n

-- `normalizeSyntheticCheck`
unfoldable pub normalize_synthetic_check : (String → String) → SyntheticCheck → SyntheticCheck
unfolding trim_space
normalize_synthetic_check to_upper c = record c {
  name = name_of c.name c.url;
  method = method_of to_upper c.method;
  headers = if trim_space c.headers == "" then "{}" else c.headers;
  interval_seconds = interval_of c.interval_seconds;
  timeout_ms = timeout_of c.timeout_ms;
  enabled = if eqb c.enabled 0 then 0 else 1;
}

module _ {F : Type 0} where
  -- the check of a row, with the conversions of `getSynthetic`
  abbrev pub check_from_row : Row F → SyntheticCheck
  check_from_row row = record {
    id = row.text "id";
    organization_id = row.text "organization_id";
    project_id = row.text "project_id";
    name = row.text "name";
    url = row.text "url";
    method = row.text "method";
    headers = row.text "headers";
    interval_seconds = row.uint "interval_seconds" % 2 ^ 32;
    timeout_ms = row.uint "timeout_ms" % 2 ^ 32;
    assert_status = row.uint "assert_status" % 2 ^ 16;
    assert_body_contains = row.text "assert_body_contains";
    assert_max_latency_ms = row.uint "assert_max_latency_ms" % 2 ^ 32;
    enabled = row.uint "enabled" % 2 ^ 8;
  }

  abbrev pub get_sql : String → Sql F
  get_sql id =
      raw
        "SELECT id, organization_id, project_id, name, url, method, headers,\n\t\tinterval_seconds, timeout_ms, assert_status, assert_body_contains,\n\t\tassert_max_latency_ms, enabled\n\t\tFROM opa.synthetic_checks FINAL WHERE id = "
      ∷ quoted id
      ∷ tenant_and ""
      ∷ raw " LIMIT 1"
      ∷ []

  abbrev pub persist_sql : String → SyntheticCheck → Sql F
  persist_sql now c =
      raw
        "INSERT INTO opa.synthetic_checks (\n\t\tid, organization_id, project_id, name, url, method, headers,\n\t\tinterval_seconds, timeout_ms, assert_status, assert_body_contains,\n\t\tassert_max_latency_ms, enabled, created_at, updated_at\n\t) VALUES (\n\t\t"
      ∷ quoted c.id
      ∷ raw ","
      ∷ quoted c.organization_id
      ∷ raw ","
      ∷ quoted c.project_id
      ∷ raw ","
      ∷ quoted c.name
      ∷ raw ","
      ∷ quoted c.url
      ∷ raw ","
      ∷ quoted c.method
      ∷ raw ","
      ∷ quoted c.headers
      ∷ raw ",\n\t\t"
      ∷ number c.interval_seconds
      ∷ raw ","
      ∷ number c.timeout_ms
      ∷ raw ","
      ∷ number c.assert_status
      ∷ raw ","
      ∷ quoted c.assert_body_contains
      ∷ raw ","
      ∷ number c.assert_max_latency_ms
      ∷ raw ","
      ∷ number c.enabled
      ∷ raw ", parseDateTime64BestEffort("
      ∷ quoted now
      ∷ raw "), parseDateTime64BestEffort("
      ∷ quoted now
      ∷ raw ")\n\t)"
      ∷ []

  abbrev pub delete_sql : String → Sql F
  delete_sql id =
      raw "ALTER TABLE opa.synthetic_checks DELETE WHERE id = "
      ∷ quoted id
      ∷ raw " AND "
      ∷ owned_row ""
      ∷ []

  abbrev pub list_sql : Sql F
  list_sql =
      raw
        "SELECT\n\t\tid, organization_id, project_id, name, url, method, headers,\n\t\tinterval_seconds, timeout_ms, assert_status, assert_body_contains,\n\t\tassert_max_latency_ms, enabled\n\t\tFROM opa.synthetic_checks FINAL\n\t\tWHERE 1=1"
      ∷ tenant_and ""
      ∷ raw "\n\t\tORDER BY name"
      ∷ []

  abbrev pub health_sql : Sql F
  health_sql =
      raw
        "SELECT check_id,\n\t\t100 * avgOrNull(ok) AS uptime,\n\t\tavgOrNull(latency_ms) AS avg_latency,\n\t\targMax(ok, ts) AS last_ok,\n\t\ttoString(max(ts)) AS last_run,\n\t\targMax(error, ts) AS last_error\n\t\tFROM opa.synthetic_results\n\t\tWHERE ts >= now() - INTERVAL 24 HOUR"
      ∷ tenant_and ""
      ∷ raw "\n\t\tGROUP BY check_id"
      ∷ []

  -- a condition on a time, where one is given
  abbrev pub with_bound : String → String → Sql F → Sql F
  with_bound condition time rest = if time == "" then rest else raw condition ∷ quoted time ∷ rest

  abbrev pub results_sql : String → String → String → Sql F
  results_sql id since until =
      raw
        "SELECT toString(ts) AS ts, ok, status_code, latency_ms, error\n\t\t\tFROM opa.synthetic_results WHERE check_id = "
      ∷ quoted id
      ∷ tenant_and ""
      ∷ with_bound " AND ts >= " since
          (with_bound " AND ts <= " until (raw " ORDER BY ts DESC LIMIT 500" ∷ []))
