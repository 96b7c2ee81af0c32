-- ===== src/Query/Synthetics/Handler.antt =====
-- The HTTP handlers of the synthetic checks: `ServeSynthetics`, `ServeSyntheticsSubpath` and
-- `ServeSyntheticsLocations`.
pub mod Texts
pub mod Written
use Prim.Native.String.{◌++◌}
use opa_hub.Prelude.{
  ℕ, String, Bool, true, false, Option, none, some, ℤ, List, [], ◌∷◌, ◌⊎◌, inl, inr, map, ◌==◌,
  if◌then◌else◌,
}
use opa_hub.Text.{trim_prefix, trim_slash, trim_space}
use opa_hub.Text.Split.{split_slash}
use opa_hub.Http.{Request, Response, write_error, write_json, method_not_allowed}
use opa_hub.Query.Numbers.{decimal}
use opa_hub.Query.Sql.{ScopeLib}
use opa_hub.Query.Db.{Row, Db, done, query, exec, ◌>>=◌, refuse, with_writer}
use opa_hub.Query.Times.{TimeLib, safe_time_literal}
use opa_hub.Query.Synthetics.{
  SyntheticCheck, Outside, normalize_synthetic_check, check_from_row, get_sql, persist_sql,
  delete_sql, list_sql, health_sql, results_sql,
}

-- the last day of a check
pub record Health (F : Type 0) : Type 0 where
  pub uptime_24h : F
  pub avg_latency_ms_24h : F
  pub last_ok : ℤ
  pub last_run : String
  pub last_error : String

-- A check of the list, whose numbers are not cut, with its health where there is any.
pub record Listed (F : Type 0) : Type 0 where
  pub check : SyntheticCheck
  pub health : Option (Health F)

pub record Result (F : Type 0) : Type 0 where
  pub ts : String
  pub ok : ℤ
  pub status_code : ℤ
  pub latency_ms : F
  pub error : String

-- the values that the handlers answer with
pub data Reply (F : Type 0) : Type 0 where
  checks : List (Listed F) → Reply F
  check : SyntheticCheck → Reply F
  results : List (Result F) → Reply F
  locations : Reply F
  no_content : Reply F

abbrev pub is_results : List String → Bool
is_results [] = false
is_results (w ∷ ws) = w == "results"

-- the owner, the id and the address of a check that replaces another
abbrev pub keeping : String → SyntheticCheck → SyntheticCheck → SyntheticCheck
keeping id current body = record body {
  id = id;
  organization_id = current.organization_id;
  project_id = current.project_id;
  url = if trim_space body.url == "" then current.url else body.url;
}

-- a new check
abbrev pub fresh : String → String × String → SyntheticCheck → SyntheticCheck
fresh id (org, proj) body = record body { id = id; organization_id = org; project_id = proj }

module _ {F T : Type 0} (o : Outside F) (m : TimeLib T) where
  abbrev health_from_row : Row F → Health F
  health_from_row row = record {
    uptime_24h = row.float "uptime";
    avg_latency_ms_24h = row.float "avg_latency";
    last_ok = o.to_int (row.float "last_ok");
    last_run = row.text "last_run";
    last_error = row.text "last_error";
  }

  -- the last row for an id that is not empty
  health_of : List (Row F) → String → Option (Health F)
  health_of [] id = none
  health_of (row ∷ rows) id =
      let later = health_of rows id in
      elim later [
        | some h ↦ some h
        | none ↦
            if id == ""
            then none
            else if row.text "check_id" == id
            then some (health_from_row row)
            else none
      ]

  abbrev listed_from_row : List (Row F) → Row F → Listed F
  listed_from_row stats row = record {
    check = record {
      id = row.text "id";
      organization_id = row.text "organization_id";
      project_id = row.text "project_id";
      name = row.text "name";
      url = row.text "url";
      method = row.text "method";
      headers = row.text "headers";
      interval_seconds = row.uint "interval_seconds";
      timeout_ms = row.uint "timeout_ms";
      assert_status = row.uint "assert_status";
      assert_body_contains = row.text "assert_body_contains";
      assert_max_latency_ms = row.uint "assert_max_latency_ms";
      enabled = row.uint "enabled";
    };
    health = health_of stats (row.text "id");
  }

  -- the health rows, none where their query fails
  abbrev rows_of : String ⊎ List (Row F) → List (Row F)
  rows_of (inl e) = []
  rows_of (inr rows) = rows

  listed : String ⊎ List (Row F) → Db F (Response (Reply F))
  unfolding health_of
  listed (inl e) = refuse 500 "query_error" e
  listed (inr rows) =
      query health_sql
        (λ r. done (write_json 200 (checks (map (listed_from_row (rows_of r)) rows))))

  -- `listSynthetics`
  abbrev list_synthetics : Db F (Response (Reply F))
  list_synthetics = query list_sql listed

  told : ℕ → Reply F → Option String → Response (Reply F)
  told status reply none = write_json status reply
  told status reply (some e) = write_error 500 "query_error" e

  -- `persistSynthetic`, with the answer behind it
  abbrev saved : SyntheticCheck → Db F (Response (Reply F))
  saved c = exec (persist_sql o.now_text c) (λ r. done (told 200 (check c) r))

  abbrev normal : SyntheticCheck → SyntheticCheck
  normal c = normalize_synthetic_check o.to_upper c

  created : ScopeLib F → Option SyntheticCheck → Db F (Response (Reply F))
  unfolding normalize_synthetic_check told
  created l none = refuse 400 "bad_request" ""
  created l (some body) =
      if trim_space body.url == ""
      then refuse 400 "bad_request" "url is required"
      else saved (normal (fresh ("synth-" ++ decimal o.now) l.write_tenant body))

  -- `ServeSynthetics`
  unfoldable pub serve_synthetics :
      Bool → ScopeLib F → Request SyntheticCheck → Db F (Response (Reply F))
  unfolding created listed
  serve_synthetics writer l req = with_writer writer (
      if req.method == "GET"
      then list_synthetics
      else if req.method == "POST"
      then created l req.body
      else done (method_not_allowed "GET or POST required"))

  abbrev result_from_row : Row F → Result F
  result_from_row row = record {
    ts = row.text "ts";
    ok = o.to_int (row.float "ok");
    status_code = o.to_int (row.float "status_code");
    latency_ms = row.float "latency_ms";
    error = row.text "error";
  }

  recalled : String ⊎ List (Row F) → Response (Reply F)
  recalled (inl e) = write_error 500 "query_error" e
  recalled (inr rows) = write_json 200 (results (map result_from_row rows))

  replaced : String → SyntheticCheck → Option SyntheticCheck → Db F (Response (Reply F))
  unfolding normalize_synthetic_check told
  replaced id current none = refuse 400 "bad_request" ""
  replaced id current (some body) = saved (normal (keeping id current body))

  -- the results of a check
  result_reads : String → Request SyntheticCheck → Db F (Response (Reply F))
  unfolding safe_time_literal recalled
  result_reads id req =
      if req.method == "GET"
      then query
          (results_sql id (safe_time_literal m (req.query "from"))
            (safe_time_literal m (req.query "to")))
          (λ r. done (recalled r))
      else done (method_not_allowed "GET required")

  -- the switch on the method, for a check that the tenant sees
  by_method : String → SyntheticCheck → Request SyntheticCheck → Db F (Response (Reply F))
  unfolding replaced told
  by_method id current req =
      if req.method == "GET"
      then done (write_json 200 (check current))
      else if req.method == "PUT"
      then replaced id current req.body
      else if req.method == "DELETE"
      then exec (delete_sql id) (λ r. done (told 204 no_content r))
      else done (method_not_allowed "method not allowed")

  -- behind `getSynthetic`
  with_current :
      String
      → List String
      → Request SyntheticCheck
      → String ⊎ List (Row F)
      → Db F (Response (Reply F))
  unfolding result_reads by_method
  with_current id rest req (inl e) = refuse 500 "query_error" e
  with_current id rest req (inr []) = refuse 404 "not_found" "check not found"
  with_current id rest req (inr (row ∷ rows)) =
      if is_results rest then result_reads id req else by_method id (check_from_row row) req

  at_parts : List String → Request SyntheticCheck → Db F (Response (Reply F))
  unfolding with_current
  at_parts [] req = refuse 400 "bad_request" "check id required"
  at_parts (id ∷ rest) req =
      if id == ""
      then refuse 400 "bad_request" "check id required"
      else query (get_sql id) (with_current id rest req)

  -- `ServeSyntheticsSubpath`
  unfoldable pub serve_synthetics_subpath :
      Bool → Request SyntheticCheck → Db F (Response (Reply F))
  unfolding at_parts split_slash trim_slash trim_prefix
  serve_synthetics_subpath writer req =
      with_writer writer
        (at_parts (split_slash (trim_slash (trim_prefix req.path "/api/synthetics/"))) req)

  -- `ServeSyntheticsLocations`
  abbrev pub serve_synthetics_locations : Request SyntheticCheck → Db F (Response (Reply F))
  serve_synthetics_locations req =
      done (
        if req.method == "GET" then write_json 200 locations else method_not_allowed "GET required")
