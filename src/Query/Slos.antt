-- ===== src/Query/Slos.antt =====
-- The service-level objectives: internal/query/slos.go. The text of a decoding error is left out.
pub mod Texts
pub mod Update
use Prim.Native.String.{◌++◌}
use opa_hub.Prelude.{
  ℕ, String, Bool, true, false, Option, none, some, List, [], ◌∷◌, ◌⊎◌, inl, inr, map, ◌==◌, ltb,
  if◌then◌else◌,
}
use opa_hub.Text.{trim_prefix, trim_slash}
use opa_hub.Text.Split.{split_slash}
use opa_hub.Http.{Request, Response, write_error, write_json, method_not_allowed}
use opa_hub.Query.Numbers.{decimal}
use opa_hub.Query.Sql.{
  ScopeLib, raw, quoted, number, real, tenant_and, tenant_where, owned_row, Sql,
}
use opa_hub.Query.Db.{Row, Db, done, query, exec, refuse, with_writer}

-- The decoded body: `body["id"].(string)`, and `mapString`, `mapFloat` and `mapUint` of its keys.
pub record Body (F : Type 0) : Type 0 where
  pub id : Option String
  pub map_string : String → String
  pub map_float : String → F
  pub map_uint : String → ℕ

pub record Slo (F : Type 0) : Type 0 where
  pub id : String
  pub name : String
  pub description : String
  pub service : String
  pub slo_type : String
  pub target_value : F
  pub window_hours : ℕ

-- an objective of the list, with its times
pub record Dated (F : Type 0) : Type 0 where
  pub slo : Slo F
  pub created_at : String
  pub updated_at : String

-- a row of `opa.slo_metrics`
pub record Compliance (F : Type 0) : Type 0 where
  pub actual_value : F
  pub compliance_percentage : F
  pub is_breach : Bool
  pub error_budget_remaining : F
  pub burn_rate : F
  pub window_start : String
  pub window_end : String

-- the values that the handlers answer with
pub data Reply (F : Type 0) : Type 0 where
  slos : List (Dated F) → Reply F
  slo : Slo F → Reply F
  metrics : List (Compliance F) → Reply F
  updated : Reply F
  no_content : Reply F

abbrev pub given_id : String → Option String → String
given_id fresh none = fresh
given_id fresh (some id) = if id == "" then fresh else id

abbrev is_compliance : List String → Bool
is_compliance [] = false
is_compliance (w ∷ ws) = w == "compliance"

-- the parts of a path behind `/api/slos/`
unfoldable pub slo_parts : String → List String
unfolding split_slash trim_slash trim_prefix
slo_parts path = split_slash (trim_slash (trim_prefix path "/api/slos/"))

module _ {F : Type 0} where
  abbrev pub slo_from_row : Row F → Slo F
  slo_from_row row = record {
    id = row.text "id";
    name = row.text "name";
    description = row.text "description";
    service = row.text "service";
    slo_type = row.text "slo_type";
    target_value = row.float "target_value";
    window_hours = row.uint "window_hours";
  }

  abbrev pub dated_from_row : Row F → Dated F
  dated_from_row row = record {
    slo = slo_from_row row;
    created_at = row.text "created_at";
    updated_at = row.text "updated_at";
  }

  abbrev pub compliance_from_row : Row F → Compliance F
  compliance_from_row row = record {
    actual_value = row.float "actual_value";
    compliance_percentage = row.float "compliance_percentage";
    is_breach = ltb 0 (row.uint "is_breach");
    error_budget_remaining = row.float "error_budget_remaining";
    burn_rate = row.float "burn_rate";
    window_start = row.text "window_start";
    window_end = row.text "window_end";
  }

  abbrev pub list_sql : Sql F
  list_sql =
      raw
        "SELECT id, name, description, service, slo_type, target_value, window_hours, created_at, updated_at\n\t\t\tFROM opa.slos WHERE "
      ∷ tenant_where ""
      ∷ raw " ORDER BY created_at DESC"
      ∷ []

  abbrev pub insert_sql : String × String → Slo F → Sql F
  insert_sql (org, proj) s =
      raw
        "INSERT INTO opa.slos (organization_id, project_id, id, name, description, service, slo_type, target_value, window_hours) VALUES ("
      ∷ quoted org
      ∷ raw ", "
      ∷ quoted proj
      ∷ raw ", "
      ∷ quoted s.id
      ∷ raw ", "
      ∷ quoted s.name
      ∷ raw ", "
      ∷ quoted s.description
      ∷ raw ", "
      ∷ quoted s.service
      ∷ raw ", "
      ∷ quoted s.slo_type
      ∷ raw ", "
      ∷ real s.target_value
      ∷ raw ", "
      ∷ number s.window_hours
      ∷ raw ")"
      ∷ []

  abbrev pub compliance_sql : String → Sql F
  compliance_sql id =
      raw
        "SELECT\n\t\t\tactual_value, compliance_percentage, is_breach, error_budget_remaining, burn_rate, window_start, window_end\n\t\t\tFROM opa.slo_metrics\n\t\t\tWHERE slo_id = "
      ∷ quoted id
      ∷ tenant_and ""
      ∷ raw "\n\t\t\tORDER BY window_start DESC LIMIT 30"
      ∷ []

  abbrev pub get_sql : String → Sql F
  get_sql id =
      raw
        "SELECT id, name, description, service, slo_type, target_value, window_hours\n\t\t\tFROM opa.slos WHERE id = "
      ∷ quoted id
      ∷ tenant_and ""
      ∷ raw " LIMIT 1"
      ∷ []

  abbrev pub update_sql : String → Body F → Sql F
  update_sql id b =
      raw "ALTER TABLE opa.slos UPDATE\n\t\t\tname = "
      ∷ quoted (b.map_string "name")
      ∷ raw ", description = "
      ∷ quoted (b.map_string "description")
      ∷ raw ", service = "
      ∷ quoted (b.map_string "service")
      ∷ raw ", slo_type = "
      ∷ quoted (b.map_string "slo_type")
      ∷ raw ",\n\t\t\ttarget_value = "
      ∷ real (b.map_float "target_value")
      ∷ raw ", window_hours = "
      ∷ number (b.map_uint "window_hours")
      ∷ raw ", updated_at = now()\n\t\t\tWHERE id = "
      ∷ quoted id
      ∷ []

  abbrev pub delete_sql : String → Sql F
  delete_sql id =
      raw "ALTER TABLE opa.slos DELETE WHERE id = " ∷ quoted id ∷ raw " AND " ∷ owned_row "" ∷ []

  abbrev pub told : ℕ → Reply F → Option String → Response (Reply F)
  told status reply none = write_json status reply
  told status reply (some e) = write_error 500 "query_error" e

  listed : String ⊎ List (Row F) → Response (Reply F)
  listed (inl e) = write_error 500 "query_error" e
  listed (inr rows) = write_json 200 (slos (map dated_from_row rows))

  -- the objective of a body
  abbrev pub slo_of : ℕ → Body F → Slo F
  slo_of now b = record {
    id = given_id ("slo-" ++ decimal now) b.id;
    name = b.map_string "name";
    description = b.map_string "description";
    service = b.map_string "service";
    slo_type = b.map_string "slo_type";
    target_value = b.map_float "target_value";
    window_hours = b.map_uint "window_hours";
  }

  created : ScopeLib F → ℕ → Option (Body F) → Db F (Response (Reply F))
  created l now none = refuse 400 "bad_request" ""
  created l now (some b) =
      exec (insert_sql l.write_tenant (slo_of now b)) (λ r. done (told 200 (slo (slo_of now b)) r))

  -- `ServeSLOs`
  unfoldable pub serve_slos : Bool → ScopeLib F → ℕ → Request (Body F) → Db F (Response (Reply F))
  unfolding listed created
  serve_slos writer l now req = with_writer writer (
      if req.method == "GET"
      then query list_sql (λ r. done (listed r))
      else if req.method == "POST"
      then created l now req.body
      else done (method_not_allowed "GET or POST required"))

  recalled : String ⊎ List (Row F) → Response (Reply F)
  recalled (inl e) = write_error 500 "query_error" e
  recalled (inr rows) = write_json 200 (metrics (map compliance_from_row rows))

  found : String ⊎ List (Row F) → Response (Reply F)
  found (inl e) = write_error 404 "not_found" "slo not found"
  found (inr []) = write_error 404 "not_found" "slo not found"
  found (inr (row ∷ rows)) = write_json 200 (slo (slo_from_row row))

  replaced : String → Option (Body F) → Db F (Response (Reply F))
  replaced id none = refuse 400 "bad_request" ""
  replaced id (some b) = exec (update_sql id b) (λ r. done (told 200 updated r))

  by_method : String → Request (Body F) → Db F (Response (Reply F))
  unfolding found replaced
  by_method id req =
      if req.method == "GET"
      then query (get_sql id) (λ r. done (found r))
      else if req.method == "PUT"
      then replaced id req.body
      else if req.method == "DELETE"
      then exec (delete_sql id) (λ r. done (told 204 no_content r))
      else done (method_not_allowed "method not allowed")

  abbrev compliance : String → Request (Body F) → Db F (Response (Reply F))
  compliance id req =
      if req.method == "GET"
      then query (compliance_sql id) (λ r. done (recalled r))
      else done (method_not_allowed "GET required")

  at_parts : List String → Request (Body F) → Db F (Response (Reply F))
  unfolding by_method recalled
  at_parts [] req = refuse 400 "bad_request" "slo id required"
  at_parts (id ∷ rest) req =
      if id == ""
      then refuse 400 "bad_request" "slo id required"
      else if is_compliance rest
      then compliance id req
      else by_method id req

  -- `ServeSLOsSubpath`
  unfoldable pub serve_slos_subpath : Bool → Request (Body F) → Db F (Response (Reply F))
  unfolding at_parts slo_parts
  serve_slos_subpath writer req = with_writer writer (at_parts (slo_parts req.path) req)
