-- ===== src/Query/Alerts.antt =====
-- The alert rules: internal/query/alerts.go. The type of a rule's configurations, `map[string]any` in
-- the source, is a parameter with its JSON codec. The text of a decoding error is left out.
pub mod Delivery
pub mod Handler
pub mod Columns
use opa_hub.Prelude.{
  ℕ, String, Bool, true, false, Option, none, some, List, [], ◌∷◌, ◌⊎◌, inl, inr, ◌==◌, ltb,
  if◌then◌else◌,
}
use opa_hub.Http.{Response, write_error, write_json}
use opa_hub.Query.Sql.{ScopeLib, Piece, raw, quoted, number, tenant_and, tenant_where, Sql}
use opa_hub.Query.Db.{Row, Db, done, query, exec}

-- `json.Unmarshal` into a configuration, the empty one where it fails, and `json.Marshal`
pub record Codec (J : Type 0) : Type 0 where
  pub unmarshal : String → J
  pub marshal : J → String

pub record Alert (J : Type 0) : Type 0 where
  pub id : String
  pub name : String
  pub description : String
  pub enabled : Bool
  pub condition_type : String
  pub condition_config : J
  pub action_type : String
  pub action_config : J
  pub service : Option String
  pub organization_id : String
  pub project_id : String

-- a row of `opa.alert_history`
pub record Fired (F : Type 0) : Type 0 where
  pub alert_id : String
  pub alert_name : String
  pub condition_type : String
  pub value : F
  pub threshold : F
  pub operator : String
  pub action_type : String
  pub status : String
  pub message : String
  pub fired_at : String

abbrev pub fired_from_row : {F : Type 0} → Row F → Fired F
fired_from_row row = record {
  alert_id = row.text "alert_id";
  alert_name = row.text "alert_name";
  condition_type = row.text "condition_type";
  value = row.float "value";
  threshold = row.float "threshold";
  operator = row.text "operator";
  action_type = row.text "action_type";
  status = row.text "status";
  message = row.text "message";
  fired_at = row.text "fired_at";
}

abbrev pub alert_columns : String
alert_columns =
    "SELECT id, name, description, enabled, condition_type, condition_config, action_type, action_config, service, organization_id, project_id\n\t\t"

-- the text of `getAlert`
abbrev pub get_sql : {F : Type 0} → String → Sql F
get_sql id =
    raw alert_columns
    ∷ raw "FROM opa.alerts FINAL WHERE id = "
    ∷ quoted id
    ∷ tenant_and ""
    ∷ raw " LIMIT 1"
    ∷ []

abbrev pub service_text : Option String → String
service_text none = ""
service_text (some s) = s

module _ {F J : Type 0} (codec : Codec J) where
  -- `alertFromRow`
  unfoldable pub alert_from_row : Row F → Alert J
  alert_from_row row = record {
    id = row.text "id";
    name = row.text "name";
    description = row.text "description";
    enabled = ltb 0 (row.uint "enabled");
    condition_type = row.text "condition_type";
    condition_config = codec.unmarshal (row.text "condition_config");
    action_type = row.text "action_type";
    action_config = codec.unmarshal (row.text "action_config");
    service = if row.text "service" == "" then none else some (row.text "service");
    organization_id = row.text "organization_id";
    project_id = row.text "project_id";
  }

  -- what `getAlert` makes of an answer: an error's text, no rule or a rule
  abbrev pub first_alert : String ⊎ List (Row F) → String ⊎ Option (Alert J)
  first_alert (inl e) = inl e
  first_alert (inr []) = inr none
  first_alert (inr (row ∷ rows)) = inr (some (alert_from_row row))

  -- `getAlert`
  unfoldable pub get_alert : String → Db F (String ⊎ Option (Alert J))
  get_alert id = query (get_sql id) (λ r. done (first_alert r))

  -- the text of `persistAlert`
  abbrev pub persist_sql : Alert J → Sql F
  persist_sql a =
      raw
        "INSERT INTO opa.alerts (organization_id, project_id, id, name, description, enabled, condition_type, condition_config, action_type, action_config, service, updated_at) VALUES ("
      ∷ quoted a.organization_id
      ∷ raw ","
      ∷ quoted a.project_id
      ∷ raw ","
      ∷ quoted a.id
      ∷ raw ","
      ∷ quoted a.name
      ∷ raw ","
      ∷ quoted a.description
      ∷ raw ","
      ∷ number (if a.enabled then 1 else 0)
      ∷ raw ","
      ∷ quoted a.condition_type
      ∷ raw ","
      ∷ quoted (codec.marshal a.condition_config)
      ∷ raw ","
      ∷ quoted a.action_type
      ∷ raw ","
      ∷ quoted (codec.marshal a.action_config)
      ∷ raw ","
      ∷ quoted (service_text a.service)
      ∷ raw ", now64(3))"
      ∷ []

  -- `persistAlert`
  unfoldable pub persist_alert : Alert J → Db F (Option String)
  persist_alert a = exec (persist_sql a) done

  -- the alerts of the rows that have an id
  unfoldable pub alerts_of : List (Row F) → List (Alert J)
  unfolding alert_from_row
  alerts_of [] = []
  alerts_of (row ∷ rows) =
      let a = alert_from_row row in
      let rest = alerts_of rows in if a.id == "" then rest else a ∷ rest
