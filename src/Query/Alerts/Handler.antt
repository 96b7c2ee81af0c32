-- ===== src/Query/Alerts/Handler.antt =====
-- The HTTP handlers of the alert rules: `ServeAlerts` and `ServeAlertsSubpath`. The texts of ClickHouse's
-- errors are those of its answers.
pub mod Words
pub mod Texts
pub mod Scope
pub mod Ends
use Prim.Native.String.{◌++◌}
use opa_hub.Prelude.{
  ℕ, String, Bool, false, Option, none, some, List, [], ◌∷◌, ◌⊎◌, inl, inr, map, ◌==◌, ◌&&◌,
  if◌then◌else◌,
}
use opa_hub.Text.{trim_prefix, trim_slash}
use opa_hub.Text.Split.{split_slash}
use opa_hub.Http.{Request, Response, write_error, write_json, method_not_allowed}
use opa_hub.Query.Numbers.{decimal}
use opa_hub.Query.Sql.{ScopeLib, raw, quoted, tenant_and, tenant_where, owned_row, Sql}
use opa_hub.Query.Db.{Row, Db, done, query, exec, ◌>>=◌, refuse, with_writer}
use opa_hub.Query.Alerts.{
  Codec, Alert, Fired, fired_from_row, alert_columns, alert_from_row, get_alert, persist_alert,
  alerts_of,
}
use opa_hub.Query.Alerts.Delivery.{Delivery, timeout, queue_alert_test, wait_alert_test_delivery}

-- the values that the handlers answer with
pub data Reply (F J : Type 0) : Type 0 where
  alerts : List (Alert J) → Reply F J
  alert : Alert J → Reply F J
  history : List (Fired F) → Reply F J
  tested : Delivery F → String → String → Reply F J
  no_content : Reply F J

abbrev pub is_history : List String → Bool
is_history [] = false
is_history (w ∷ ws) = w == "history"

-- the owner of a rule that a request writes
abbrev pub owned_by : {J : Type 0} → String × String → Alert J → Alert J
owned_by (org, proj) a = record a { organization_id = org; project_id = proj }

abbrev pub with_id : {J : Type 0} → String → Alert J → Alert J
with_id fresh a = record a { id = if a.id == "" then fresh else a.id }

module _ {F : Type 0} where
  abbrev pub list_sql : Sql F
  list_sql =
      raw alert_columns
      ∷ raw "\tFROM opa.alerts FINAL WHERE "
      ∷ tenant_where ""
      ∷ raw " ORDER BY updated_at DESC"
      ∷ []

  abbrev pub history_sql : String → Sql F
  history_sql id =
      raw
        "SELECT alert_id, alert_name, condition_type, value, threshold, operator, action_type, status, message, fired_at\n\t\t\tFROM opa.alert_history WHERE alert_id = "
      ∷ quoted id
      ∷ tenant_and ""
      ∷ raw " ORDER BY fired_at DESC LIMIT 100"
      ∷ []

  abbrev pub delete_sql : String → Sql F
  delete_sql id =
      raw "ALTER TABLE opa.alerts DELETE WHERE id = " ∷ quoted id ∷ raw " AND " ∷ owned_row "" ∷ []

module _ {F J : Type 0} (codec : Codec J) where
  abbrev pub listed : String ⊎ List (Row F) → Response (Reply F J)
  listed (inl e) = write_error 500 "query_error" e
  listed (inr rows) = write_json 200 (alerts (alerts_of codec rows))

  abbrev pub told : ℕ → Reply F J → Option String → Response (Reply F J)
  told status reply none = write_json status reply
  told status reply (some e) = write_error 500 "query_error" e

  -- writes a rule and answers with it
  saved : Alert J → Db F (Response (Reply F J))
  unfolding persist_alert
  saved a = persist_alert codec a >>= (λ r. done (told 200 (alert a) r))

  created : ScopeLib F → ℕ → Option (Alert J) → Db F (Response (Reply F J))
  unfolding saved
  created l now none = refuse 400 "bad_request" ""
  created l now (some a) = saved (owned_by l.write_tenant (with_id ("alert-" ++ decimal now) a))

  -- `ServeAlerts`
  unfoldable pub serve_alerts :
      Bool → ScopeLib F → ℕ → Request (Alert J) → Db F (Response (Reply F J))
  unfolding created alerts_of
  serve_alerts writer l now req = with_writer writer (
      if req.method == "GET"
      then query list_sql (λ r. done (listed r))
      else if req.method == "POST"
      then created l now req.body
      else done (method_not_allowed "GET or POST required"))

  abbrev not_found : Response (Reply F J)
  not_found = write_error 404 "not_found" "alert not found"

  found : String ⊎ Option (Alert J) → Response (Reply F J)
  found (inl e) = not_found
  found (inr none) = not_found
  found (inr (some a)) = write_json 200 (alert a)

  recalled : String ⊎ List (Row F) → Response (Reply F J)
  recalled (inl e) = write_error 500 "query_error" e
  recalled (inr rows) = write_json 200 (history (map fired_from_row rows))

  -- the owner of the rule that a request replaces, or of the request where there is none
  abbrev pub keeping_owner : ScopeLib F → Alert J → String ⊎ Option (Alert J) → Alert J
  keeping_owner l a (inl e) = owned_by l.write_tenant a
  keeping_owner l a (inr none) = owned_by l.write_tenant a
  keeping_owner l a (inr (some old)) = owned_by (old.organization_id, old.project_id) a

  -- the write behind the search for the rule that it replaces
  resaved : ScopeLib F → String → Alert J → String ⊎ Option (Alert J) → Db F (Response (Reply F J))
  unfolding saved
  resaved l id a old = saved (keeping_owner l (record a { id = id }) old)

  replaced : ScopeLib F → String → Option (Alert J) → Db F (Response (Reply F J))
  unfolding resaved get_alert
  replaced l id none = refuse 400 "bad_request" ""
  replaced l id (some a) = get_alert codec id >>= resaved l id a

  -- the wait behind a request that is queued
  waited : ℕ → (ℕ → ℕ) → String → String ⊎ String → Db F (Response (Reply F J))
  unfolding wait_alert_test_delivery
  waited start clock id (inl e) = refuse 500 "query_error" e
  waited start clock id (inr req_id) =
      wait_alert_test_delivery start clock timeout id req_id
      >>= (λ d. done (write_json 200 (tested d req_id id)))

  fired : ℕ → ℕ → (ℕ → ℕ) → String → String ⊎ Option (Alert J) → Db F (Response (Reply F J))
  unfolding queue_alert_test waited
  fired now start clock id (inl e) = done not_found
  fired now start clock id (inr none) = done not_found
  fired now start clock id (inr (some a)) = queue_alert_test now a >>= waited start clock id

  -- the switch on the method, for a rule's id
  by_method :
      ScopeLib F → ℕ → ℕ → (ℕ → ℕ) → String → Request (Alert J) → Db F (Response (Reply F J))
  unfolding get_alert found replaced fired
  by_method l now start clock id req =
      if req.method == "GET"
      then get_alert codec id >>= (λ a. done (found a))
      else if req.method == "PUT"
      then replaced l id req.body
      else if req.method == "DELETE"
      then exec (delete_sql id) (λ r. done (told 204 no_content r))
      else if req.method == "POST"
      then get_alert codec id >>= fired now start clock id
      else done (method_not_allowed "method not allowed")

  at_parts :
      ScopeLib F → ℕ → ℕ → (ℕ → ℕ) → List String → Request (Alert J) → Db F (Response (Reply F J))
  unfolding by_method recalled
  at_parts l now start clock [] req = refuse 400 "bad_request" "alert id required"
  at_parts l now start clock (id ∷ rest) req =
      if id == ""
      then refuse 400 "bad_request" "alert id required"
      else if req.method == "GET" && is_history rest
      then query (history_sql id) (λ r. done (recalled r))
      else by_method l now start clock id req

  -- `ServeAlertsSubpath`: `now` names the request of a test, `start` is the beginning of its wait and
  -- `clock` the time at every turn of the wait
  unfoldable pub serve_alerts_subpath :
      Bool → ScopeLib F → ℕ → ℕ → (ℕ → ℕ) → Request (Alert J) → Db F (Response (Reply F J))
  unfolding at_parts split_slash trim_slash trim_prefix
  serve_alerts_subpath writer l now start clock req = with_writer writer (
      at_parts l now start clock (split_slash (trim_slash (trim_prefix req.path "/api/alerts/")))
        req)
