-- ===== src/Query/Alerts/Delivery.antt =====
-- The test of an alert rule: `queueAlertTest` and `waitAlertTestDelivery`. Time is in nanoseconds; the
-- clock gives the time at every turn of the loop.
pub mod Wait
use Prim.Native.String.{◌++◌}
use opa_hub.Prelude.{
  ℕ, zero, suc, ◌+◌, ◌*◌, String, Option, none, some, List, [], ◌∷◌, ◌⊎◌, inl, inr, ltb,
  if◌then◌else◌,
}
use opa_hub.Query.Numbers.{decimal}
use opa_hub.Query.Sql.{raw, quoted, Sql}
use opa_hub.Query.Db.{Row, Db, done, query, exec}
use opa_hub.Query.Alerts.{Alert, Fired, fired_from_row}

-- `alertTestRequestsDDL`
abbrev pub alert_test_requests_ddl : String
alert_test_requests_ddl =
    "CREATE TABLE IF NOT EXISTS opa.alert_test_requests\n(\n    organization_id String DEFAULT '',\n    project_id      String DEFAULT '',\n    request_id      String,\n    alert_id        String,\n    requested_at    DateTime64(3) DEFAULT now64(3),\n    updated_at      DateTime64(3) DEFAULT now64(3),\n    status          String DEFAULT 'pending'\n)\nENGINE = ReplacingMergeTree(updated_at)\nORDER BY (organization_id, project_id, request_id)\nTTL toDateTime(requested_at) + INTERVAL 7 DAY"

abbrev pub millisecond : ℕ
millisecond = 1000000

abbrev pub timeout : ℕ
timeout = 12000 * millisecond

-- the turns of the loop that are enough
abbrev pub polls : ℕ
polls = 31

-- how the wait ends; `unfinished` is a loop that is out of fuel
pub data Delivery (F : Type 0) : Type 0 where
  delivered : Fired F → Delivery F
  queued : Delivery F
  unfinished : Delivery F

inserted : String → Option String → String ⊎ String
inserted req_id none = inr req_id
inserted req_id (some e) = inl e

module _ {F : Type 0} where
  abbrev pub request_sql : {J : Type 0} → Alert J → String → Sql F
  request_sql a req_id =
      raw
        "INSERT INTO opa.alert_test_requests\n\t\t(organization_id, project_id, request_id, alert_id, requested_at, updated_at, status)\n\t\tVALUES ("
      ∷ quoted a.organization_id
      ∷ raw ","
      ∷ quoted a.project_id
      ∷ raw ","
      ∷ quoted req_id
      ∷ raw ","
      ∷ quoted a.id
      ∷ raw ", now64(3), now64(3), 'pending')"
      ∷ []

  -- `ensureAlertTestRequestsTable`
  abbrev pub ensure_alert_test_requests_table : Db F (Option String)
  ensure_alert_test_requests_table = exec (raw alert_test_requests_ddl ∷ []) done

  requested : {J : Type 0} → Alert J → String → Option String → Db F (String ⊎ String)
  unfolding inserted
  requested a req_id (some e) = done (inl e)
  requested a req_id none = exec (request_sql a req_id) (λ r. done (inserted req_id r))

  -- `queueAlertTest`: an error's text, or the id of the request
  unfoldable pub queue_alert_test : {J : Type 0} → ℕ → Alert J → Db F (String ⊎ String)
  unfolding requested
  queue_alert_test now a =
      exec (raw alert_test_requests_ddl ∷ []) (requested a ("test-" ++ decimal now))

  abbrev pub poll_sql : String → String → Sql F
  poll_sql alert_id request_id =
      raw
        "SELECT alert_id, alert_name, condition_type, value, threshold, operator, action_type, status, message, fired_at\n\t\t\tFROM opa.alert_history\n\t\t\tWHERE alert_id = "
      ∷ quoted alert_id
      ∷ raw " AND position(message, "
      ∷ quoted ("request_id=" ++ request_id)
      ∷ raw ") > 0\n\t\t\tORDER BY fired_at DESC LIMIT 1"
      ∷ []

  -- a poll that finds a row ends the loop, another one goes on
  abbrev pub polled : String ⊎ List (Row F) → Db F (Delivery F) → Db F (Delivery F)
  polled (inl e) again = again
  polled (inr []) again = again
  polled (inr (row ∷ rows)) again = done (delivered (fired_from_row row))

  -- the loop of `waitAlertTestDelivery` from turn `k`
  unfoldable pub wait_from : ℕ → ℕ → (ℕ → ℕ) → ℕ → Sql F → Db F (Delivery F)
  wait_from zero k clock deadline sql = done unfinished
  wait_from (suc fuel) k clock deadline sql =
      let again = wait_from fuel (suc k) clock deadline sql in
      if ltb (clock k) deadline then query sql (λ r. polled r again) else done queued

  -- `waitAlertTestDelivery` for a wait that begins at `start`
  unfoldable pub wait_alert_test_delivery : ℕ → (ℕ → ℕ) → ℕ → String → String → Db F (Delivery F)
  unfolding wait_from
  wait_alert_test_delivery start clock limit alert_id request_id =
      wait_from polls 0 clock (start + limit) (poll_sql alert_id request_id)
