-- ===== src/Query/Alerts/Handler/Words.antt =====
-- The texts that the statements of the alert handlers are made of, those for an empty rule.
use opa_hub.Prelude.{String, none, List, ◌∷◌, ◌++◌, false}
use opa_hub.Query.Sql.Spelled.{words}
use opa_hub.Query.Alerts.{Codec, Alert, get_sql, persist_sql}
use opa_hub.Query.Alerts.Delivery.{alert_test_requests_ddl, request_sql, poll_sql}
use opa_hub.Query.Alerts.Handler.{list_sql, history_sql, delete_sql}

abbrev empty_codec : Codec (Unit {0})
empty_codec = record { unmarshal = λ s. tt; marshal = λ x. "" }

abbrev empty_rule : Alert (Unit {0})
empty_rule = record {
  id = "";
  name = "";
  description = "";
  enabled = false;
  condition_type = "";
  condition_config = tt;
  action_type = "";
  action_config = tt;
  service = none;
  organization_id = "";
  project_id = "";
}

abbrev pub alert_words : List String
alert_words =
    alert_test_requests_ddl
    ∷ (words {F = Unit} (get_sql "")
        ++ (words {F = Unit} (persist_sql empty_codec empty_rule)
            ++ (words {F = Unit} list_sql
                ++ (words {F = Unit} (history_sql "")
                    ++ (words {F = Unit} (delete_sql "")
                        ++ (words {F = Unit} (request_sql empty_rule "")
                            ++ words {F = Unit} (poll_sql "" "")))))))
