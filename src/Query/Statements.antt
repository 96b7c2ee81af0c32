-- ===== src/Query/Statements.antt =====
-- The statements of the handlers at concrete inputs.
use opa_hub.Prelude.{
  ℕ, suc, ◌+◌, ◌*◌, ◌≡◌, ◌≢◌, ◌≤◌, String, true, false, refl, ap, eq_iff, none, some, [], ◌∷◌, inr,
  arith,
}
use opa_hub.Text.{trim_space}
use opa_hub.Http.{Request}
use opa_hub.Query.Sql.{ScopeLib, sql_text}
use opa_hub.Query.Sql.Literals.{IsFixed}
use opa_hub.Query.Sql.Sample.{tenant_scope, tenant_scope-Escapes}
use opa_hub.Query.Db.{Accepted, done, query, exec, Every, Results, Traced}
use opa_hub.Query.Alerts.{Alert, Codec, alert_from_row, persist_sql, service_text}
use opa_hub.Query.Alerts.Columns.{inserted_row, alert_from_row-persist_sql}
use opa_hub.Query.Alerts.Delivery.{millisecond}
use opa_hub.Query.Alerts.Handler.{serve_alerts, serve_alerts_subpath}
use opa_hub.Query.Alerts.Handler.Texts.{serve_alerts-IsSpelled, serve_alerts_subpath-IsSpelled}
use opa_hub.Query.Alerts.Handler.Words.{alert_words}
use opa_hub.Query.Sql.Spelled.{IsSpelled}
use opa_hub.Query.Alerts.Handler.Scope.{IsScoped, serve_alerts_subpath-IsScoped}
use opa_hub.Query.Alerts.Handler.Ends.{IsAnswer, serve_alerts_subpath-IsAnswer}
use opa_hub.Query.Slos.{Body, told, updated, update_sql, slo_parts, serve_slos, serve_slos_subpath}
use opa_hub.Query.Slos.Texts.{serve_slos-IsFixed}
use opa_hub.Query.Slos.Update.{update_ignores_tenant}
use opa_hub.Query.Diagnostics.{Outside, snapshot_sql}
use opa_hub.Query.Diagnostics.Schema.Created.{IsHonest}
use opa_hub.Query.Diagnostics.Suspects.{Values}
use opa_hub.Query.Diagnostics.Handler.{heap, serve, found}
use opa_hub.Query.Diagnostics.Handler.Retry.{IsRaised, serve-IsRaised}
use opa_hub.Query.Diagnostics.Handler.Ready.{serve-IsHonest}
use opa_hub.Query.Diagnostics.Handler.Unscoped.{snapshot_ignores_tenant}

-- a configuration is its JSON text
abbrev plain : Codec String
plain = record { unmarshal = λ s. s; marshal = λ s. s }

abbrev latency_rule : Alert String
latency_rule = record {
  id = "a1";
  name = "it's slow";
  description = "";
  enabled = true;
  condition_type = "threshold";
  condition_config = "{}";
  action_type = "webhook";
  action_config = "{}";
  service = some "api";
  organization_id = "o1";
  project_id = "p1";
}

abbrev rule_request : String → Request (Alert String)
rule_request verb = record {
  method = verb;
  path = "/api/alerts/a1";
  header = λ k. "";
  query = λ k. "";
  body = some latency_rule;
}

-- a clock that advances half a second at every turn
abbrev clock : ℕ → ℕ
clock i = 1000 + i * (500 * millisecond)

clock_sleeps : (i : ℕ) → clock i + 400 * millisecond ≤ clock (suc i)
clock_sleeps i = omega arith

serve_alerts-IsSpelled_example :
    Every
      (IsSpelled tenant_scope alert_words)
      (serve_alerts plain true tenant_scope 7 (rule_request "POST"))
serve_alerts-IsSpelled_example =
    serve_alerts-IsSpelled plain tenant_scope tenant_scope-Escapes true 7 (rule_request "POST")

serve_alerts_subpath-IsSpelled_example :
    Every
      (IsSpelled tenant_scope alert_words)
      (serve_alerts_subpath plain true tenant_scope 7 1000 clock (rule_request "PUT"))
serve_alerts_subpath-IsSpelled_example =
    serve_alerts_subpath-IsSpelled plain tenant_scope tenant_scope-Escapes true 7 1000 clock
      (rule_request "PUT")

serve_alerts_subpath-IsScoped_example :
    Every IsScoped
      (serve_alerts_subpath plain true tenant_scope 7 1000 clock (rule_request "DELETE"))
serve_alerts_subpath-IsScoped_example =
    serve_alerts_subpath-IsScoped plain tenant_scope true 7 1000 clock (rule_request "DELETE")
      (inr refl)

serve_alerts_subpath-IsAnswer_example :
    Results IsAnswer
      (serve_alerts_subpath plain true tenant_scope 7 1000 clock (rule_request "POST"))
serve_alerts_subpath-IsAnswer_example =
    serve_alerts_subpath-IsAnswer plain tenant_scope 1000 clock (omega arith) clock_sleeps true 7
      (rule_request "POST")

api_named : latency_rule.service ≢ some ""
api_named e = let h : "api" ≡ "" = ap service_text e in ground (arith, eq_iff "api" "")

alert_from_row-persist_sql_example :
    alert_from_row plain (inserted_row {F = ℕ} 0 (persist_sql plain latency_rule)) ≡ latency_rule
alert_from_row-persist_sql_example =
    alert_from_row-persist_sql plain 0 latency_rule (λ x. refl) api_named

abbrev objective : Body ℕ
objective = record { id = none; map_string = λ k. "it's"; map_float = λ k. 99; map_uint = λ k. 720 }

abbrev objective_request : String → Request (Body ℕ)
objective_request verb = record {
  method = verb;
  path = "/api/slos/s1";
  header = λ k. "";
  query = λ k. "";
  body = some objective;
}

serve_slos-IsFixed_example :
    Every (IsFixed tenant_scope) (serve_slos true tenant_scope 7 (objective_request "POST"))
serve_slos-IsFixed_example =
    serve_slos-IsFixed tenant_scope tenant_scope-Escapes true 7 (objective_request "POST")

-- another tenant
abbrev other_scope : ScopeLib ℕ
other_scope = record tenant_scope {
  scope_and = λ a. " AND organization_id = 'o2'";
  owned_row_predicate = λ a. "organization_id = 'o2'";
  write_tenant = ("o2", "p2");
}

s1_parts : slo_parts "/api/slos/s1" ≡ "s1" ∷ []
unfolding slo_parts
s1_parts = refl

s1_named : ◌≢◌ {A = String} "s1" ""
s1_named e = ground (arith, eq_iff "s1" "")

update_ignores_tenant_example :
    (serve_slos_subpath true (objective_request "PUT")
      ≡ exec (update_sql "s1" objective) (λ r. done (told 200 updated r)))
    × (sql_text other_scope (update_sql "s1" objective)
        ≡ sql_text tenant_scope (update_sql "s1" objective))
update_ignores_tenant_example =
    update_ignores_tenant tenant_scope other_scope (objective_request "PUT") objective "s1" refl
      refl s1_parts s1_named refl refl

abbrev counts : Values ℕ String
counts = record {
  zero_value = 0;
  risen = λ a b. true;
  to_int = λ x. x;
  share = λ e c. e;
  percent = λ x. "1.00";
  commits = λ s. [];
  decoded = λ s. s;
}

abbrev outside : Outside
outside = record {
  sha1_hex = λ parts. "0123456789abcdef0123";
  now_text = "2026-01-01 00:00:00.000";
  parse_rfc3339 = λ s. none;
}

abbrev heap_request : Request Unit
heap_request = record {
  method = "GET";
  path = "/api/diagnostics/heap";
  header = λ k. "";
  query = λ k. "h1";
  body = none;
}

serve-IsHonest_example :
    Traced
      (IsHonest false)
      []
      (serve counts (λ xs. xs) true tenant_scope outside false (heap heap_request))
serve-IsHonest_example =
    serve-IsHonest counts (λ xs. xs) true tenant_scope outside false (heap heap_request)

h1_named : ◌≢◌ {A = String} (trim_space (heap_request.query "id")) ""
unfolding trim_space
h1_named e = ground (arith, eq_iff "h1" "")

snapshot_ignores_tenant_example :
    (serve counts (λ xs. xs) true tenant_scope outside true (heap heap_request)
      ≡ query (snapshot_sql (trim_space "h1")) (λ r. done (true, found counts r)))
    × (sql_text other_scope (snapshot_sql (trim_space "h1"))
        ≡ sql_text tenant_scope (snapshot_sql (trim_space "h1")))
snapshot_ignores_tenant_example =
    snapshot_ignores_tenant counts (λ xs. xs) tenant_scope other_scope outside heap_request refl
      h1_named refl

serve-IsRaised_example :
    Accepted IsRaised (serve counts (λ xs. xs) true tenant_scope outside false (heap heap_request))
serve-IsRaised_example =
    serve-IsRaised counts (λ xs. xs) tenant_scope outside false (heap heap_request) refl
