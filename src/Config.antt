-- ===== src/Config.antt =====
-- internal/config/config.go: the settings that the hub reads from its environment, which is a function
-- from the name of a variable to its value, "" for one that is not set. What `durationEnv` makes of a
-- text is an argument.
mod Tests
use mathlib.Core.Bool.{◌||◌}
use opa_hub.Prelude.{
  ℕ, String, Bool, true, false, ◌≡◌, ◌≢◌, ◌==◌, eq_iff, arith, ℤ, Bool-cases, inl, inr,
  if◌then◌else◌,
}
use opa_hub.Text.{trim_space, lower_equals}

abbrev pub Environment : Type 0
Environment = String → String

-- `Config`, less AuthMode, which is the lower-case text of AUTH_MODE
pub record Config : Type 0 where
  pub listen_addr : String
  pub jwt_secret : String
  pub service_jwt_secret : String
  pub click_house_url : String
  pub click_house_database : String
  pub click_house_user : String
  pub click_house_password : String
  pub opa_public_url : String
  pub enroll_token : String
  pub auth_required : Bool
  pub agent_stale_after : ℤ
  pub cors_origin : String

-- `env`
unfoldable pub env : Environment → String → String → String
env getenv k def = if getenv k == "" then def else getenv k

-- `clickHouseDB`
unfoldable pub click_house_db : Environment → String
unfolding trim_space
click_house_db getenv =
    if trim_space (getenv "CLICKHOUSE_DB") == ""
    then (if trim_space (getenv "CLICKHOUSE_DATABASE") == ""
        then "opa"
        else trim_space (getenv "CLICKHOUSE_DATABASE"))
    else trim_space (getenv "CLICKHOUSE_DB")

-- `truthy`
unfoldable pub truthy : String → Bool
unfolding trim_space lower_equals
truthy v =
    let s = trim_space v in
    lower_equals s "1" || (lower_equals s "true" || (lower_equals s "yes" || lower_equals s "on"))

-- `Load`, of the environment and the duration behind OPA_HUB_AGENT_STALE_AFTER
unfoldable pub load : Environment → ℤ → Config
unfolding env click_house_db truthy
load getenv stale_after = record {
  listen_addr = env getenv "LISTEN_ADDR" ":8080";
  jwt_secret = getenv "JWT_SECRET";
  service_jwt_secret = getenv "OPEN_SERVICE_JWT_SECRET";
  click_house_url = env getenv "CLICKHOUSE_URL" "http://clickhouse:8123";
  click_house_database = click_house_db getenv;
  click_house_user = getenv "CLICKHOUSE_USER";
  click_house_password = getenv "CLICKHOUSE_PASSWORD";
  opa_public_url = getenv "OPA_PUBLIC_URL";
  enroll_token = getenv "OPA_HUB_ENROLL_TOKEN";
  auth_required = truthy (getenv "OPA_AUTH_REQUIRED");
  agent_stale_after = stale_after;
  cors_origin = getenv "CORS_ORIGIN";
}

env-ne_nil : (getenv : Environment) (k def : String) → def ≢ "" → env getenv k def ≢ ""
unfolding env
env-ne_nil getenv k def n = ground (arith, eq_iff (getenv k) "")

click_house_db-ne_nil : (getenv : Environment) → click_house_db getenv ≢ ""
unfolding click_house_db
click_house_db-ne_nil getenv = ground (
  arith,
  eq_iff (trim_space (getenv "CLICKHOUSE_DB")) "",
  eq_iff (trim_space (getenv "CLICKHOUSE_DATABASE")) "",
  eq_iff "opa" "",
)

-- Under every environment the hub has an address to listen on, and a URL and a database of ClickHouse.
pub load-ne_nil :
    (getenv : Environment) (stale_after : ℤ)
    → ((load getenv stale_after).listen_addr ≢ "")
      × ((load getenv stale_after).click_house_url ≢ "")
      × ((load getenv stale_after).click_house_database ≢ "")
unfolding load
load-ne_nil getenv stale_after = (
  env-ne_nil getenv "LISTEN_ADDR" ":8080" (ground (arith, eq_iff ":8080" "")),
  env-ne_nil getenv "CLICKHOUSE_URL" "http://clickhouse:8123"
      (ground (arith, eq_iff "http://clickhouse:8123" "")),
  click_house_db-ne_nil getenv,
)
