-- ===== src/Auth/Tests.antt =====
-- The wrappers and the account handlers with a small package of tokens: the token "root" belongs to
-- an admin, "ann" to a viewer, and "svc" to a service.
use opa_hub.Prelude.{
  String, true, false, ◌≡◌, ◌⊎◌, refl, Option, none, some, List, [], ◌∷◌, ◌==◌, ◌||◌, if◌then◌else◌,
}
use opa_hub.Text.{trim_space}
use opa_hub.Http.{Request, bearer_token}
use opa_hub.Auth.{
  UserClaims, AuthLib, Handler, claims_from_request, parse_token, oam_auth_configured,
}
use opa_hub.Auth.Gate.{pass, require, require_read_write, require_user_or_service}
use opa_hub.Auth.Gate.Laws.{
  RequireOutcome, EitherOutcome, require_cases, require_user_or_service_cases,
}
use opa_hub.Auth.Accounts.{RegisterBody, is_admin, serve_register}
use opa_hub.Auth.Accounts.Escalation.{serve_register_no_escalation}

abbrev pub claims_of : String → String → UserClaims
claims_of name role = record {
  username = name;
  role = role;
  org_id = "acme";
  project_ids = [];
  issuer = "opa-hub";
}

abbrev pub small_lib : AuthLib
small_lib = record {
  parse_user_jwt = λ token secret.
      if token == "root"
      then some (claims_of "root" "admin")
      else if token == "ann"
      then some (claims_of "ann" "viewer")
      else none;
  has_permission = λ role required. role == "admin" || role == required;
  apply_user_tenant_headers = λ header claims. some header;
  enforce_project_acl = λ header claims. true;
  validate_service_jwt = λ token secret audience.
      if token == "svc"
      then some (record { org_id = "acme"; issuer = "oam-api"; scope = "read" })
      else none;
  require_scope = λ sc scope. sc.scope == scope;
  normalize_project_ids = λ ids. ids;
  Users = List String;
  login = λ users name password. none;
  register_with_membership = λ users name password role org projects. some (name ∷ users);
}

abbrev pub guarded_hub : Handler
guarded_hub = record {
  jwt_secret = "k";
  service_secret = "";
  auth_required = true;
  public_url = "";
  issuer = "opa-hub";
  auth_mode = "standalone";
}

abbrev pub as_token : {B : Type 0} → String → String → Option B → Request B
as_token method token b = record {
  method = method;
  path = "/api/stats";
  query = λ k. "";
  body = b;
  header = λ k. if k == "Authorization" then token else "";
}

abbrev ann_gets : Request Unit
ann_gets = as_token "GET" "Bearer ann" none

abbrev root_posts : Request Unit
root_posts = as_token "POST" "Bearer root" none

abbrev mallory : RegisterBody
mallory = record {
  username = "mallory";
  password = "password";
  role = "admin";
  org_id = "acme";
  project_ids = [];
}

abbrev ann_registers : Request RegisterBody
ann_registers = as_token "POST" "Bearer ann" (some mallory)

require_cases_example :
    RequireOutcome small_lib "" guarded_hub "viewer" ann_gets
      (require small_lib "" guarded_hub "viewer" ann_gets)
require_cases_example = require_cases small_lib "" guarded_hub "viewer" ann_gets refl

root_passes :
    require_read_write small_lib "" guarded_hub root_posts
    ≡ pass root_posts (some (claims_of "root" "admin"))
unfolding require_read_write claims_from_request parse_token bearer_token oam_auth_configured
root_passes = refl

require_user_or_service_cases_example :
    EitherOutcome small_lib "" guarded_hub "viewer" "read" ann_gets
      (require_user_or_service small_lib "" guarded_hub "viewer" "read" ann_gets)
require_user_or_service_cases_example =
    require_user_or_service_cases small_lib "" guarded_hub "viewer" "read" ann_gets refl

ann_passes :
    require_user_or_service small_lib "" guarded_hub "viewer" "read" ann_gets
    ≡ pass ann_gets (some (claims_of "ann" "viewer"))
unfolding require_user_or_service parse_token bearer_token oam_auth_configured
ann_passes = refl

ann_plain :
    is_admin small_lib "" guarded_hub
      (claims_from_request small_lib "" guarded_hub ann_registers.header)
    ≡ false
unfolding claims_from_request parse_token bearer_token oam_auth_configured
ann_plain = refl

serve_register_no_escalation_example :
    ((serve_register small_lib "" guarded_hub ann_registers []).0 ≡ [])
    ⊎ ((body : RegisterBody) × (ann_registers.body ≡ some body)
        × (small_lib.register_with_membership []
              (trim_space body.username)
              body.password
              "viewer"
              ""
              []
            ≡ some (serve_register small_lib "" guarded_hub ann_registers []).0))
serve_register_no_escalation_example =
    serve_register_no_escalation small_lib "" guarded_hub ann_registers [] ann_plain
