-- ===== src/Auth.antt =====
-- internal/auth: who may call the hub. The package open-auth-go (tokens, roles, tenant headers and
-- the local users) is not part of the repository: its functions are the parameter `AuthLib`.
pub mod Gate
pub mod Accounts
pub mod Tests
use mathlib.Core.Bool.{not, ◌&&◌, ◌||◌}
use opa_hub.Prelude.{ℕ, String, Bool, true, false, Option, none, some, List, ◌==◌, if◌then◌else◌}
use opa_hub.Text.{trim_space, trim_right_slash, lower_equals}
use opa_hub.Http.{bearer_token}

-- `openauth.UserClaims`
pub record UserClaims : Type 0 where
  pub username : String
  pub role : String
  pub org_id : String
  pub project_ids : List String
  pub issuer : String

-- `openauth.ServiceClaims`
pub record ServiceClaims : Type 0 where
  pub org_id : String
  pub issuer : String
  pub scope : String

abbrev pub Headers : Type 0
Headers = String → String

pub record AuthLib : Type 1 where
  -- `ParseUserJWT(token, secret)`, none on an error
  pub parse_user_jwt : String → String → Option UserClaims
  -- `HasPermission(role, required)`
  pub has_permission : String → String → Bool
  -- `ApplyUserTenantHeaders(r, claims)`: the headers that it leaves, none on an error
  pub apply_user_tenant_headers : Headers → UserClaims → Option Headers
  -- `EnforceProjectACL(r, claims)`: whether it returns no error
  pub enforce_project_acl : Headers → UserClaims → Bool
  -- `ValidateServiceJWT(token, secret, audience)`
  pub validate_service_jwt : String → String → String → Option ServiceClaims
  -- `RequireScope(claims, scope)`: whether it returns no error
  pub require_scope : ServiceClaims → String → Bool
  -- `NormalizeProjectIDs`
  pub normalize_project_ids : List String → List String
  -- the users of a `LocalIssuer`
  pub Users : Type 0
  -- `Login(username, password)`: the token, its expiry and the claims
  pub login : Users → String → String → Option (String × ℕ × UserClaims)
  -- `RegisterWithMembership(username, password, role, org, projects)`
  pub register_with_membership :
      Users → String → String → String → String → List String → Option Users

-- The fields of `Handler` but for the local users, which are state.
pub record Handler : Type 0 where
  pub jwt_secret : String
  pub service_secret : String
  pub auth_required : Bool
  pub public_url : String
  pub issuer : String
  pub auth_mode : String

-- `peerOAMURL`, of the environment variable PEER_OAM_URL
unfoldable pub peer_oam_url : String → String
unfolding trim_space trim_right_slash
peer_oam_url env = trim_right_slash (trim_space env)

-- `oamAuthConfigured`
unfoldable pub oam_auth_configured : String → String → Bool
unfolding peer_oam_url lower_equals
oam_auth_configured env auth_mode =
    let mode = trim_space auth_mode in
    if peer_oam_url env == ""
    then false
    else not
        (lower_equals mode "standalone" || (lower_equals mode "local" || lower_equals mode "solo"))

-- `New`, but for the local issuer, whose secret is an argument
unfoldable pub new_handler : String → String → Bool → String → String → String → Handler
unfolding oam_auth_configured
new_handler env local_secret auth_required public_url service_secret auth_mode = record {
  jwt_secret = local_secret;
  service_secret = trim_space service_secret;
  auth_required = auth_required;
  public_url = public_url;
  issuer = if oam_auth_configured env auth_mode then "oam-api" else "opa-hub";
  auth_mode = auth_mode;
}

module _ (l : AuthLib) (env : String) (h : Handler) where
  -- the issuer test of `parseToken`
  checked : Option UserClaims → Option UserClaims
  checked none = none
  checked (some claims) =
      let iss = trim_space claims.issuer in
      if oam_auth_configured env h.auth_mode && (not (iss == "") && not (iss == "oam-api"))
      then none
      else some claims

  -- `parseToken`
  unfoldable pub parse_token : String → Option UserClaims
  unfolding checked
  parse_token token = checked (l.parse_user_jwt token h.jwt_secret)

  -- `claimsFromRequest`
  unfoldable pub claims_from_request : Headers → Option UserClaims
  claims_from_request header = elim (bearer_token (header "Authorization")) [
    | none ↦ none
    | some token ↦ parse_token token
  ]
