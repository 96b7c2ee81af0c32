-- ===== src/Auth/Gate.antt =====
-- internal/auth/middleware.go: the wrappers `Require`, `RequireReadWrite`, `Middleware` and
-- `RequireUserOrService`. A wrapper answers a request itself, or hands it to the next handler with
-- the headers as it leaves them and the claims that it puts into the context.
pub mod Laws
use mathlib.Core.Bool.{not, ◌&&◌, ◌||◌}
use opa_hub.Prelude.{ℕ, String, Bool, Option, none, some, ◌==◌, if◌then◌else◌}
use opa_hub.Text.{trim_space}
use opa_hub.Http.{Request, set_header, bearer_token}
use opa_hub.Auth.{UserClaims, ServiceClaims, AuthLib, Handler, parse_token, claims_from_request}

pub data Gate (B : Type 0) : Type 0 where
  deny : ℕ → String → String → Gate B
  pass : Request B → Option UserClaims → Gate B

-- the methods that `RequireReadWrite` takes for mutations
abbrev pub is_mutation : String → Bool
is_mutation method =
    method == "POST" || (method == "PUT" || (method == "PATCH" || method == "DELETE"))

abbrev pub role_for : String → String
role_for method = if is_mutation method then "editor" else "viewer"

-- the service token of a request, if the hub has a secret for such tokens
unfoldable pub service_claims : AuthLib → Handler → String → Option ServiceClaims
service_claims l h token =
    if h.service_secret == "" then none else l.validate_service_jwt token h.service_secret "opa-hub"

-- the request behind a valid service token: with its organization, if it names one
abbrev pub service_request : {B : Type 0} → ServiceClaims → Request B → Request B
service_request sc r =
    let org = trim_space sc.org_id in if org == "" then r else set_header "X-Organization-ID" org r

module _ (l : AuthLib) (env : String) (h : Handler) {B : Type 0} where
  -- the claims' tenant and projects, once the role is accepted
  admit : Request B → UserClaims → Gate B
  admit r claims = elim (l.apply_user_tenant_headers r.header claims) [
    | none ↦ deny 403 "forbidden" "tenant mismatch"
    | some header ↦
        if l.enforce_project_acl header claims
        then pass (record r { header = header }) (some claims)
        else deny 403 "forbidden" "project access denied"
  ]

  -- the tests behind a valid user token
  check_user : String → Request B → UserClaims → Gate B
  unfolding admit
  check_user required_role r claims =
      if not (required_role == "") && not (l.has_permission claims.role required_role)
      then deny 403 "forbidden" "insufficient role"
      else admit r claims

  -- `Require`
  unfoldable pub require : String → Request B → Gate B
  unfolding check_user
  require required_role r =
      if not h.auth_required then pass r none else elim (claims_from_request l env h r.header) [
        | none ↦ deny 401 "unauthorized" "authentication required"
        | some claims ↦ check_user required_role r claims
      ]

  -- `RequireReadWrite`, which `Middleware` is
  unfoldable pub require_read_write : Request B → Gate B
  unfolding require
  require_read_write r = require (role_for r.method) r

  -- the branch of a valid service token
  check_service : String → Request B → ServiceClaims → Gate B
  check_service scope r sc =
      if not (scope == "") && not (l.require_scope sc scope)
      then deny 403 "forbidden" "missing scope"
      else pass (service_request sc r) none

  -- `RequireUserOrService`
  unfoldable pub require_user_or_service : String → String → Request B → Gate B
  unfolding check_service check_user service_claims
  require_user_or_service required_role scope r =
      if not h.auth_required then pass r none else elim (bearer_token (r.header "Authorization")) [
        | none ↦ deny 401 "unauthorized" "authentication required"
        | some token ↦ elim (service_claims l h token) [
          | some sc ↦ check_service scope r sc
          | none ↦ elim (parse_token l env h token) [
            | none ↦ deny 401 "unauthorized" "authentication required"
            | some claims ↦ check_user required_role r claims
          ]
        ]
      ]
