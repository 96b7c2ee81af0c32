-- ===== src/Auth/Accounts.antt =====
-- internal/auth/auth.go: the handlers under /api/auth. The users are the state of the local issuer.
pub mod Escalation
use mathlib.Core.Bool.{not, ◌&&◌, ◌||◌}
use opa_hub.Prelude.{
  ℕ, String, Bool, true, false, Option, none, some, List, [], ◌==◌, ltb, is_some, if◌then◌else◌,
}
use opa_hub.Text.{byte_len, trim_space}
use opa_hub.Http.{Request, Response, write_error, write_json, method_not_allowed, bearer_token}
use opa_hub.Auth.{
  UserClaims, AuthLib, Handler, oam_auth_configured, parse_token, claims_from_request,
}

pub record RegisterBody : Type 0 where
  pub username : String
  pub password : String
  pub role : String
  pub org_id : String
  pub project_ids : List String

-- The `user` of an answer; an empty organization and an empty project list are left out of its JSON.
pub record UserReply : Type 0 where
  pub username : String
  pub role : String
  pub org_id : String
  pub project_ids : List String

pub record LoginReply : Type 0 where
  pub token : String
  pub expires_at : ℕ
  pub user : UserReply

pub record Credentials : Type 0 where
  pub username : String
  pub password : String

-- A login is handed to OAM under a path, or is answered here.
pub data Login : Type 0 where
  proxied : String → Login
  answered : Response LoginReply → Login

pub record Status : Type 0 where
  pub authenticated : Bool
  pub auth_required : Bool
  pub issuer : String
  pub public_url : String
  pub oam_login : Bool
  pub user : Option UserReply

abbrev pub user_reply : UserClaims → UserReply
user_reply claims = record {
  username = claims.username;
  role = claims.role;
  org_id = claims.org_id;
  project_ids = claims.project_ids;
}

module _ (l : AuthLib) (env : String) (h : Handler) where
  -- `ServeLogin`
  unfoldable pub serve_login : Request Credentials → l.Users → Login
  serve_login r users =
      if not (r.method == "POST")
      then answered (method_not_allowed "POST required")
      else if oam_auth_configured env h.auth_mode
      then proxied "/api/auth/login"
      else elim r.body [
        | none ↦ answered (write_error 400 "bad_request" "invalid JSON body")
        | some creds ↦ elim (l.login users creds.username creds.password) [
          | none ↦ answered (write_error 401 "unauthorized" "invalid credentials")
          | some (token, expires, claims) ↦ answered (
              write_json 200
                (record { token = token; expires_at = expires; user = user_reply claims }))
        ]
      ]

  -- `callerOK && HasPermission(caller.Role, "admin")`
  abbrev pub is_admin : Option UserClaims → Bool
  is_admin none = false
  is_admin (some claims) = l.has_permission claims.role "admin"

  -- the role that a new user gets
  unfoldable pub granted_role : Bool → String → String
  granted_role admin asked =
      let given = trim_space asked in
      let role = if given == "" then "viewer" else given in
      if not (role == "viewer") && not admin then "viewer" else role

  -- the answer of `RegisterWithMembership`, with the new users if it accepts
  registered : l.Users → Option l.Users → UserReply → String → l.Users × Response UserReply
  unfolding byte_len
  registered users (some users') user password = (users', write_json 200 user)
  registered users none user password =
      if user.username == "" || ltb (byte_len password) 8
      then (users, write_error 400 "bad_request" "username and password (>=8) required")
      else (users, write_error 409 "conflict" "username already registered")

  -- what `ServeRegister` does with a body
  pub register_user : Bool → l.Users → RegisterBody → l.Users × Response UserReply
  unfolding granted_role registered
  register_user admin users body =
      let user : UserReply = record {
        username = trim_space body.username;
        role = granted_role admin body.role;
        org_id = if admin then trim_space body.org_id else "";
        project_ids = if admin then l.normalize_project_ids body.project_ids else [];
      } in
      registered users
        (l.register_with_membership users user.username body.password user.role user.org_id
          user.project_ids)
        user body.password

  -- `ServeRegister`
  unfoldable pub serve_register : Request RegisterBody → l.Users → l.Users × Response UserReply
  serve_register r users =
      let caller = claims_from_request l env h r.header in
      if not (r.method == "POST")
      then (users, method_not_allowed "POST required")
      else if oam_auth_configured env h.auth_mode
      then (
        users,
        write_error 503 "oam_identity_home"
            "user registration is managed by OAM — use OAM /api/users/set",
      )
      else if h.auth_required && not (is_some caller)
      then (users, write_error 401 "unauthorized" "authentication required")
      else if h.auth_required && not (is_admin caller)
      then (users, write_error 403 "forbidden" "admin required to register users")
      else elim r.body [
        | none ↦ (users, write_error 400 "bad_request" "invalid JSON body")
        | some body ↦ register_user (is_admin caller) users body
      ]

  -- `ServeStatus`
  unfoldable pub serve_status : Request Unit → Response Status
  serve_status r =
      if not (r.method == "GET")
      then method_not_allowed "GET required"
      else let claims : Option UserClaims = elim (bearer_token (r.header "Authorization")) [
        | none ↦ none
        | some token ↦ parse_token l env h token
      ] in
        let user : Option UserReply = elim claims [ none ↦ none | some c ↦ some (user_reply c) ] in
        write_json 200 (record {
          authenticated = is_some claims;
          auth_required = h.auth_required;
          issuer = h.issuer;
          public_url = h.public_url;
          oam_login = oam_auth_configured env h.auth_mode;
          user = user;
        })

-- `ServeLogout`
unfoldable pub serve_logout : Request Unit → Response Bool
serve_logout r =
    if not (r.method == "POST") && not (r.method == "GET")
    then method_not_allowed "POST required"
    else write_json 200 true
