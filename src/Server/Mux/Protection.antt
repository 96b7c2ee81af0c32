-- ===== src/Server/Mux/Protection.antt =====
-- Which handlers a request can reach without an identity.
use Prim.Native.String.{len}
use mathlib.Core.Path.{subst}
use mathlib.Core.Bool.{not, ◌&&◌}
use opa_hub.Prelude.{
  String, Bool, true, ◌≡◌, ◌≢◌, ◌⊎◌, refl, sym, ◌∙◌, Option, some, List, [], ◌∷◌, ◌==◌, eq_iff,
  arith, any, ap, ltb, Bool-cases, Option-cases, inl, inr, if◌then◌else◌,
}
use opa_hub.Http.{Request, bearer_token}
use opa_hub.Auth.{UserClaims, ServiceClaims, AuthLib, Handler, claims_from_request, parse_token}
use opa_hub.Auth.Gate.{
  Gate, is_mutation, role_for, deny, pass, require, require_read_write, require_user_or_service,
  service_claims,
}
use opa_hub.Auth.Gate.Laws.{
  UserOutcome, require_cases, require_read_write-role, require_user_or_service_cases, denied-pass,
}
use opa_hub.Server.Routes.{Guard, unguarded, read_write, at_least, user_or_service, Route, routes}
use opa_hub.Server.Mux.{best, matches, handled, through, guarded, dispatch, serve}

-- the handlers that the hub leaves open
abbrev pub public_handlers : List String
public_handlers =
    "s.handleHealth" ∷ "regH.ServeRegister" ∷ "regH.ServeHeartbeat" ∷ "ingH.ServePush"
    ∷ "authH.ServeLogin" ∷ "authH.ServeRegister" ∷ "authH.ServeLogout" ∷ "authH.ServeStatus"
    ∷ "s.handlePeerHealth" ∷ []

-- the handlers that a service token opens
abbrev pub service_handlers : List String
service_handlers =
    "s.handleTenancyOrganizations" ∷ "s.handleOAMProjects" ∷ "s.handleGitHubStatus" ∷ []

-- the handlers that want an admin
abbrev pub admin_handlers : List String
admin_handlers = "queryH.ServeAdmin" ∷ "queryH.ServeAudit" ∷ []

abbrev pub listed : String → List String → Bool
listed name l = any (λ s. s == name) l

-- the role that a user needs for a handler
abbrev pub role_needed : String → String → String
role_needed name method =
    if listed name admin_handlers
    then "admin"
    else if listed name service_handlers
    then "viewer"
    else if is_mutation method
    then "editor"
    else "viewer"

-- the wrapper of a route fits the lists
fits : Guard → String → Bool
fits unguarded name = listed name public_handlers
fits read_write name = not (listed name admin_handlers) && not (listed name service_handlers)
fits (at_least role) name = role == "admin" && listed name admin_handlers
fits (user_or_service role scope) name =
    role == "viewer" && (listed name service_handlers && not (listed name admin_handlers))

all_fit : List Route → Bool
all_fit [] = true
all_fit (t ∷ l) = fits t.guard t.handler && all_fit l

routes_fit : all_fit routes ≡ true
unfolding all_fit fits
routes_fit = refl

best-fits :
    (l : List Route) (path : String) (t : Route)
    → all_fit l ≡ true
    → best l path ≡ some t
    → fits t.guard t.handler ≡ true
unfolding best all_fit
best-fits [] path t a e = absurd (cc)
best-fits (r ∷ rs) path t a e = elim (Option-cases (best rs path)) [
  | inl alone ↦ let same : r ≡ t = ground arith in rw (← same) (ground arith)
  | inr (q, found) ↦
      elim (Bool-cases (matches r.pattern path && not (ltb (len r.pattern) (len q.pattern)))) [
        | inl taken ↦ let same : r ≡ t = ground arith in rw (← same) (ground arith)
        | inr passed ↦
            let same : q ≡ t = ground arith in
            best-fits rs path t (ground arith) (found ∙ ap some same)
      ]
]

fits_read_write :
    (name method : String) → fits read_write name ≡ true → role_needed name method ≡ role_for method
unfolding fits
fits_read_write name method fit = ground arith

fits_at_least :
    (role name method : String)
    → fits (at_least role) name ≡ true
    → (role ≡ role_needed name method) × (role ≢ "")
unfolding fits
fits_at_least role name method fit =
    let a : role ≡ "admin" = ground (arith, eq_iff role "admin") in
    (ground arith, λ e. ground (arith, eq_iff "admin" "", sym a ∙ e))

fits_user_or_service :
    (role scope name method : String)
    → fits (user_or_service role scope) name ≡ true
    → (listed name service_handlers ≡ true) × (role ≡ role_needed name method) × (role ≢ "")
unfolding fits
fits_user_or_service role scope name method fit =
    let v : role ≡ "viewer" = ground (arith, eq_iff role "viewer") in
    (ground arith, ground arith, λ e. ground (arith, eq_iff "viewer" "", sym v ∙ e))

moved : (w : Guard) (n name : String) → n ≡ name → fits w n ≡ true → fits w name ≡ true
moved w n name same fit = subst (λ x. fits w x ≡ true) same fit

through-handled :
    (n name : String) (g : Gate Unit) (r : Request Unit) (c : Option UserClaims)
    → through n g ≡ handled name r c
    → (n ≡ name) × (g ≡ pass r c)
through-handled n name (deny k code message) r c e = absurd (cc)
through-handled n name (pass r' c') r c e = (cc, cc)

module _ (l : AuthLib) (env : String) (h : Handler) where
  -- the request carries a valid user token, with the role that the handler needs, and the handler
  -- gets its claims
  pub record IsUser (name : String) (r : Request Unit) (c : Option UserClaims) (claims : UserClaims)
      : Type 0 where
    pub known : claims_from_request l env h r.header ≡ some claims
    pub given : c ≡ some claims
    pub permitted : l.has_permission claims.role (role_needed name r.method) ≡ true

  -- the request carries a valid service token, and the handler is one that such a token opens
  pub record IsService (name : String) (r : Request Unit) (sc : ServiceClaims) : Type 0 where
    pub token : String
    pub bearer : bearer_token (r.header "Authorization") ≡ some token
    pub valid : service_claims l h token ≡ some sc
    pub opened : listed name service_handlers ≡ true

  -- a handler that ran was open, or was called by a user or a service
  abbrev pub IsCleared : String → Request Unit → Option UserClaims → Type 0
  IsCleared name r c =
      (listed name public_handlers ≡ true)
      ⊎ ((claims : UserClaims) × IsUser name r c claims)
      ⊎ ((sc : ServiceClaims) × IsService name r sc)

  from_bearer :
      (r : Request Unit) (token : String) (claims : UserClaims)
      → bearer_token (r.header "Authorization") ≡ some token
      → parse_token l env h token ≡ some claims
      → claims_from_request l env h r.header ≡ some claims
  unfolding claims_from_request
  from_bearer r token claims bearer known = ground arith

  user-IsCleared :
      (role name : String) (r : Request Unit) (g : Gate Unit) (r' : Request Unit)
      (c : Option UserClaims) (claims : UserClaims)
      → role ≡ role_needed name r.method
      → role ≢ ""
      → claims_from_request l env h r.header ≡ some claims
      → UserOutcome l env h role r claims g
      → g ≡ pass r' c
      → IsCleared name r c
  user-IsCleared role name r g r' c claims needed named known (inr (unfit, denied)) passed =
      absurd (denied-pass 403 g r' c denied passed)
  user-IsCleared role name r g r' c claims needed named known (inl (header, a, same)) passed = inr (
      inl (
        claims,
        record {
          known = known;
          given = cc (same, passed);
          permitted = rw (← needed) (a.permitted named);
        },
      ))

  guarded-IsCleared :
      (w : Guard) (n : String) (r r' : Request Unit) (name : String) (c : Option UserClaims)
      → h.auth_required ≡ true
      → fits w n ≡ true
      → guarded l env h w n r ≡ handled name r' c
      → IsCleared name r c
  unfolding fits guarded
  guarded-IsCleared unguarded n r r' name c auth fit ran = inl (moved unguarded n name (cc) fit)
  guarded-IsCleared read_write n r r' name c auth fit ran =
      let (same, passed) = through-handled n name (require_read_write l env h r) r' c ran in
      let (claims, known, given, permitted) = require_read_write-role l env h r r' c auth passed in
      inr (
        inl (
          claims,
          record {
            known = known;
            given = given;
            permitted =
                rw (fits_read_write name r.method (moved read_write n name same fit)) permitted;
          },
        ))
  guarded-IsCleared (at_least role) n r r' name c auth fit ran =
      let (same, passed) = through-handled n name (require l env h role r) r' c ran in
      elim (require_cases l env h role r auth) [
        | inr (anonymous, denied) ↦ absurd (denied-pass 401 _ r' c denied passed)
        | inl (claims, known, outcome) ↦
            let (needed, named) =
              fits_at_least role name r.method (moved (at_least role) n name same fit) in
            user-IsCleared role name r _ r' c claims needed named known outcome passed
      ]
  guarded-IsCleared (user_or_service role scope) n r r' name c auth fit ran =
      let (same, passed) =
        through-handled n name (require_user_or_service l env h role scope r) r' c ran in
      let (opened, needed, named) =
        fits_user_or_service role scope name r.method
          (moved (user_or_service role scope) n name same fit) in
      elim (require_user_or_service_cases l env h role scope r auth) [
        | inl (bare, denied) ↦ absurd (denied-pass 401 _ r' c denied passed)
        | inr (token, bearer, inl (sc, service, outcome)) ↦
            inr (
              inr (sc, record { token = token; bearer = bearer; valid = service; opened = opened }))
        | inr (token, bearer, inr (user, inr (invalid, denied))) ↦
            absurd (denied-pass 401 _ r' c denied passed)
        | inr (token, bearer, inr (user, inl (claims, known, outcome))) ↦
            user-IsCleared role name r _ r' c claims needed named
              (from_bearer r token claims bearer known) outcome passed
      ]

  dispatch-handled :
      (table : List Route) (r r' : Request Unit) (name : String) (c : Option UserClaims)
      → dispatch l env h table r ≡ handled name r' c
      → (t : Route) × (best table r.path ≡ some t)
        × (guarded l env h t.guard t.handler r ≡ handled name r' c)
  unfolding dispatch
  dispatch-handled table r r' name c served = elim (Option-cases (best table r.path)) [
    | inl missing ↦ absurd (ground arith)
    | inr (t, found) ↦ (t, found, ground arith)
  ]

  -- Where auth is required, every handler that a request reaches is one of the nine open ones, or was
  -- reached by a user with a valid token and the role that the handler needs (admin for the control
  -- summary and the audit log, editor for mutations, viewer otherwise), or by a service with a valid
  -- token for one of the three discovery handlers.
  pub serve-IsCleared :
      (r r' : Request Unit) (name : String) (c : Option UserClaims)
      → h.auth_required ≡ true
      → serve l env h r ≡ handled name r' c
      → IsCleared name r c
  unfolding serve
  serve-IsCleared r r' name c auth served =
      let dispatched : dispatch l env h routes r ≡ handled name r' c = ground arith in
      let (t, found, ran) = dispatch-handled routes r r' name c dispatched in
      guarded-IsCleared t.guard t.handler r r' name c auth
        (best-fits routes r.path t routes_fit found) ran
