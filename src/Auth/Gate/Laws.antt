-- ===== src/Auth/Gate/Laws.antt =====
-- Whom the wrappers of internal/auth/middleware.go let through.
use mathlib.Core.Path.{subst}
use mathlib.Core.Bool.{not, ◌&&◌}
use opa_hub.Prelude.{
  ℕ, String, true, false, ◌≡◌, ◌≢◌, ◌⊎◌, refl, sym, ◌∙◌, Option, none, some, ◌==◌, eq_iff, arith,
  Bool-cases, Option-cases, inl, inr, if◌then◌else◌,
}
use opa_hub.Http.{Request, bearer_token}
use opa_hub.Auth.{
  UserClaims, ServiceClaims, Headers, AuthLib, Handler, parse_token, claims_from_request,
}
use opa_hub.Auth.Gate.{
  Gate, deny, pass, check_user, require, is_mutation, role_for, require_read_write, check_service,
  service_claims, service_request, require_user_or_service,
}

-- the gate answers the request itself, with this status
abbrev pub IsDenied : {B : Type 0} → ℕ → Gate B → Type 0
IsDenied n (deny k code message) = k ≡ n
IsDenied n (pass r c) = ⊥

pub denied-pass :
    {B : Type 0} (n : ℕ) (g : Gate B) (r : Request B) (c : Option UserClaims)
    → IsDenied n g
    → g ≢ pass r c
denied-pass n (deny k code message) r c d e = absurd (cc)
denied-pass n (pass r' c') r c d e = d

pub IsDenied-unique : {B : Type 0} (m n : ℕ) (g : Gate B) → IsDenied m g → IsDenied n g → m ≡ n
IsDenied-unique m n (deny k code message) d e = sym d ∙ e
IsDenied-unique m n (pass r c) d e = absurd d

role_for-ne-nil : (method : String) → role_for method ≢ ""
role_for-ne-nil method = elim (Bool-cases (is_mutation method)) [
  | inl yes_ ↦ rw yes_ (ground (arith, eq_iff "editor" ""))
  | inr no_ ↦ rw no_ (ground (arith, eq_iff "viewer" ""))
]

module _ (l : AuthLib) (env : String) (h : Handler) {B : Type 0} where
  -- A user with these claims has the role, and its tenant and projects allow the request, whose
  -- headers become `header`.
  pub record IsAdmitted (role : String) (r : Request B) (claims : UserClaims) (header : Headers)
      : Type 0 where
    pub permitted : role ≢ "" → l.has_permission claims.role role ≡ true
    pub tenant : l.apply_user_tenant_headers r.header claims ≡ some header
    pub acl : l.enforce_project_acl header claims ≡ true

  -- passed on with the tenant's headers and the claims, or answered 403
  abbrev pub UserOutcome : String → Request B → UserClaims → Gate B → Type 0
  UserOutcome role r claims g =
      ((header : Headers) × IsAdmitted role r claims header
        × (g ≡ pass (record r { header = header }) (some claims)))
      ⊎ (((header : Headers) → ¬ IsAdmitted role r claims header) × IsDenied 403 g)

  check_user_cases :
      (role : String) (r : Request B) (claims : UserClaims)
      → UserOutcome role r claims (check_user l env h role r claims)
  unfolding check_user
  check_user_cases role r claims =
      elim (Bool-cases (not (role == "") && not (l.has_permission claims.role role))) [
        | inl weak ↦ inr (λ header a. ground (arith, eq_iff role "", a.permitted), rw weak refl)
        | inr strong ↦ elim (Option-cases (l.apply_user_tenant_headers r.header claims)) [
          | inl foreign ↦ inr (λ header a. cc (a.tenant, foreign), ground arith)
          | inr (header, tenant) ↦ elim (Bool-cases (l.enforce_project_acl header claims)) [
            | inl allowed ↦ inl (
              header,
              record {
                permitted = λ n. ground (arith, eq_iff role "");
                tenant = tenant;
                acl = allowed;
              },
              ground arith,
            )
            | inr barred ↦ inr (λ other a. cc (a.tenant, tenant, a.acl, barred), ground arith)
          ]
        ]
      ]

  require_known :
      (role : String) (r : Request B) (claims : UserClaims)
      → h.auth_required ≡ true
      → claims_from_request l env h r.header ≡ some claims
      → require l env h role r ≡ check_user l env h role r claims
  unfolding require
  require_known role r claims auth known = ground arith

  -- the verdict of `Require` where auth is required
  abbrev pub RequireOutcome : String → Request B → Gate B → Type 0
  RequireOutcome role r g =
      ((claims : UserClaims) × (claims_from_request l env h r.header ≡ some claims)
        × UserOutcome role r claims g)
      ⊎ ((claims_from_request l env h r.header ≡ none) × IsDenied 401 g)

  -- Where auth is required, `Require` hands a request on exactly when it carries a valid user token
  -- whose role, tenant and projects admit it, with the headers of the tenant check and the claims;
  -- it answers 401 without a valid token, and 403 to a user who is not admitted.
  pub require_cases :
      (role : String) (r : Request B)
      → h.auth_required ≡ true
      → RequireOutcome role r (require l env h role r)
  unfolding require
  require_cases role r auth = elim (Option-cases (claims_from_request l env h r.header)) [
    | inl anonymous ↦ inr (anonymous, ground arith)
    | inr (claims, known) ↦ inl (
      claims,
      known,
      subst (UserOutcome role r claims) (sym (require_known role r claims auth known))
          (check_user_cases role r claims),
    )
  ]

  -- Where auth is required, whatever `Middleware` hands on comes from a user whose role is at least
  -- editor for POST, PUT, PATCH and DELETE, and at least viewer for other methods.
  pub require_read_write-role :
      (r r' : Request B) (c : Option UserClaims)
      → h.auth_required ≡ true
      → require_read_write l env h r ≡ pass r' c
      → (claims : UserClaims) × (claims_from_request l env h r.header ≡ some claims)
        × (c ≡ some claims)
        × (l.has_permission claims.role (if is_mutation r.method then "editor" else "viewer")
            ≡ true)
  unfolding require_read_write
  require_read_write-role r r' c auth passed = elim (require_cases (role_for r.method) r auth) [
    | inl (claims, known, inl (header, a, same)) ↦
        (claims, known, cc (same, passed), a.permitted (role_for-ne-nil r.method))
    | inl (claims, known, inr (unfit, denied)) ↦ absurd (denied-pass 403 _ r' c denied passed)
    | inr (anonymous, denied) ↦ absurd (denied-pass 401 _ r' c denied passed)
  ]

  user_token :
      (role scope : String) (r : Request B) (token : String) (claims : UserClaims)
      → h.auth_required ≡ true
      → bearer_token (r.header "Authorization") ≡ some token
      → service_claims l h token ≡ none
      → parse_token l env h token ≡ some claims
      → require_user_or_service l env h role scope r ≡ check_user l env h role r claims
  unfolding require_user_or_service
  user_token role scope r token claims auth bearer user known = ground arith

  service_token :
      (role scope : String) (r : Request B) (token : String) (sc : ServiceClaims)
      → h.auth_required ≡ true
      → bearer_token (r.header "Authorization") ≡ some token
      → service_claims l h token ≡ some sc
      → require_user_or_service l env h role scope r ≡ check_service l env h scope r sc
  unfolding require_user_or_service
  service_token role scope r token sc auth bearer service = ground arith

  -- handed on with the service's organization, or answered 403
  abbrev pub ServiceOutcome : String → Request B → ServiceClaims → Gate B → Type 0
  ServiceOutcome scope r sc g =
      ((scope ≢ "" → l.require_scope sc scope ≡ true) × (g ≡ pass (service_request sc r) none))
      ⊎ ((scope ≢ "") × (l.require_scope sc scope ≡ false) × IsDenied 403 g)

  check_service_cases :
      (scope : String) (r : Request B) (sc : ServiceClaims)
      → ServiceOutcome scope r sc (check_service l env h scope r sc)
  unfolding check_service
  check_service_cases scope r sc =
      elim (Bool-cases (not (scope == "") && not (l.require_scope sc scope))) [
        | inl lacking ↦ inr (ground (arith, eq_iff scope ""), ground arith, rw lacking refl)
        | inr held ↦ inl (λ n. ground (arith, eq_iff scope ""), rw held refl)
      ]

  -- the verdict of `RequireUserOrService` where auth is required
  abbrev pub EitherOutcome : String → String → Request B → Gate B → Type 0
  EitherOutcome role scope r g =
      ((bearer_token (r.header "Authorization") ≡ none) × IsDenied 401 g)
      ⊎ ((token : String) × (bearer_token (r.header "Authorization") ≡ some token)
          × (((sc : ServiceClaims) × (service_claims l h token ≡ some sc)
                × ServiceOutcome scope r sc g)
              ⊎ ((service_claims l h token ≡ none)
                  × (((claims : UserClaims) × (parse_token l env h token ≡ some claims)
                        × UserOutcome role r claims g)
                      ⊎ ((parse_token l env h token ≡ none) × IsDenied 401 g)))))

  -- Where auth is required, `RequireUserOrService` looks at a bearer token as a service token first: a
  -- valid one is handed on with its organization and without user claims if it has the scope, and is
  -- answered 403 if it lacks it. Any other token is judged as `Require` does.
  pub require_user_or_service_cases :
      (role scope : String) (r : Request B)
      → h.auth_required ≡ true
      → EitherOutcome role scope r (require_user_or_service l env h role scope r)
  unfolding require_user_or_service
  require_user_or_service_cases role scope r auth =
      elim (Option-cases (bearer_token (r.header "Authorization"))) [
        | inl bare ↦ inl (bare, ground arith)
        | inr (token, bearer) ↦ inr (
          token,
          bearer,
          elim (Option-cases (service_claims l h token)) [
            | inr (sc, service) ↦ inl (
              sc,
              service,
              subst (ServiceOutcome scope r sc)
                  (sym (service_token role scope r token sc auth bearer service))
                  (check_service_cases scope r sc),
            )
            | inl user ↦ inr (
              user,
              elim (Option-cases (parse_token l env h token)) [
                | inl invalid ↦ inr (invalid, ground arith)
                | inr (claims, known) ↦ inl (
                  claims,
                  known,
                  subst (UserOutcome role r claims)
                      (sym (user_token role scope r token claims auth bearer user known))
                      (check_user_cases role r claims),
                )
              ],
            )
          ],
        )
      ]

  -- Without a secret for service tokens, `RequireUserOrService` hands on only what carries user claims.
  pub service_needs_secret :
      (role scope : String) (r r' : Request B) (c : Option UserClaims)
      → h.auth_required ≡ true
      → h.service_secret ≡ ""
      → require_user_or_service l env h role scope r ≡ pass r' c
      → c ≢ none
  service_needs_secret role scope r r' c auth secret passed empty =
      elim (require_user_or_service_cases role scope r auth) [
        | inl (bare, denied) ↦ denied-pass 401 _ r' c denied passed
        | inr (token, bearer, inl (sc, service, outcome)) ↦
            unfold service_claims in ground (arith, eq_iff h.service_secret "")
        | inr (token, bearer, inr (user, inr (invalid, denied))) ↦
            denied-pass 401 _ r' c denied passed
        | inr (token, bearer, inr (user, inl (claims, known, inl (header, a, same)))) ↦
            cc (same, passed, empty)
        | inr (token, bearer, inr (user, inl (claims, known, inr (unfit, denied)))) ↦
            denied-pass 403 _ r' c denied passed
      ]
