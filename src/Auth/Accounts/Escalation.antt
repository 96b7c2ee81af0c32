-- ===== src/Auth/Accounts/Escalation.antt =====
-- Who may create users, and with what rights (auth.go).
use mathlib.Core.Bool.{not, ◌&&◌}
use opa_hub.Prelude.{
  String, Bool, true, false, ◌≡◌, ◌≢◌, ◌↔◌, ◌⊎◌, refl, Option, none, some, [], ◌==◌, eq_iff, arith,
  is_some, Bool-cases, Option-cases, inl, inr,
}
use opa_hub.Text.{trim_space}
use opa_hub.Http.{Request, Response, status_code, write_json, write_error}
use opa_hub.Auth.{AuthLib, Handler, oam_auth_configured, claims_from_request}
use opa_hub.Auth.Accounts.{
  RegisterBody, UserReply, Status, is_admin, granted_role, registered, register_user,
  serve_register, serve_status,
}
use opa_hub.Auth.Gate.{require}
use opa_hub.Auth.Gate.Laws.{IsDenied, IsDenied-unique, denied-pass, require_cases}

-- what the answer of `ServeStatus` says
abbrev pub authenticated_in : Response Status → Bool
authenticated_in (write_json n s) = s.authenticated
authenticated_in (write_error n c m) = false

module _ (l : AuthLib) (env : String) (h : Handler) where
  granted_role_viewer : (asked : String) → granted_role l env h false asked ≡ "viewer"
  unfolding granted_role
  granted_role_viewer asked = ground (arith, eq_iff (trim_space asked) "viewer")

  registered_cases :
      (users : l.Users) (o : Option l.Users) (user : UserReply) (password : String)
      → ((registered l env h users o user password).0 ≡ users)
        ⊎ (o ≡ some (registered l env h users o user password).0)
  unfolding registered
  registered_cases users (some u) user password = inr refl
  registered_cases users none user password = inl (ground arith)

  register_user_plain :
      (users : l.Users) (body : RegisterBody)
      → ((register_user l env h false users body).0 ≡ users)
        ⊎ (l.register_with_membership users (trim_space body.username) body.password "viewer" "" []
            ≡ some (register_user l env h false users body).0)
  unfolding register_user
  register_user_plain users body = rw granted_role_viewer (
      registered_cases users
        (l.register_with_membership users (trim_space body.username) body.password "viewer" "" []) _
        body.password)

  register_reaches :
      (r : Request RegisterBody) (users : l.Users) (body : RegisterBody)
      → r.body ≡ some body
      → ((serve_register l env h r users).0 ≡ users)
        ⊎ (serve_register l env h r users
            ≡ register_user l env h
                (is_admin l env h (claims_from_request l env h r.header))
                users
                body)
  unfolding serve_register
  register_reaches r users body decoded = elim (Bool-cases (r.method == "POST")) [
    | inr other ↦ inl (ground arith)
    | inl post ↦ elim (Bool-cases (oam_auth_configured env h.auth_mode)) [
      | inl oam ↦ inl (ground arith)
      | inr own ↦
          elim (Bool-cases
            (h.auth_required && not (is_some (claims_from_request l env h r.header)))) [
              | inl anonymous ↦ inl (ground arith)
              | inr known ↦
                  elim (Bool-cases (
                    h.auth_required
                    && not (is_admin l env h (claims_from_request l env h r.header)))) [
                      | inl weak ↦ inl (rw (post, own, known, weak) refl)
                      | inr strong ↦ inr (rw (post, own, known, strong, decoded) refl)
                    ]
            ]
    ]
  ]

  -- A request that does not come from an admin creates nothing, or creates a viewer without an
  -- organization and without projects, whatever role and membership its body asks for.
  pub serve_register_no_escalation :
      (r : Request RegisterBody) (users : l.Users)
      → is_admin l env h (claims_from_request l env h r.header) ≡ false
      → ((serve_register l env h r users).0 ≡ users)
        ⊎ ((body : RegisterBody) × (r.body ≡ some body)
            × (l.register_with_membership users
                  (trim_space body.username)
                  body.password
                  "viewer"
                  ""
                  []
                ≡ some (serve_register l env h r users).0))
  serve_register_no_escalation r users plain = elim (Option-cases r.body) [
    | inl garbled ↦ inl (unfold serve_register in ground arith)
    | inr (body, decoded) ↦ elim (register_reaches r users body decoded) [
      | inl early ↦ inl early
      | inr reached ↦ elim (register_user_plain users body) [
        | inl kept ↦ inl (cc (reached, plain, kept))
        | inr made ↦ inr (body, decoded, cc (reached, plain, made))
      ]
    ]
  ]

  -- Where auth is required, a request that does not come from an admin creates nothing at all.
  pub serve_register_needs_admin :
      (r : Request RegisterBody) (users : l.Users)
      → h.auth_required ≡ true
      → is_admin l env h (claims_from_request l env h r.header) ≡ false
      → ((serve_register l env h r users).0 ≡ users)
        × (status_code (serve_register l env h r users).1 ≢ 200)
  unfolding serve_register
  serve_register_needs_admin r users auth plain = ground arith

  authenticated_is_some :
      (r : Request Unit)
      → r.method ≡ "GET"
      → authenticated_in (serve_status l env h r) ≡ is_some (claims_from_request l env h r.header)
  unfolding serve_status claims_from_request
  authenticated_is_some r get = ground (arith, eq_iff r.method "GET")

  -- `GET /api/auth/status` calls a request authenticated exactly when, where auth is required, a route
  -- behind `Require` does not answer it 401.
  pub serve_status-require :
      (r : Request Unit) (role : String)
      → h.auth_required ≡ true
      → r.method ≡ "GET"
      → (authenticated_in (serve_status l env h r) ≡ false) ↔ IsDenied 401 (require l env h role r)
  serve_status-require r role auth get =
      rw (authenticated_is_some r get) (elim (require_cases l env h role r auth) [
        | inr (anonymous, denied) ↦ (λ e. denied, λ d. rw anonymous refl)
        | inl (claims, known, inl (header, a, same)) ↦
            (λ e. absurd (ground arith), λ d. absurd (denied-pass 401 _ _ _ d same))
        | inl (claims, known, inr (unfit, denied)) ↦ (
          λ e. absurd (ground arith),
          λ d. absurd (omega (arith, IsDenied-unique 401 403 _ d denied)),
        )
      ])
