-- ===== src/Registry/Scope.antt =====
-- The tenant scope of `List` and `Get`: `ListScoped`, `agentInScope` and `projectIDAllowSet` of
-- internal/registry/registry.go.
pub mod Isolation
use mathlib.Core.Bool.{not, ◌&&◌, ◌||◌}
use opa_hub.Prelude.{
  ℕ, String, Bool, true, false, Option, none, some, List, [], ◌∷◌, ◌==◌, any, is_empty,
  if◌then◌else◌,
}
use opa_hub.Text.{trim_space, equal_fold}
use opa_hub.Tenant.{Context, TenantLib}
use opa_hub.Registry.{Agent, Registry, list}

-- membership in a Go `map[string]struct{}`
abbrev pub member : String → List String → Bool
member k ids = any (λ j. j == k) ids

module _ (t : TenantLib) where
  -- `projectIDAllowSet`; its nil map is the empty list, of length 0 too
  unfoldable pub project_id_allow_set : List String → List String
  unfolding trim_space equal_fold
  project_id_allow_set [] = []
  project_id_allow_set (given ∷ ids) =
      let id = trim_space given in
      let out = project_id_allow_set ids in
      if id == "" || equal_fold id t.all then out else id ∷ out

  abbrev pub agent_org : Agent → String
  agent_org a = if a.organization_id == "" then t.default_organization_id else a.organization_id

  abbrev pub agent_project : Agent → String
  agent_project a = if a.project_id == "" then t.default_project_id else a.project_id

  -- the project of a scope: under auth the default one, where no project is named
  abbrev pub scope_project : Context → String
  scope_project ctx =
      if t.auth_enforced
        && (is_empty ctx.project_ids && (ctx.project_id == "" || ctx.project_id == t.all))
      then t.default_project_id
      else ctx.project_id

  -- the loop of `ListScoped`
  scoped_loop : Context → String → List String → List Agent → List Agent
  scoped_loop ctx proj allow [] = []
  scoped_loop ctx proj allow (a ∷ rest) =
      let out = scoped_loop ctx proj allow rest in
      if t.org_scoped ctx && not (agent_org a == ctx.organization_id)
      then out
      else if not (is_empty allow)
      then (if member (agent_project a) allow then a ∷ out else out)
      else if t.project_scoped ctx && not (agent_project a == proj)
      then out
      else a ∷ out

  -- `ListScoped`
  unfoldable pub list_scoped : ℕ → Context → Registry → List Agent
  unfolding scoped_loop
  list_scoped now ctx r =
      if not (t.org_scoped ctx) && not (t.project_scoped ctx)
      then list now r
      else if t.auth_enforced && (ctx.organization_id == "" || ctx.organization_id == t.all)
      then []
      else scoped_loop ctx (scope_project ctx) (project_id_allow_set ctx.project_ids) (list now r)

  -- `agentInScope`; a nil agent is `none`
  unfoldable pub agent_in_scope : Option Agent → Context → Bool
  agent_in_scope none ctx = false
  agent_in_scope (some a) ctx =
      let allow = project_id_allow_set ctx.project_ids in
      if not (t.org_scoped ctx) && not (t.project_scoped ctx)
      then true
      else if t.auth_enforced && (ctx.organization_id == "" || ctx.organization_id == t.all)
      then false
      else if t.org_scoped ctx && not (agent_org a == ctx.organization_id)
      then false
      else if not (is_empty allow)
      then member (agent_project a) allow
      else if t.project_scoped ctx && not (agent_project a == scope_project ctx)
      then false
      else true
