-- ===== src/Registry/Scope/Isolation.antt =====
-- Which agents a request sees.
use mathlib.Core.Bool.{not, ◌&&◌, ◌||◌}
use opa_hub.Prelude.{
  ℕ, true, false, ◌≡◌, ◌≢◌, ◌↔◌, refl, sym, some, List, [], ◌∷◌, ◌==◌, eq_iff, arith, filter,
  filter_all, filter_none, All, All-filter, Bool-cases, inl, inr,
}
use opa_hub.Tenant.{Context, TenantLib, Enforces}
use opa_hub.Registry.{Agent, Registry, list}
use opa_hub.Registry.Scope.{
  member, project_id_allow_set, agent_org, agent_project, scope_project, scoped_loop, list_scoped,
  agent_in_scope,
}

module _ (t : TenantLib) where
  -- what an agent must have to be visible to a request under auth
  pub record IsVisible (ctx : Context) (a : Agent) : Type 0 where
    pub named_org : ctx.organization_id ≢ ""
    pub one_org : ctx.organization_id ≢ t.all
    pub own_org : agent_org t a ≡ ctx.organization_id
    pub listed_project :
        project_id_allow_set t ctx.project_ids ≢ []
        → member (agent_project t a) (project_id_allow_set t ctx.project_ids) ≡ true
    pub own_project :
        project_id_allow_set t ctx.project_ids ≡ []
        → t.project_scoped ctx ≡ true
        → agent_project t a ≡ scope_project t ctx

  scoped_loop-filter :
      (ctx : Context) (l : List Agent)
      → (not (t.org_scoped ctx) && not (t.project_scoped ctx)) ≡ false
      → (t.auth_enforced && (ctx.organization_id == "" || ctx.organization_id == t.all)) ≡ false
      → scoped_loop t ctx (scope_project t ctx) (project_id_allow_set t ctx.project_ids) l
        ≡ filter (λ a. agent_in_scope t (some a) ctx) l
  unfolding scoped_loop agent_in_scope
  scoped_loop-filter ctx [] h k = refl
  scoped_loop-filter ctx (a ∷ l) h k = ground (arith, scoped_loop-filter ctx l h k)

  in_scope_lab :
      (ctx : Context) (a : Agent)
      → (not (t.org_scoped ctx) && not (t.project_scoped ctx)) ≡ true
      → agent_in_scope t (some a) ctx ≡ true
  unfolding agent_in_scope
  in_scope_lab ctx a lab = rw lab

  in_scope_closed :
      (ctx : Context) (a : Agent)
      → (not (t.org_scoped ctx) && not (t.project_scoped ctx)) ≡ false
      → (t.auth_enforced && (ctx.organization_id == "" || ctx.organization_id == t.all)) ≡ true
      → agent_in_scope t (some a) ctx ≡ false
  unfolding agent_in_scope
  in_scope_closed ctx a scoped closed = rw (scoped, closed)

  -- `ListScoped` and `agentInScope`, which decides for `Get`, agree: the list is exactly the agents of
  -- `List` that are in scope, in the order of `List`.
  pub list_scoped-filter :
      (now : ℕ) (ctx : Context) (r : Registry)
      → list_scoped t now ctx r ≡ filter (λ a. agent_in_scope t (some a) ctx) (list now r)
  unfolding list_scoped
  list_scoped-filter now ctx r =
      elim (Bool-cases (not (t.org_scoped ctx) && not (t.project_scoped ctx))) [
        | inl lab ↦ rw lab (
            sym (
              filter_all (λ a. agent_in_scope t (some a) ctx) (λ a. in_scope_lab ctx a lab)
                (list now r)))
        | inr scoped ↦
            elim (Bool-cases
              (t.auth_enforced && (ctx.organization_id == "" || ctx.organization_id == t.all))) [
                | inl closed ↦
                    rw (scoped, closed)
                      (sym (
                        filter_none (λ a. agent_in_scope t (some a) ctx)
                          (λ a. in_scope_closed ctx a scoped closed) (list now r)))
                | inr org ↦ rw (scoped, org) (scoped_loop-filter ctx (list now r) scoped org)
              ]
      ]

  -- With auth enforced, an agent is in scope exactly when it is visible.
  pub agent_in_scope_iff :
      (ctx : Context) (a : Agent)
      → Enforces t
      → t.auth_enforced ≡ true
      → (agent_in_scope t (some a) ctx ≡ true) ↔ IsVisible ctx a
  unfolding agent_in_scope
  agent_in_scope_iff ctx a e auth = (
    λ h. record {
      named_org = ground (arith, e.scoped auth ctx, eq_iff ctx.organization_id "");
      one_org = ground (arith, e.scoped auth ctx, eq_iff ctx.organization_id t.all);
      own_org = ground (arith, e.scoped auth ctx, eq_iff (agent_org t a) ctx.organization_id);
      listed_project = λ n. ground (arith, e.scoped auth ctx);
      own_project = λ n p.
          ground (arith, e.scoped auth ctx, eq_iff (agent_project t a) (scope_project t ctx));
    },
    λ v. ground (
      arith,
      e.scoped auth ctx,
      eq_iff ctx.organization_id "",
      eq_iff ctx.organization_id t.all,
      eq_iff (agent_org t a) ctx.organization_id,
      eq_iff (agent_project t a) (scope_project t ctx),
      v.named_org,
      v.one_org,
      v.own_org,
      v.listed_project,
      v.own_project,
    ),
  )

  -- With auth enforced, `ListScoped` returns only agents of the request's own organization, which
  -- it names, and of the projects that it may see.
  pub list_scoped-IsVisible :
      (now : ℕ) (ctx : Context) (r : Registry)
      → Enforces t
      → t.auth_enforced ≡ true
      → All (IsVisible ctx) (list_scoped t now ctx r)
  list_scoped-IsVisible now ctx r e auth = rw list_scoped-filter (
      All-filter (IsVisible ctx) (λ a. agent_in_scope t (some a) ctx)
        (λ a. (agent_in_scope_iff ctx a e auth).0) (list now r))
