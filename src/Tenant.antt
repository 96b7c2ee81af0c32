-- ===== src/Tenant.antt =====
-- The tenant scope of a request: what the hub uses of the package open-tenant-go, which is not part
-- of the repository. Its state and its functions are the parameter `TenantLib`.
use opa_hub.Prelude.{String, Bool, true, ◌≡◌, List}

-- `opentenant.Context`
pub record Context : Type 0 where
  pub organization_id : String
  pub project_id : String
  pub project_ids : List String

pub record TenantLib : Type 0 where
  -- `opentenant.All`, `DefaultOrganizationID`, `DefaultProjectID`
  pub all : String
  pub default_organization_id : String
  pub default_project_id : String
  -- `opentenant.AuthEnforced()`, which the server sets once, at its start
  pub auth_enforced : Bool
  -- the methods `OrgScoped` and `ProjectScoped`
  pub org_scoped : Context → Bool
  pub project_scoped : Context → Bool
  -- `opentenant.FromRequest`, which reads the headers of the request
  pub from_request : (String → String) → Context

-- What the hub's comments say of the package: with auth enforced, a missing or "all" organization
-- does not widen the scope of a request.
pub record Enforces (t : TenantLib) : Type 0 where
  pub scoped : t.auth_enforced ≡ true → (ctx : Context) → t.org_scoped ctx ≡ true
