-- ===== src/Server/Tenancy.antt =====
-- internal/server/tenancy.go: the discovery of organizations, and the two status handlers.
pub mod Laws
use mathlib.Core.Bool.{◌&&◌, ◌||◌, not}
use opa_hub.Prelude.{
  ℕ, String, Bool, true, false, Option, none, some, List, [], ◌∷◌, map, ◌==◌, filter, is_empty,
  if◌then◌else◌,
}
use opa_hub.Prelude.Assoc.{lookup}
use opa_hub.Text.{trim_space, has_prefix, trim_prefix}
use opa_hub.Http.{Request, Response, write_error, write_json, method_not_allowed}
use opa_hub.Tenant.{Context, TenantLib}
use opa_hub.Auth.{AuthLib, ServiceClaims}
use opa_hub.Registry.{Registry}
use opa_hub.Registry.Organizations as Agents
use opa_hub.Registry.Organizations.{OrganizationSummary, count_of}
use opa_hub.Directory.{Org, Orgs, Client, Env, Outside, configured, peer_url}
use opa_hub.Directory as Directory

-- the entries of a slice, none for a nil one
abbrev pub entries : Orgs → List Org
entries none = []
entries (some l) = l

-- the map `counts` of the registry's organizations
abbrev pub agent_counts : Registry → List (String × ℕ)
agent_counts r = map (λ (o : OrganizationSummary). (o.id, o.agent_count)) (Agents.organizations r)

-- an entry of the directory with the registry's count of its agents
abbrev pub merged : List (String × ℕ) → Org → OrganizationSummary
merged counts o = record {
  id = o.id;
  name = o.name;
  agent_count = count_of o.id counts;
  source = "oam";
}

-- `organizations`: the list, where it comes from, and the directory's client behind it
unfoldable pub organizations :
    Env → Outside → Client → Registry → List OrganizationSummary × String × Client
unfolding configured
organizations env o c r =
    let reply = Directory.organizations env o c in
    if configured env
    then elim reply.orgs [
      | some orgs ↦ (map (merged (agent_counts r)) (entries orgs), "oam", reply.client)
      | none ↦ (Agents.organizations r, "agent_registry", reply.client)
    ]
    else (Agents.organizations r, "agent_registry", c)

-- an organization that no agent and no directory knows
abbrev pub requested : String → OrganizationSummary
requested want = record { id = want; name = ""; agent_count = 0; source = "request_scope" }

-- the scope of `handleTenancyOrganizations`
unfoldable pub scoped : TenantLib → Context → List OrganizationSummary → List OrganizationSummary
scoped t ctx orgs =
    let want = ctx.organization_id in
    let filtered = filter (λ (o : OrganizationSummary). o.id == want) orgs in
    if not (t.org_scoped ctx)
    then orgs
    else if t.auth_enforced && (want == "" || want == t.all)
    then []
    else if is_empty filtered
    then requested want ∷ []
    else filtered

pub record Discovery : Type 0 where
  pub organizations : List OrganizationSummary
  pub directory_source : String

-- `handleTenancyOrganizations`, less its constant note
unfoldable pub serve_organizations :
    TenantLib → Env → Outside → Client → Registry → Request Unit → Response Discovery × Client
unfolding organizations scoped
serve_organizations t env o c r req =
    if not (req.method == "GET")
    then (method_not_allowed "GET required", c)
    else let (orgs, source, c') = organizations env o c r in
      (
        write_json 200 (record {
          organizations = scoped t (t.from_request req.header) orgs;
          directory_source = source;
        }),
        c',
      )

pub record GitHubStatus : Type 0 where
  pub credentials_home : String
  pub peer_ora_url : String
  pub peer_ora_configured : Bool
  pub peer_oam_url : String
  pub peer_oam_configured : Bool

-- `handleGitHubStatus`, less its constant notes; PEER_ORA_URL is an argument
unfoldable pub serve_git_hub_status : Env → String → Request Unit → Response GitHubStatus
serve_git_hub_status env ora req =
    if not (req.method == "GET")
    then method_not_allowed "GET required"
    else write_json 200 (record {
      credentials_home = if configured env then "oam" else "ora";
      peer_ora_url = trim_space ora;
      peer_ora_configured = not (trim_space ora == "");
      peer_oam_url = peer_url env;
      peer_oam_configured = configured env;
    })

-- what `handlePeerHealth` answers with status 200
pub data PeerHealth : Type 0 where
  disabled : PeerHealth
  healthy : String → String → PeerHealth

-- `handlePeerHealth`; the plain texts of its refusals have no code
unfoldable pub serve_peer_health : AuthLib → String → Request Unit → Response PeerHealth
unfolding trim_space has_prefix trim_prefix
serve_peer_health l service_secret req =
    let secret = trim_space service_secret in
    let auth = req.header "Authorization" in
    if not (req.method == "GET")
    then method_not_allowed "GET required"
    else if secret == ""
    then write_json 200 disabled
    else if not (has_prefix auth "Bearer ")
    then write_error 401 "" "unauthorized"
    else elim (l.validate_service_jwt (trim_space (trim_prefix auth "Bearer ")) secret "opa-hub") [
      | none ↦ write_error 401 "" "invalid service token"
      | some claims ↦
          if l.require_scope claims "health:read"
          then write_json 200 (healthy claims.issuer claims.scope)
          else write_error 403 "" "missing scope"
    ]
