-- ===== src/Server/Tenancy/Laws.antt =====
-- What the discovery of organizations shows (tenancy.go).
use mathlib.Core.Bool.{◌||◌}
use mathlib.Core.Option
use opa_hub.Prelude.{
  if◌then◌else◌, ℕ, zero, suc, String, true, ◌≡◌, ◌≢◌, inl, inr, refl, some, List, [], ◌∷◌, map,
  ◌==◌, eq_iff, arith, All, All-filter, filter, is_empty, Bool-cases,
}
use opa_hub.Http.{Request, write_json}
use opa_hub.Tenant.{Context, TenantLib, Enforces}
use opa_hub.Sort.{find_by}
use opa_hub.Registry.{Registry, values}
use opa_hub.Registry.Organizations.{OrganizationSummary, org_id, count_of}
use opa_hub.Registry.Organizations.Tally.{members, summary_of, find_by-organizations}
use opa_hub.Prelude.Assoc.{lookup}
use opa_hub.Directory as Directory
use opa_hub.Directory.{Org, Orgs, configured, Client, Env, Outside}
use opa_hub.Server.Tenancy.{
  entries, agent_counts, merged, requested, scoped, organizations, Discovery, serve_organizations,
}

lookup-map :
    (id : String) (l : List OrganizationSummary)
    → lookup id (map (λ (o : OrganizationSummary). (o.id, o.agent_count)) l)
      ≡ Option.map (λ (o : OrganizationSummary). o.agent_count) (find_by org_id id l)
unfolding lookup find_by
lookup-map id [] = refl
lookup-map id (o ∷ l) = ground (arith, lookup-map id l)

count_of-agent_counts :
    (id : String) (r : Registry) → count_of id (agent_counts r) ≡ members id (values r.agents)
unfolding count_of
count_of-agent_counts id r =
    rw (lookup-map, find_by-organizations) (counted_back (members id (values r.agents)))
  where
    counted_back :
        (n : ℕ)
        → Option.get_or
            (Option.map (λ (o : OrganizationSummary). o.agent_count) (summary_of id n))
            0
          ≡ n
    counted_back zero = refl
    counted_back (suc n) = refl

-- an entry of the directory, with the number of the agents that count under its id
abbrev pub with_members : Registry → Org → OrganizationSummary
with_members r o = record {
  id = o.id;
  name = o.name;
  agent_count = members o.id (values r.agents);
  source = "oam";
}

map-merged :
    (r : Registry) (l : List Org) → map (merged (agent_counts r)) l ≡ map (with_members r) l
map-merged r [] = refl
map-merged r (o ∷ l) = ground (arith, count_of-agent_counts o.id r, map-merged r l)

-- Where OAM is configured and the directory answers, the hub lists exactly the directory's entries, in
-- their order and with their names, each with the number of the registered agents that count under
-- its id, and names OAM as the source.
pub organizations-with_members :
    (env : Env) (o : Outside) (c : Client) (r : Registry) (orgs : Orgs)
    → configured env ≡ true
    → (Directory.organizations env o c).orgs ≡ some orgs
    → organizations env o c r
      ≡ (map (with_members r) (entries orgs), "oam", (Directory.organizations env o c).client)
unfolding organizations
organizations-with_members env o c r orgs oam answered = ground (arith, map-merged r (entries orgs))

-- What a request may learn of an organization: it is the one that the request names.
abbrev pub IsOwn : TenantLib → Context → OrganizationSummary → Type 0
IsOwn t ctx o =
    (o.id ≡ ctx.organization_id) × (ctx.organization_id ≢ "") × (ctx.organization_id ≢ t.all)

filter-IsOwn :
    (t : TenantLib) (ctx : Context) (orgs : List OrganizationSummary)
    → ctx.organization_id ≢ ""
    → ctx.organization_id ≢ t.all
    → All (IsOwn t ctx) (filter (λ (o : OrganizationSummary). o.id == ctx.organization_id) orgs)
filter-IsOwn t ctx orgs named one =
    All-filter (IsOwn t ctx) (λ o. o.id == ctx.organization_id)
      (λ o same. ((eq_iff o.id ctx.organization_id).0 same, named, one)) orgs

All-or_requested :
    (t : TenantLib) (ctx : Context) (l : List OrganizationSummary)
    → IsOwn t ctx (requested ctx.organization_id)
    → All (IsOwn t ctx) l
    → All (IsOwn t ctx) (if is_empty l then requested ctx.organization_id ∷ [] else l)
All-or_requested t ctx [] own h = (own, tt)
All-or_requested t ctx (o ∷ l) own h = h

scoped-IsOwn :
    (t : TenantLib) (ctx : Context) (orgs : List OrganizationSummary)
    → Enforces t
    → t.auth_enforced ≡ true
    → All (IsOwn t ctx) (scoped t ctx orgs)
unfolding scoped
scoped-IsOwn t ctx orgs e auth =
    elim (Bool-cases (ctx.organization_id == "" || ctx.organization_id == t.all)) [
      | inl open_ ↦ rw (e.scoped auth ctx, auth, open_) tt
      | inr named ↦
          let some_ : ctx.organization_id ≢ "" = ground (arith, eq_iff ctx.organization_id "") in
          let one : ctx.organization_id ≢ t.all =
            ground (arith, eq_iff ctx.organization_id t.all) in
          rw (e.scoped auth ctx, auth, named)
            (All-or_requested t ctx
              (filter (λ (o : OrganizationSummary). o.id == ctx.organization_id) orgs)
              (refl, some_, one) (filter-IsOwn t ctx orgs some_ one))
    ]

-- With auth enforced, `GET /api/tenancy/organizations` is answered 200 with a list of organizations in
-- which each is the one that the request names, whatever the directory, its cache and the registry
-- hold; the list is empty for a request that names none or all.
pub serve_organizations-IsOwn :
    (t : TenantLib) (env : Env) (o : Outside) (c : Client) (r : Registry) (req : Request Unit)
    → Enforces t
    → t.auth_enforced ≡ true
    → req.method ≡ "GET"
    → (d : Discovery) × ((serve_organizations t env o c r req).0 ≡ write_json 200 d)
      × All (IsOwn t (t.from_request req.header)) d.organizations
unfolding serve_organizations
serve_organizations-IsOwn t env o c r req e auth method = (
  record {
    organizations = scoped t (t.from_request req.header) (organizations env o c r).0;
    directory_source = (organizations env o c r).1;
  },
  rw method refl,
  scoped-IsOwn t (t.from_request req.header) (organizations env o c r).0 e auth,
)
