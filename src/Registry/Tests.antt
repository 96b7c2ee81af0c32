-- ===== src/Registry/Tests.antt =====
-- The registry at concrete inputs: two agents of two organizations, and requests about them.
use opa_hub.Prelude.{
  String, true, false, ◌≡◌, refl, arith, none, some, [], ◌∷◌, ◌==◌, pos, All, eq_iff, if◌then◌else◌,
  filter, length,
}
use opa_hub.Prelude.Assoc.{lookup, insert}
use opa_hub.Text.{trim_space, trim_slash, trim_prefix}
use opa_hub.Http.{Request, write_json}
use opa_hub.Tenant.{Context, TenantLib, Enforces}
use opa_hub.Sort.{find_by, IsSorted}
use opa_hub.Registry.{
  Agent, Registry, RegisterRequest, agent_id, register_id, get, list, new, values,
}
use opa_hub.Registry.Invariant.{IsWellFormed}
use opa_hub.Registry.Listing.{list-IsSorted}
use opa_hub.Registry.History.{
  Call, registered, beat, pushed, apply, replay, Reachable, started, stepped, pushes, Continues,
  Reachable-IsWellFormed, replay-Continues,
}
use opa_hub.Registry.Scope.{list_scoped, agent_in_scope}
use opa_hub.Registry.Scope.Isolation.{IsVisible, list_scoped-filter, list_scoped-IsVisible}
use opa_hub.Registry.Organizations.{org_id, organizations}
use opa_hub.Registry.Organizations.Tally.{members, summary_of, find_by-organizations}
use opa_hub.Registry.Handler.{Handler, path_id, AgentList, serve_heartbeat, serve_list, serve_get}
use opa_hub.Registry.Handler.Laws.{
  HeartbeatOutcome, shown, serve_heartbeat_cases, serve_get-serve_list,
}

-- agents `a1` of the organization `acme` and `b1` of `globex`
abbrev ask : String → String → RegisterRequest
ask id org = record {
  agent_id = id;
  hostname = "edge";
  version = "1";
  organization_id = org;
  project_id = "";
  labels = [];
}

abbrev a1_enrolls : Call
a1_enrolls = registered 1 [] (ask "a1" "acme")

abbrev b1_enrolls : Call
b1_enrolls = registered 2 [] (ask "b1" "globex")

abbrev pub fleet : Registry
fleet = apply a1_enrolls (apply b1_enrolls (new (pos 0)))

-- the same agents, in the other order of the map
abbrev turned_fleet : Registry
turned_fleet = apply b1_enrolls (apply a1_enrolls (new (pos 0)))

fleet-Reachable : Reachable fleet
fleet-Reachable = stepped (stepped (started (pos 0)) b1_enrolls) a1_enrolls

turned_fleet-Reachable : Reachable turned_fleet
turned_fleet-Reachable = stepped (stepped (started (pos 0)) a1_enrolls) b1_enrolls

fleet-IsWellFormed : IsWellFormed fleet
fleet-IsWellFormed = Reachable-IsWellFormed fleet-Reachable

turned_fleet-IsWellFormed : IsWellFormed turned_fleet
turned_fleet-IsWellFormed = Reachable-IsWellFormed turned_fleet-Reachable

-- an agent of the fleet
abbrev a1 : Agent
a1 = record {
  id = "a1";
  hostname = "edge";
  version = "1";
  organization_id = "acme";
  project_id = "default-project";
  labels = [];
  status = "online";
  registered_at = 1;
  last_seen_at = 1;
  last_push_at = none;
  push_count = 0;
}

a1_filed : lookup "a1" fleet.agents ≡ some a1
unfolding apply lookup new insert register_id trim_space
a1_filed = refl

-- a package of tenants that takes every request for an organization's, as the hub's comments say
abbrev pub strict : TenantLib
strict = record {
  all = "all";
  default_organization_id = "default-org";
  default_project_id = "default-project";
  auth_enforced = true;
  org_scoped = λ ctx. true;
  project_scoped = λ ctx. if ctx.project_id == "" then false else true;
  from_request = λ header. record {
    organization_id = header "X-Organization-ID";
    project_id = "";
    project_ids = [];
  };
}

pub strict-Enforces : Enforces strict
strict-Enforces = record { scoped = λ auth ctx. refl }

abbrev pub acme : Context
acme = record { organization_id = "acme"; project_id = ""; project_ids = [] }

abbrev acme_header : String → String
acme_header k = if k == "X-Organization-ID" then "acme" else ""

abbrev get_a1 : Request Unit
get_a1 = record {
  method = "GET";
  path = "/api/agents/a1";
  header = acme_header;
  query = λ k. "";
  body = none;
}

abbrev pub get_all : Request Unit
get_all = record get_a1 { path = "/api/agents" }

abbrev posted : {B : Type 0} → B → Request B
posted b = record {
  method = "POST";
  path = "";
  header = acme_header;
  query = λ k. "";
  body = some b;
}

abbrev closed_handler : Handler
closed_handler = record { enroll_token = ""; auth_required = true }

abbrev open_handler : Handler
open_handler = record { enroll_token = ""; auth_required = false }

Reachable-IsWellFormed_example : IsWellFormed fleet
Reachable-IsWellFormed_example =
    Reachable-IsWellFormed (stepped (stepped (started (pos 0)) b1_enrolls) a1_enrolls)

replay-Continues_example :
    (b : Agent) × (lookup "a1"
        (replay (beat 3 "a1" ∷ pushed 4 "a1" ∷ pushed 5 "b1" ∷ []) fleet).agents
      ≡ some b)
    × Continues a1 b (pushes "a1" (beat 3 "a1" ∷ pushed 4 "a1" ∷ pushed 5 "b1" ∷ []))
replay-Continues_example =
    replay-Continues (beat 3 "a1" ∷ pushed 4 "a1" ∷ pushed 5 "b1" ∷ []) fleet "a1" a1 (omega arith)
      a1_filed

list-IsSorted_example : IsSorted agent_id (list 9 fleet)
list-IsSorted_example = list-IsSorted 9 fleet fleet-IsWellFormed

same_get : (id : String) → get 9 id fleet ≡ get 9 id turned_fleet
unfolding get apply lookup new insert register_id trim_space
same_get id = ground (arith, eq_iff "a1" id, eq_iff "b1" id, eq_iff "a1" "b1")

a1_path : path_id "/api/agents/a1" ≡ "a1"
unfolding path_id trim_slash trim_prefix
a1_path = refl

list_scoped-filter_example :
    list_scoped strict 9 acme fleet
    ≡ filter (λ a. agent_in_scope strict (some a) acme) (list 9 fleet)
list_scoped-filter_example = list_scoped-filter strict 9 acme fleet

list_scoped-IsVisible_example : All (IsVisible strict acme) (list_scoped strict 9 acme fleet)
list_scoped-IsVisible_example = list_scoped-IsVisible strict 9 acme fleet strict-Enforces refl

find_by-organizations_example :
    find_by org_id "acme" (organizations fleet)
    ≡ summary_of "acme" (members "acme" (values fleet.agents))
find_by-organizations_example = find_by-organizations "acme" fleet

serve_heartbeat_cases_example :
    HeartbeatOutcome 5 (posted "a1") fleet (serve_heartbeat open_handler 5 (posted "a1") fleet)
serve_heartbeat_cases_example = serve_heartbeat_cases open_handler 5 (posted "a1") fleet

serve_get-serve_list_example :
    (l : AgentList) × (serve_list strict 9 get_all fleet ≡ write_json 200 l)
    × (l.count ≡ length l.agents)
    × (serve_get strict 9 get_a1 fleet ≡ shown (find_by agent_id "a1" l.agents))
unfolding path_id
serve_get-serve_list_example =
    serve_get-serve_list strict 9 get_a1 get_all fleet fleet-IsWellFormed refl refl refl
      (ground (arith, a1_path, eq_iff "a1" "")) (ground (arith, a1_path, eq_iff "a1" "register"))
      (ground (arith, a1_path, eq_iff "a1" "heartbeat"))
