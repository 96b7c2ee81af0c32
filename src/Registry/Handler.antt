-- ===== src/Registry/Handler.antt =====
-- The HTTP handlers of internal/registry/registry.go. `Decode` is applied to a limited body, so a
-- body that is too large does not decode.
pub mod Laws
use mathlib.Core.Bool.{not, ◌&&◌, ◌||◌}
use opa_hub.Prelude.{ℕ, String, Bool, Option, none, some, List, ◌==◌, length, if◌then◌else◌}
use opa_hub.Text.{trim_prefix, trim_slash}
use opa_hub.Http.{Request, Response, write_error, write_json, method_not_allowed, bearer_token}
use opa_hub.Tenant.{TenantLib}
use opa_hub.Registry.{Agent, Registry, RegisterRequest, register, heartbeat, get}
use opa_hub.Registry.Scope.{list_scoped, agent_in_scope}

-- The fields of `Handler` but for the registry, which is the state.
pub record Handler : Type 0 where
  pub enroll_token : String
  pub auth_required : Bool

-- the token of an enroll request: its own header, or a bearer token, or ""
unfoldable pub enroll_header : (String → String) → String
unfolding bearer_token
enroll_header header =
    let tok = header "X-OPA-Enroll-Token" in
    if tok == ""
    then elim (bearer_token (header "Authorization")) [ none ↦ "" | some bearer ↦ bearer ]
    else tok

-- `enrollOK`
unfoldable pub enroll_ok : Handler → (String → String) → Bool
enroll_ok h header =
    if h.enroll_token == "" then not h.auth_required else enroll_header header == h.enroll_token

-- `ServeRegister`
unfoldable pub serve_register :
    Handler → ℕ → List ℕ → Request RegisterRequest → Registry → Registry × Response Agent
unfolding enroll_ok
serve_register h now random req r =
    if not (req.method == "POST")
    then (r, method_not_allowed "POST required")
    else if not (enroll_ok h req.header)
    then (r, write_error 401 "unauthorized" "invalid or missing enroll token")
    else elim req.body [
      | none ↦ (r, write_error 400 "bad_request" "invalid JSON body")
      | some body ↦ let (r', agent) = register now random body r in (r', write_json 200 agent)
    ]

heartbeat_reply : Registry × Option Agent → Registry × Response Agent
heartbeat_reply (r, none) = (r, write_error 404 "not_found" "agent not registered")
heartbeat_reply (r, some agent) = (r, write_json 200 agent)

-- the test `err != nil || body.AgentID == ""` on the decoded body
abbrev named : Option String → Option String
named none = none
named (some id) = if id == "" then none else some id

-- `ServeHeartbeat`; the body is its field `agent_id`
unfoldable pub serve_heartbeat : Handler → ℕ → Request String → Registry → Registry × Response Agent
unfolding enroll_ok heartbeat_reply
serve_heartbeat h now req r =
    if not (req.method == "POST")
    then (r, method_not_allowed "POST required")
    else if not (enroll_ok h req.header)
    then (r, write_error 401 "unauthorized" "invalid or missing enroll token")
    else elim (named req.body) [
      | none ↦ (r, write_error 400 "bad_request" "agent_id required")
      | some id ↦ heartbeat_reply (heartbeat now id r)
    ]

pub record AgentList : Type 0 where
  pub agents : List Agent
  pub count : ℕ

-- `ServeList`
unfoldable pub serve_list : TenantLib → ℕ → Request Unit → Registry → Response AgentList
serve_list t now req r =
    if not (req.method == "GET")
    then method_not_allowed "GET required"
    else let agents = list_scoped t now (t.from_request req.header) r in
      write_json 200 (record { agents = agents; count = length agents })

-- the agent id of a path
unfoldable pub path_id : String → String
unfolding trim_prefix trim_slash
path_id path = trim_slash (trim_prefix path "/api/agents/")

agent_reply : Bool → Option Agent → Response Agent
agent_reply in_scope none = write_error 404 "not_found" "agent not found"
agent_reply in_scope (some agent) =
    if in_scope then write_json 200 agent else write_error 404 "not_found" "agent not found"

-- `ServeGet`
unfoldable pub serve_get : TenantLib → ℕ → Request Unit → Registry → Response Agent
unfolding agent_reply
serve_get t now req r =
    let id = path_id req.path in
    let agent = get now id r in
    if not (req.method == "GET")
    then method_not_allowed "GET required"
    else if id == "" || (id == "register" || id == "heartbeat")
    then write_error 404 "not_found" "agent not found"
    else agent_reply (agent_in_scope t agent (t.from_request req.header)) agent
