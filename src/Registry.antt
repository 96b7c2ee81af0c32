-- ===== src/Registry.antt =====
-- internal/registry/registry.go: the in-memory registry of edge agents and its operations. The
-- clock and the random bytes are arguments; a time is a number of nanoseconds. The mutex makes each
-- method one step.
pub mod Invariant
pub mod Listing
pub mod Effects
pub mod History
pub mod Scope
pub mod Organizations
pub mod Handler
pub mod Tests
use Prim.Native.String
use Prim.Native.String.{slice}
use mathlib.Core.Option
use opa_hub.Prelude.{
  ℕ, ◌+◌, ◌-◌, ◌/◌, ◌%◌, String, Option, none, some, List, [], ◌∷◌, map, ◌==◌, ltb, length, ℤ, pos,
  nonpos, add_u64, if◌then◌else◌,
}
use opa_hub.Prelude.Assoc.{lookup, insert}
use opa_hub.Text.{trim_space}
use opa_hub.Sort.{sort_by}

-- A registered edge agent.
pub record Agent : Type 0 where
  pub id : String
  pub hostname : String
  pub version : String
  pub organization_id : String
  pub project_id : String
  pub labels : List (String × String)
  pub status : String
  pub registered_at : ℕ
  pub last_seen_at : ℕ
  pub last_push_at : Option ℕ
  pub push_count : ℕ

pub record Registry : Type 0 where
  pub agents : List (String × Agent)
  pub stale_after : ℕ

pub record RegisterRequest : Type 0 where
  pub agent_id : String
  pub hostname : String
  pub version : String
  pub organization_id : String
  pub project_id : String
  pub labels : List (String × String)

abbrev pub five_minutes : ℕ
five_minutes = 300_000_000_000

abbrev duration : ℤ → ℕ
duration (pos n) = n
duration d = 0

-- `New`
unfoldable pub new : ℤ → Registry
new stale_after = record {
  agents = [];
  stale_after = if nonpos stale_after then five_minutes else duration stale_after;
}

-- `hex.EncodeToString`
hex_encode : List ℕ → String
hex_encode [] = ""
hex_encode (b ∷ bs) =
    String.◌++◌ (slice "0123456789abcdef" (b / 16) (b / 16 + 1))
      (String.◌++◌ (slice "0123456789abcdef" (b % 16) (b % 16 + 1)) (hex_encode bs))

-- `newAgentID` on the eight random bytes
unfoldable pub new_agent_id : List ℕ → String
unfolding hex_encode
new_agent_id random = String.◌++◌ "agent-" (hex_encode random)

-- a field that the request may leave empty
abbrev pub or_default : String → String → String
or_default given default = if given == "" then default else given

-- what `Register` writes over an agent that it knows
abbrev refreshed : ℕ → RegisterRequest → Agent → Agent
refreshed now req existing = record existing {
  hostname = or_default req.hostname "unknown";
  version = req.version;
  organization_id = or_default req.organization_id "default-org";
  project_id = or_default req.project_id "default-project";
  labels = req.labels;
  last_seen_at = now;
  status = "online";
}

-- the agent that `Register` creates
abbrev enrolled : ℕ → String → RegisterRequest → Agent
enrolled now id req = record {
  id = id;
  hostname = or_default req.hostname "unknown";
  version = req.version;
  organization_id = or_default req.organization_id "default-org";
  project_id = or_default req.project_id "default-project";
  labels = req.labels;
  status = "online";
  registered_at = now;
  last_seen_at = now;
  last_push_at = none;
  push_count = 0;
}

-- the key under which `Register` files a request
unfoldable pub register_id : List ℕ → RegisterRequest → String
unfolding new_agent_id
register_id random req = or_default (trim_space req.agent_id) (new_agent_id random)

-- `Register`; its error is always nil
unfoldable pub register : ℕ → List ℕ → RegisterRequest → Registry → Registry × Agent
register now random req r =
    let id = register_id random req in
    let a : Agent = elim (lookup id r.agents) [
      | none ↦ enrolled now id req
      | some existing ↦ refreshed now req existing
    ] in
    (record r { agents = insert id a r.agents }, a)

-- what `Heartbeat` makes of an agent
abbrev seen : ℕ → Agent → Agent
seen now a = record a { last_seen_at = now; status = "online" }

-- what `MarkPush` makes of an agent
abbrev counted : ℕ → Agent → Agent
counted now a = record a {
  last_seen_at = now;
  last_push_at = some now;
  push_count = add_u64 a.push_count 1;
  status = "online";
}

-- `Heartbeat`
unfoldable pub heartbeat : ℕ → String → Registry → Registry × Option Agent
heartbeat now agent_id r = elim (lookup agent_id r.agents) [
  | none ↦ (r, none)
  | some a ↦ (record r { agents = insert agent_id (seen now a) r.agents }, some (seen now a))
]

-- `MarkPush`
unfoldable pub mark_push : ℕ → String → Registry → Registry
mark_push now agent_id r = elim (lookup agent_id r.agents) [
  | none ↦ r
  | some a ↦ record r { agents = insert agent_id (counted now a) r.agents }
]

-- `statusOf`
unfoldable pub status_of : ℕ → ℕ → Agent → String
status_of now stale_after a = if ltb stale_after (now - a.last_seen_at) then "stale" else "online"

-- the copy that `Get` and `List` return
abbrev pub viewed : ℕ → ℕ → Agent → Agent
viewed now stale_after a = record a { status = status_of now stale_after a }

-- `Get`
unfoldable pub get : ℕ → String → Registry → Option Agent
unfolding status_of
get now id r = Option.map (viewed now r.stale_after) (lookup id r.agents)

abbrev pub values {ℓ} : {V : Type ℓ} → List (String × V) → List V
values m = map (λ e. e.1) m

abbrev pub agent_id : Agent → String
agent_id a = a.id

-- `List`
unfoldable pub list : ℕ → Registry → List Agent
unfolding sort_by status_of
list now r = sort_by agent_id (map (viewed now r.stale_after) (values r.agents))

-- `Count`
abbrev pub count : Registry → ℕ
count r = length r.agents
