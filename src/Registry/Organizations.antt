-- ===== src/Registry/Organizations.antt =====
-- `Organizations` of internal/registry/registry.go: the organizations of the registered agents.
pub mod Tally
use mathlib.Core.Option
use opa_hub.Prelude.{ℕ, suc, String, Option, none, some, List, [], ◌∷◌, map}
use opa_hub.Prelude.Assoc.{lookup, insert}
use opa_hub.Text.{trim_space}
use opa_hub.Sort.{sort_by}
use opa_hub.Registry.{Agent, Registry, values, or_default}

pub record OrganizationSummary : Type 0 where
  pub id : String
  pub name : String
  pub agent_count : ℕ
  pub source : String

-- counts[id], 0 for a key that is absent
unfoldable pub count_of : String → List (String × ℕ) → ℕ
count_of id counts = Option.get_or (lookup id counts) 0

unfoldable pub org_of : Agent → String
org_of a = or_default (trim_space a.organization_id) "default-org"

-- the loop `for _, a := range r.agents { …; counts[org]++ }`
tally : List Agent → List (String × ℕ) → List (String × ℕ)
tally [] counts = counts
tally (a ∷ rest) counts = tally rest (insert (org_of a) (suc (count_of (org_of a) counts)) counts)

abbrev pub keys : List (String × ℕ) → List String
keys m = map (λ e. e.0) m

abbrev pub whole : String → String
whole s = s

abbrev pub org_id : OrganizationSummary → String
org_id o = o.id

abbrev pub summary : String → ℕ → OrganizationSummary
summary id n = record { id = id; name = ""; agent_count = n; source = "agent_registry" }

-- the loop over the sorted ids
abbrev summaries : List (String × ℕ) → List String → List OrganizationSummary
summaries counts ids = map (λ id. summary id (count_of id counts)) ids

-- `Organizations`
unfoldable pub organizations : Registry → List OrganizationSummary
unfolding tally
organizations r =
    let counts = tally (values r.agents) [] in summaries counts (sort_by whole (keys counts))
