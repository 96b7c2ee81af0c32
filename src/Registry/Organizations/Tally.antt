-- ===== src/Registry/Organizations/Tally.antt =====
-- The tally of agents by organization.
use mathlib.Core.Option
use opa_hub.Prelude.{
  ℕ, zero, suc, ◌+◌, String, ◌≡◌, refl, ap, ◌∙◌, Option, none, some, List, [], ◌∷◌, ◌==◌, eq_iff,
  arith, All, if◌then◌else◌,
}
use opa_hub.Prelude.Assoc.{lookup, insert, lookup-insert, Distinct, Distinct-insert, Fresh}
use opa_hub.Sort.{sort_by, find_by, IsSorted, Lt}
use opa_hub.Sort.Laws.{find_by-sort_by, sort_by-IsSorted, DistinctBy}
use opa_hub.Registry.{Agent, Registry, values}
use opa_hub.Registry.Organizations.{
  OrganizationSummary, count_of, org_of, tally, keys, whole, org_id, summary, summaries,
  organizations,
}

-- the number of agents of an organization
abbrev pub members : String → List Agent → ℕ
members id [] = 0
members id (a ∷ l) = (if org_of a == id then 1 else 0) + members id l

-- an entry raised by a number of agents; no agent makes no entry
abbrev raised : ℕ → Option ℕ → Option ℕ
raised zero o = o
raised (suc n) none = some (suc n)
raised (suc n) (some c) = some (suc n + c)

lookup-tally :
    (id : String) (l : List Agent) (counts : List (String × ℕ))
    → lookup id (tally l counts) ≡ raised (members id l) (lookup id counts)
unfolding tally count_of
lookup-tally id [] counts = refl
lookup-tally id (a ∷ rest) counts = ground (
  arith,
  lookup-tally id rest (insert (org_of a) (suc (count_of (org_of a) counts)) counts),
  lookup-insert (org_of a) id (suc (count_of (org_of a) counts)) counts,
  eq_iff (org_of a) id,
)

Distinct-tally :
    (l : List Agent) (counts : List (String × ℕ)) → Distinct counts → Distinct (tally l counts)
unfolding tally
Distinct-tally [] counts d = d
Distinct-tally (a ∷ rest) counts d =
    Distinct-tally rest (insert (org_of a) (suc (count_of (org_of a) counts)) counts)
      (Distinct-insert (org_of a) (suc (count_of (org_of a) counts)) counts d)

find_by-keys :
    (id : String) (m : List (String × ℕ))
    → find_by whole id (keys m) ≡ Option.map (λ n. id) (lookup id m)
unfolding find_by lookup
find_by-keys id [] = refl
find_by-keys id ((j, n) ∷ m) = ground (arith, eq_iff j id, find_by-keys id m)

find_by-of_Fresh :
    (id : String) (m : List (String × ℕ)) → Fresh id m → find_by whole id (keys m) ≡ none
unfolding find_by
find_by-of_Fresh id [] f = refl
find_by-of_Fresh id ((j, n) ∷ m) (ne, f) = ground (arith, eq_iff j id, find_by-of_Fresh id m f)

DistinctBy-keys : (m : List (String × ℕ)) → Distinct m → DistinctBy whole (keys m)
DistinctBy-keys [] d = tt
DistinctBy-keys ((j, n) ∷ m) (f, d) = (find_by-of_Fresh j m f, DistinctBy-keys m d)

find_by-summaries :
    (id : String) (counts : List (String × ℕ)) (ids : List String)
    → find_by org_id id (summaries counts ids)
      ≡ Option.map (λ j. summary j (count_of j counts)) (find_by whole id ids)
unfolding find_by
find_by-summaries id counts [] = refl
find_by-summaries id counts (j ∷ ids) = ground (arith, find_by-summaries id counts ids)

-- what `Organizations` holds for an organization with this many agents
abbrev pub summary_of : String → ℕ → Option OrganizationSummary
summary_of id zero = none
summary_of id (suc n) = some (summary id (suc n))

at_count :
    (id : String) (counts : List (String × ℕ)) (n : ℕ)
    → lookup id counts ≡ raised n (lookup id [])
    → Option.map (λ j. summary j (count_of j counts)) (Option.map (λ n. id) (lookup id counts))
      ≡ summary_of id n
unfolding count_of lookup
at_count id counts zero e = rw e
at_count id counts (suc n) e = rw e (ap (λ (o : Option ℕ). some (summary id (Option.get_or o 0))) e)

IsSorted-summaries :
    (counts : List (String × ℕ)) (ids : List String)
    → IsSorted whole ids
    → IsSorted org_id (summaries counts ids)
IsSorted-summaries counts [] s = tt
IsSorted-summaries counts (id ∷ ids) (a, s) = (below ids a, IsSorted-summaries counts ids s)
  where
    below :
        (l : List String) → All (λ j. Lt id j) l → All (λ o. Lt id (org_id o)) (summaries counts l)
    below [] h = tt
    below (j ∷ l) (p, h) = (p, below l h)

-- `Organizations` holds an organization exactly when some agent counts under it (an agent with a
-- blank organization counts under "default-org"), with the number of those agents.
pub find_by-organizations :
    (id : String) (r : Registry)
    → find_by org_id id (organizations r) ≡ summary_of id (members id (values r.agents))
unfolding organizations
find_by-organizations id r =
    let counts = tally (values r.agents) [] in
    find_by-summaries id counts (sort_by whole (keys counts))
    ∙ ap (Option.map (λ j. summary j (count_of j counts))) (
        find_by-sort_by whole id (keys counts)
          (DistinctBy-keys counts (Distinct-tally (values r.agents) [] tt))
        ∙ find_by-keys id counts)
    ∙ at_count id counts (members id (values r.agents)) (lookup-tally id (values r.agents) [])

-- The organizations ascend strictly by id, so none is listed twice.
pub organizations-IsSorted : (r : Registry) → IsSorted org_id (organizations r)
unfolding organizations
organizations-IsSorted r =
    let counts = tally (values r.agents) [] in
    IsSorted-summaries counts (sort_by whole (keys counts)) (
      sort_by-IsSorted whole (keys counts)
        (DistinctBy-keys counts (Distinct-tally (values r.agents) [] tt)))
