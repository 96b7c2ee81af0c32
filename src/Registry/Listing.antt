-- ===== src/Registry/Listing.antt =====
-- `List` and `Get` of registry.go.
use mathlib.Core.Option
use opa_hub.Prelude.{
  ℕ, String, ◌≡◌, refl, ap, sym, ◌∙◌, none, List, [], ◌∷◌, map, eq_iff, arith, All, length,
}
use opa_hub.Prelude.Assoc.{lookup, Distinct, Fresh}
use opa_hub.Sort.{find_by, IsSorted}
use opa_hub.Sort.Laws.{length-sort_by, find_by-sort_by, sort_by-IsSorted, sorted_unique, DistinctBy}
use opa_hub.Registry.{Agent, Registry, agent_id, viewed, values, get, list, count}
use opa_hub.Registry.Invariant.{IsWellFormed, Keyed}

module _ (now stale_after : ℕ) where
  find_by-values :
      (k : String) (m : List (String × Agent))
      → All Keyed m
      → find_by agent_id k (map (viewed now stale_after) (values m))
        ≡ Option.map (viewed now stale_after) (lookup k m)
  unfolding find_by lookup
  find_by-values k [] h = refl
  find_by-values k ((j, a) ∷ m) (e, h) = ground (arith, find_by-values k m h)

  lookup-of_Fresh : (k : String) (m : List (String × Agent)) → Fresh k m → lookup k m ≡ none
  unfolding lookup
  lookup-of_Fresh k [] f = refl
  lookup-of_Fresh k ((j, a) ∷ m) (n, f) = ground (arith, eq_iff j k, lookup-of_Fresh k m f)

  DistinctBy-values :
      (m : List (String × Agent))
      → Distinct m
      → All Keyed m
      → DistinctBy agent_id (map (viewed now stale_after) (values m))
  DistinctBy-values [] d h = tt
  DistinctBy-values ((j, a) ∷ m) (f, d) (e, h) = (
    find_by-values a.id m h
        ∙ ap (Option.map (viewed now stale_after)) (lookup-of_Fresh a.id m (rw e at f)),
    DistinctBy-values m d h,
  )

-- In a well-formed registry the agents of `List` ascend strictly by id.
pub list-IsSorted : (now : ℕ) (r : Registry) → IsWellFormed r → IsSorted agent_id (list now r)
unfolding list
list-IsSorted now r w =
    sort_by-IsSorted agent_id _ (DistinctBy-values now r.stale_after r.agents w.distinct w.keyed)

-- In a well-formed registry `List` holds under each id exactly what `Get` returns for it.
pub find_by-list :
    (now : ℕ) (r : Registry) (id : String)
    → IsWellFormed r
    → find_by agent_id id (list now r) ≡ get now id r
unfolding list get
find_by-list now r id w =
    find_by-sort_by agent_id id _ (DistinctBy-values now r.stale_after r.agents w.distinct w.keyed)
    ∙ find_by-values now r.stale_after id r.agents w.keyed

length-values :
    (m : List (String × Agent)) (now s : ℕ) → length (map (viewed now s) (values m)) ≡ length m
length-values [] now s = refl
length-values (e ∷ m) now s = ground (arith, length-values m now s)

-- `List` has as many agents as `Count` says.
pub length-list : (now : ℕ) (r : Registry) → length (list now r) ≡ count r
unfolding list
length-list now r = length-sort_by agent_id _ ∙ length-values r.agents now r.stale_after

-- `List` does not depend on the order in which the map is iterated: two well-formed registries
-- whose `Get` agrees on every id have the same `List`.
pub list_order_irrelevant :
    (now : ℕ) (r s : Registry)
    → IsWellFormed r
    → IsWellFormed s
    → ((id : String) → get now id r ≡ get now id s)
    → list now r ≡ list now s
list_order_irrelevant now r s wr ws same =
    sorted_unique agent_id (list now r) (list now s) (list-IsSorted now r wr)
      (list-IsSorted now s ws)
      (λ id. find_by-list now r id wr ∙ same id ∙ sym (find_by-list now s id ws))
