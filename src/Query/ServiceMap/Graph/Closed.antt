-- ===== src/Query/ServiceMap/Graph/Closed.antt =====
-- Every edge of the map runs between two of its nodes, and no end of an edge is a name that the code
-- passes over.
use opa_hub.Prelude.{
  String, Bool, true, false, ◌≡◌, List, [], ◌∷◌, ◌++◌, ◌⊎◌, inl, inr, map, All, any, ◌==◌, arith,
  Bool-cases,
}
use opa_hub.Prelude.Assoc.{lookup}
use opa_hub.Query.Intervals.{invalid_service_name}
use opa_hub.Query.Db.{Row}
use opa_hub.Query.ServiceMap.{Arith, Thresholds, Edge}
use opa_hub.Query.ServiceMap.External.{Dep, external_edge, merged}
use opa_hub.Query.ServiceMap.External.Merge.{AllNamed, merged-AllNamed}
use opa_hub.Query.ServiceMap.Graph.Named.{
  has, and_left, and_right, neither, All-append, named, dep_names-Keeps, row_names-Keeps,
  service_edges-named, external_edges-named,
}
use opa_hub.Query.ServiceMap.Graph.{
  Node, Names, is_dropped, edge_names, dep_names, dep_targets, row_names, stats_by_svc,
  service_edges, external_edges, service_node, service_nodes, external_node,
  append_external_dep_nodes, graph_of,
}

any-left : {A : Type 0} (p : A → Bool) (xs ys : List A) → any p xs ≡ true → any p (xs ++ ys) ≡ true
any-left p [] ys h = ground arith
any-left p (x ∷ xs) ys h = let rest = any-left p xs ys in ground arith

any-right : {A : Type 0} (p : A → Bool) (xs ys : List A) → any p ys ≡ true → any p (xs ++ ys) ≡ true
any-right p [] ys h = h
any-right p (x ∷ xs) ys h = let rest = any-right p xs ys h in ground arith

module _ {F : Type 0} where
  -- whether a list of nodes has a name
  abbrev has_node : String → List (Node F) → Bool
  has_node name nodes = any (λ n. n.id == name) nodes

  abbrev IsValid : Edge F → Type 0
  IsValid e = (invalid_service_name e.from ≡ false) × (invalid_service_name e.to ≡ false)

  -- An edge between two nodes, with names that the code does not pass over.
  abbrev pub IsJoined : List (Node F) → Edge F → Type 0
  IsJoined nodes e = (has_node e.from nodes ≡ true) × (has_node e.to nodes ≡ true) × IsValid e

module _ {F : Type 0} (a : Arith F) (t : Thresholds F) where
  service_nodes-has_node :
      (edges : List (Edge F)) (stats : List (String × Row F)) (names : Names) (name : String)
      → has name names ≡ true
      → has_node name (service_nodes a t edges stats names) ≡ true
  unfolding service_nodes has lookup service_node
  service_nodes-has_node edges stats [] name h = ground arith
  service_nodes-has_node edges stats ((other, set) ∷ names) name h =
      let later = service_nodes-has_node edges stats names name in ground arith

  external_nodes-has_node :
      (edges : List (Edge F)) (names : Names) (name : String)
      → has name names ≡ true
      → has_node name (map (λ entry. external_node a t edges entry.0) names) ≡ true
  unfolding has lookup external_node
  external_nodes-has_node edges [] name h = ground arith
  external_nodes-has_node edges ((other, set) ∷ names) name h =
      let later = external_nodes-has_node edges names name in ground arith

  IsJoined-both :
      (nodes : List (Node F)) (sources targets : Names)
      → ((name : String) → has name sources ≡ true → has_node name nodes ≡ true)
      → ((name : String) → has name targets ≡ true → has_node name nodes ≡ true)
      → (edges : List (Edge F)) → All (λ e. named sources targets e ≡ true) edges
      → All IsValid edges
      → All (IsJoined nodes) edges
  IsJoined-both nodes sources targets h k [] n v = tt
  IsJoined-both nodes sources targets h k (e ∷ edges) (n, ns) (v, vs) = (
    (h e.from (and_left _ _ n), k e.to (and_right (has e.from sources) _ n), v),
    IsJoined-both nodes sources targets h k edges ns vs,
  )

  service_edges-IsValid : (rows : List (Row F)) → All IsValid (service_edges a t rows)
  unfolding service_edges
  service_edges-IsValid [] = tt
  service_edges-IsValid (row ∷ rows) = elim (Bool-cases (is_dropped row)) [
    | inl d ↦ rw d (service_edges-IsValid rows)
    | inr k ↦ rw k (neither _ _ k, service_edges-IsValid rows)
  ]

  external_edges-IsValid :
      (merge : List (String × Dep F)) → AllNamed a merge → All IsValid (external_edges a t merge)
  unfolding external_edges external_edge
  external_edges-IsValid [] h = tt
  external_edges-IsValid ((key, d) ∷ merge) (n, h) = (n, external_edges-IsValid merge h)

  -- The map is closed: whatever the reads answer, every edge of it runs from a node to a node, and
  -- neither of its ends is a name that the code passes over, such as "" or "unknown".
  pub graph_of-IsJoined :
      (rows : List (Row F)) (sql http redis cache services stats : String ⊎ List (Row F))
      → let g = graph_of a t rows (merged a sql http redis cache) services stats in
        All (IsJoined g.nodes) g.edges
  unfolding graph_of append_external_dep_nodes
  graph_of-IsJoined rows sql http redis cache services stats =
      let merge = merged a sql http redis cache in
      let deps = dep_targets merge [] in
      let named_rows = edge_names rows [] in
      let called = dep_names merge named_rows in
      let names = row_names stats (row_names services called) in
      let edges = service_edges a t rows ++ external_edges a t merge in
      let kept : (name : String) → has name called ≡ true → has name names ≡ true =
        λ name h. row_names-Keeps stats name _ (row_names-Keeps services name called h) in
      let of_service : (name : String)
          → has name names ≡ true
          → has_node name (
              append_external_dep_nodes a t (service_nodes a t edges (stats_by_svc stats []) names)
                edges deps)
            ≡ true =
        λ name h.
          any-left _ (service_nodes a t edges (stats_by_svc stats []) names) _
            (service_nodes-has_node edges _ names name h) in
      let of_target : (name : String)
          → has name deps ≡ true
          → has_node name (
              append_external_dep_nodes a t (service_nodes a t edges (stats_by_svc stats []) names)
                edges deps)
            ≡ true =
        λ name h.
          any-right _ (service_nodes a t edges (stats_by_svc stats []) names) _
            (external_nodes-has_node edges deps name h) in
      All-append _ (service_edges a t rows) (external_edges a t merge)
        (IsJoined-both _ named_rows named_rows
          (λ name h. of_service name (kept name (dep_names-Keeps merge name _ h)))
          (λ name h. of_service name (kept name (dep_names-Keeps merge name _ h))) _
          (service_edges-named a t rows []) (service_edges-IsValid rows))
        (IsJoined-both _ called deps (λ name h. of_service name (kept name h)) of_target _
          (external_edges-named a t merge named_rows [])
          (external_edges-IsValid merge (merged-AllNamed a sql http redis cache)))
