-- ===== src/Query/ServiceMap/Graph/Outgoing.antt =====
-- The calls that the nodes of the map send.
use opa_hub.Prelude.{
  ℕ, ◌+◌, String, true, ◌≡◌, refl, List, [], ◌∷◌, ◌++◌, ◌⊎◌, inl, inr, map, All, ◌==◌, eq_iff,
  arith, Bool-cases, if◌then◌else◌,
}
use opa_hub.Prelude.Assoc.{Fresh, Distinct, lookup}
use opa_hub.Query.Db.{Row}
use opa_hub.Query.ServiceMap.{Arith, Thresholds, Edge}
use opa_hub.Query.ServiceMap.External.{wrapped, merged}
use opa_hub.Query.ServiceMap.Graph.Named.{
  has, All-append, All-map, and_left, dep_names-Keeps, row_names-Keeps, service_edges-named,
  external_edges-named, edge_names-Distinct, dep_names-Distinct, row_names-Distinct,
}
use opa_hub.Query.ServiceMap.Graph.{
  Node, Names, edge_names, dep_names, dep_targets, row_names, service_edges, external_edges,
  stats_by_svc, outgoing, service_node, service_nodes, external_node, append_external_dep_nodes,
  graph_of,
}

later_sum :
    (x n c s : ℕ) → wrapped x ≡ wrapped (wrapped (n + c) + s) → wrapped x ≡ wrapped (n + (c + s))
later_sum x n c s h = omega arith

module _ {F : Type 0} where
  -- the calls of all edges
  abbrev pub calls_of : List (Edge F) → ℕ
  calls_of [] = 0
  calls_of (e ∷ es) = e.call_count + calls_of es

  -- the calls that all nodes send
  abbrev pub sent_by : List (Node F) → ℕ
  sent_by [] = 0
  sent_by (n ∷ ns) = n.outgoing_calls + sent_by ns

  -- the calls of the edges from a node, without wrapping
  abbrev from_node : String → List (Edge F) → ℕ
  from_node name [] = 0
  from_node name (e ∷ es) = (if e.from == name then e.call_count else 0) + from_node name es

  abbrev from_nodes : Names → List (Edge F) → ℕ
  from_nodes [] es = 0
  from_nodes ((name, set) ∷ names) es = from_node name es + from_nodes names es

from_nodes-nil : (F : Type 0) (names : Names) → from_nodes {F = F} names [] ≡ 0
from_nodes-nil F [] = refl
from_nodes-nil F ((name, set) ∷ names) = let later = from_nodes-nil F names in omega arith

two_sums :
    (x y u v : ℕ)
    → wrapped x ≡ wrapped (0 + u)
    → wrapped y ≡ wrapped v
    → wrapped (x + y) ≡ wrapped (u + v)
two_sums x y u v h k = omega arith

all_sent :
    (total s e f c : ℕ)
    → total ≡ s + e
    → e ≡ 0
    → wrapped s ≡ wrapped f
    → f ≡ c
    → wrapped total ≡ wrapped c
all_sent total s e f c p q r u = omega arith

module _ {F : Type 0} where
  outgoing-from_node :
      (name : String) (es : List (Edge F)) (n : ℕ)
      → wrapped (outgoing name es n) ≡ wrapped (n + from_node name es)
  unfolding outgoing
  outgoing-from_node name [] n = omega arith
  outgoing-from_node name (e ∷ es) n = elim (Bool-cases (e.from == name)) [
    | inl h ↦
        rw h
          (later_sum _ n e.call_count _ (outgoing-from_node name es (wrapped (n + e.call_count))))
    | inr h ↦ rw h (let later = outgoing-from_node name es n in omega arith)
  ]

  -- the calls of an edge that leaves one of some nodes
  abbrev share : Names → Edge F → ℕ
  share [] e = 0
  share ((name, set) ∷ names) e = (if e.from == name then e.call_count else 0) + share names e

  from_nodes-edge :
      (names : Names) (e : Edge F) (es : List (Edge F))
      → from_nodes names (e ∷ es) ≡ share names e + from_nodes names es
  from_nodes-edge [] e es = omega arith
  from_nodes-edge ((name, set) ∷ names) e es = let later = from_nodes-edge names e es in omega arith

  share-Fresh : (names : Names) (e : Edge F) → Fresh e.from names → share names e ≡ 0
  share-Fresh [] e h = refl
  share-Fresh ((name, set) ∷ names) e (n, h) =
      let later = share-Fresh names e h in ground (arith, eq_iff e.from name)

  -- an edge leaves one node
  share-one :
      (names : Names) (e : Edge F)
      → Distinct names
      → has e.from names ≡ true
      → share names e ≡ e.call_count
  unfolding has lookup
  share-one [] e d h = ground arith
  share-one ((name, set) ∷ names) e (f, d) h = elim (Bool-cases (e.from == name)) [
    | inl k ↦
        let same : e.from ≡ name = ground (arith, eq_iff e.from name) in
        let none_later = share-Fresh names e (rw same f) in rw k (omega arith)
    | inr k ↦
        let later = share-one names e d in ground (arith, eq_iff e.from name, eq_iff name e.from)
  ]

  -- every edge leaves one of the nodes
  from_nodes-calls_of :
      (names : Names) (es : List (Edge F))
      → Distinct names
      → All (λ e. has e.from names ≡ true) es
      → from_nodes names es ≡ calls_of es
  from_nodes-calls_of names [] d h = from_nodes-nil F names
  from_nodes-calls_of names (e ∷ es) d (h, hs) =
      let first = share-one names e d h in
      let rest = from_nodes-calls_of names es d hs in
      let both_parts = from_nodes-edge names e es in omega arith

  sent_by-append : (xs ys : List (Node F)) → sent_by (xs ++ ys) ≡ sent_by xs + sent_by ys
  sent_by-append [] ys = omega arith
  sent_by-append (x ∷ xs) ys = let later = sent_by-append xs ys in omega arith

module _ {F : Type 0} (a : Arith F) (t : Thresholds F) where
  service_nodes-from_nodes :
      (es : List (Edge F)) (stats : List (String × Row F)) (names : Names)
      → wrapped (sent_by (service_nodes a t es stats names)) ≡ wrapped (from_nodes names es)
  unfolding service_nodes service_node
  service_nodes-from_nodes es stats [] = refl
  service_nodes-from_nodes es stats ((name, set) ∷ names) =
      let first = outgoing-from_node name es 0 in
      let rest = service_nodes-from_nodes es stats names in two_sums _ _ _ _ first rest

  external_nodes-silent :
      (es : List (Edge F)) (names : Names)
      → sent_by (map (λ entry. external_node a t es entry.0) names) ≡ 0
  unfolding external_node
  external_nodes-silent es [] = refl
  external_nodes-silent es ((name, set) ∷ names) =
      let later = external_nodes-silent es names in omega arith

  -- Every call of the map is sent by one node: the outgoing calls of all the nodes come to the calls of
  -- all the edges, modulo 2^64, whatever the reads answer.
  pub graph_of-sent_by :
      (rows : List (Row F)) (sql http redis cache services stats : String ⊎ List (Row F))
      → let g = graph_of a t rows (merged a sql http redis cache) services stats in
        wrapped (sent_by g.nodes) ≡ wrapped (calls_of g.edges)
  unfolding graph_of append_external_dep_nodes
  graph_of-sent_by rows sql http redis cache services stats =
      let merge = merged a sql http redis cache in
      let named_rows = edge_names rows [] in
      let called = dep_names merge named_rows in
      let names = row_names stats (row_names services called) in
      let edges = service_edges a t rows ++ external_edges a t merge in
      let kept : (name : String) → has name called ≡ true → has name names ≡ true =
        λ name h. row_names-Keeps stats name _ (row_names-Keeps services name called h) in
      let once : Distinct names = row_names-Distinct stats _ (
        row_names-Distinct services _
          (dep_names-Distinct merge _ (edge_names-Distinct rows [] tt))) in
      let sources : All (λ e. has e.from names ≡ true) edges =
        All-append _ (service_edges a t rows) (external_edges a t merge)
          (All-map _ _
            (λ e h. kept e.from (dep_names-Keeps merge e.from named_rows (and_left _ _ h))) _
            (service_edges-named a t rows []))
          (All-map _ _ (λ e h. kept e.from (and_left _ _ h)) _
            (external_edges-named a t merge named_rows [])) in
      let sum = from_nodes-calls_of names edges once sources in
      let services_sum = service_nodes-from_nodes edges (stats_by_svc stats []) names in
      let silent = external_nodes-silent edges (dep_targets merge []) in
      let parts =
        sent_by-append (service_nodes a t edges (stats_by_svc stats []) names)
          (map (λ entry. external_node a t edges entry.0) (dep_targets merge [])) in
      all_sent _ _ _ _ _ parts silent services_sum sum
