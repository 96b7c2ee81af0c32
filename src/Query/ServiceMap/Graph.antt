-- ===== src/Query/ServiceMap/Graph.antt =====
-- The answer of `ServeServiceMap` from what its reads answer: the edges, the set of the services, which
-- is a Go map to true, and the nodes. The order of a map is that of its entries.
pub mod Named
pub mod Closed
pub mod Outgoing
use opa_hub.Prelude.{
  ℕ, ◌+◌, String, Bool, true, false, Option, none, some, List, [], ◌∷◌, ◌++◌, ◌⊎◌, inl, inr, map,
  ◌==◌, ◌&&◌, ◌||◌, not, ltb, if◌then◌else◌,
}
use opa_hub.Prelude.Assoc.{lookup, insert}
use opa_hub.Query.Intervals.{invalid_service_name}
use opa_hub.Query.Db.{Row}
use opa_hub.Query.ServiceMap.{Arith, Health, Thresholds, Edge, calc_health, success_of}
use opa_hub.Query.ServiceMap.Targets.{target_kind}
use opa_hub.Query.ServiceMap.External.{Dep, wrapped, per_call, external_edge}

-- What a node of a service has besides; the optional values are there where they are above zero.
pub record Stats (F : Type 0) : Type 0 where
  pub total_spans : ℕ
  pub min_duration : Option F
  pub max_duration : Option F
  pub p95_duration : Option F
  pub p99_duration : Option F
  pub throughput : Option F
  pub total_traffic : Option F

pub record Node (F : Type 0) : Type 0 where
  pub id : String
  pub service : String
  pub health_status : Health
  pub avg_duration : F
  pub error_rate : F
  pub incoming_calls : ℕ
  pub outgoing_calls : ℕ
  pub node_type : String
  pub stats : Option (Stats F)

pub record Graph (F : Type 0) : Type 0 where
  pub nodes : List (Node F)
  pub edges : List (Edge F)

-- `m[name] = true`
abbrev pub mark : String → List (String × Bool) → List (String × Bool)
mark name names = insert name true names

-- `map[string]bool` of names
abbrev pub Names : Type 0
Names = List (String × Bool)

module _ {F : Type 0} where
  -- the calls to a node and from it
  unfoldable pub incoming : String → List (Edge F) → ℕ → ℕ
  incoming name [] n = n
  incoming name (e ∷ es) n =
      incoming name es (if e.to == name then wrapped (n + e.call_count) else n)

  unfoldable pub outgoing : String → List (Edge F) → ℕ → ℕ
  outgoing name [] n = n
  outgoing name (e ∷ es) n =
      outgoing name es (if e.from == name then wrapped (n + e.call_count) else n)

  abbrev pub is_dropped : Row F → Bool
  is_dropped row =
      invalid_service_name (row.text "from_service") || invalid_service_name (row.text "to_service")

  -- the services at the ends of the edges
  unfoldable pub edge_names : List (Row F) → Names → Names
  unfolding invalid_service_name insert
  edge_names [] names = names
  edge_names (row ∷ rows) names = edge_names rows (
      if is_dropped row
      then names
      else mark (row.text "to_service") (mark (row.text "from_service") names))

  -- the services that call a target, and the targets
  unfoldable pub dep_names : List (String × Dep F) → Names → Names
  unfolding insert
  dep_names [] names = names
  dep_names ((key, d) ∷ merge) names = dep_names merge (mark d.from names)

  unfoldable pub dep_targets : List (String × Dep F) → Names → Names
  unfolding insert
  dep_targets [] names = names
  dep_targets ((key, d) ∷ merge) names = dep_targets merge (mark d.target names)

  -- the services of a read, none of them where it fails
  unfoldable pub row_names : String ⊎ List (Row F) → Names → Names
  unfolding invalid_service_name insert
  row_names (inl e) names = names
  row_names (inr []) names = names
  row_names (inr (row ∷ rows)) names =
      row_names (inr rows) (
        if invalid_service_name (row.text "service")
        then names
        else mark (row.text "service") names)

  -- `statsBySvc`
  unfoldable pub stats_by_svc :
      String ⊎ List (Row F) → List (String × Row F) → List (String × Row F)
  unfolding invalid_service_name insert
  stats_by_svc (inl e) stats = stats
  stats_by_svc (inr []) stats = stats
  stats_by_svc (inr (row ∷ rows)) stats = stats_by_svc (inr rows) (
      if invalid_service_name (row.text "service")
      then stats
      else insert (row.text "service") row stats)

module _ {F : Type 0} (a : Arith F) (t : Thresholds F) where
  -- an edge between two services
  abbrev service_edge : Row F → Edge F
  service_edge row =
      let avg = row.float "avg_latency_ms" in
      let rate = row.float "error_rate" in
      record {
        from = row.text "from_service";
        to = row.text "to_service";
        avg_latency_ms = avg;
        min_latency_ms = row.float "min_latency_ms";
        max_latency_ms = row.float "max_latency_ms";
        p95_latency_ms = row.float "p95_latency_ms";
        p99_latency_ms = row.float "p99_latency_ms";
        error_rate = rate;
        success_rate = success_of a rate;
        call_count = row.uint "call_count";
        throughput = row.float "throughput";
        bytes_sent = row.uint "bytes_sent";
        bytes_received = row.uint "bytes_received";
        health_status = calc_health a t rate avg;
        dependency_type = "service";
        target = none;
      }

  -- the loop over the rows of the edges
  unfoldable pub service_edges : List (Row F) → List (Edge F)
  unfolding invalid_service_name calc_health success_of
  service_edges [] = []
  service_edges (row ∷ rows) =
      let rest = service_edges rows in if is_dropped row then rest else service_edge row ∷ rest

  unfoldable pub external_edges : List (String × Dep F) → List (Edge F)
  unfolding external_edge
  external_edges [] = []
  external_edges ((key, d) ∷ merge) = external_edge a t d ∷ external_edges merge

  abbrev float_in : String → Option (Row F) → F
  float_in column none = a.of_uint 0
  float_in column (some row) = row.float column

  abbrev uint_in : String → Option (Row F) → ℕ
  uint_in column none = 0
  uint_in column (some row) = row.uint column

  abbrev shown : String → Option (Row F) → Option F
  shown column row = let v = float_in column row in if a.above v (a.of_uint 0) then some v else none

  abbrev stats_in : Option (Row F) → Stats F
  stats_in row = record {
    total_spans = uint_in "total_spans" row;
    min_duration = shown "min_duration" row;
    max_duration = shown "max_duration" row;
    p95_duration = shown "p95_duration" row;
    p99_duration = shown "p99_duration" row;
    throughput = shown "throughput" row;
    total_traffic = shown "total_traffic" row;
  }

  -- the node of a service, with its row of `statsBySvc`
  unfoldable pub service_node : List (Edge F) → String → Option (Row F) → Node F
  unfolding calc_health incoming outgoing
  service_node edges name row =
      let rate = float_in "error_rate" row in
      let avg = float_in "avg_duration" row in
      record {
        id = name;
        service = name;
        health_status = calc_health a t rate avg;
        avg_duration = avg;
        error_rate = rate;
        incoming_calls = incoming name edges 0;
        outgoing_calls = outgoing name edges 0;
        node_type = "service";
        stats = some (stats_in row);
      }

  -- the loop over the services
  unfoldable pub service_nodes : List (Edge F) → List (String × Row F) → Names → List (Node F)
  unfolding service_node lookup
  service_nodes edges stats [] = []
  service_nodes edges stats ((name, set) ∷ names) =
      service_node edges name (lookup name stats) ∷ service_nodes edges stats names

  -- a sum over the edges to a target, each weighted with its calls
  weighted : (Edge F → F) → String → List (Edge F) → F → F
  weighted value name [] x = x
  weighted value name (e ∷ es) x =
      weighted value name es
        (if e.to == name then a.plus x (a.times (value e) (a.of_uint e.call_count)) else x)

  -- the node of a target
  unfoldable pub external_node : List (Edge F) → String → Node F
  unfolding calc_health incoming weighted target_kind
  external_node edges name =
      let calls = incoming name edges 0 in
      let rate = per_call a (weighted (λ e. e.error_rate) name edges (a.of_uint 0)) calls in
      let avg = per_call a (weighted (λ e. e.avg_latency_ms) name edges (a.of_uint 0)) calls in
      record {
        id = name;
        service = name;
        health_status = calc_health a t rate avg;
        avg_duration = avg;
        error_rate = rate;
        incoming_calls = calls;
        outgoing_calls = 0;
        node_type = target_kind name;
        stats = none;
      }

  -- `appendExternalDepNodes`, with the nodes before it
  unfoldable pub append_external_dep_nodes : List (Node F) → List (Edge F) → Names → List (Node F)
  unfolding external_node
  append_external_dep_nodes nodes edges deps =
      nodes ++ map (λ entry. external_node edges entry.0) deps

  -- the answer, from the edges, the targets, the services and their statistics
  unfoldable pub graph_of :
      List (Row F) → List (String × Dep F) → String ⊎ List (Row F) → String ⊎ List (Row F) → Graph F
  unfolding service_edges external_edges edge_names dep_names dep_targets row_names stats_by_svc
      service_nodes append_external_dep_nodes
  graph_of rows merge services stats =
      let edges = service_edges rows ++ external_edges merge in
      let names = row_names stats (row_names services (dep_names merge (edge_names rows []))) in
      record {
        nodes =
            append_external_dep_nodes (service_nodes edges (stats_by_svc stats []) names) edges
              (dep_targets merge []);
        edges = edges;
      }
