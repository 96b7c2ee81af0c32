-- ===== src/Query/ServiceMap/Handler/Answers.antt =====
-- What `ServeServiceMap` answers with.
use opa_hub.Prelude.{String, Bool, true, ◌≡◌, refl, List, ◌⊎◌, inl, inr, All}
use opa_hub.Http.{Request, Response, write_error, write_json}
use opa_hub.Query.Sql.{ScopeLib, Sql}
use opa_hub.Query.Db.{Row, Results}
use opa_hub.Query.Times.{TimeLib}
use opa_hub.Query.ServiceMap.{Arith, Thresholds, thresholds_of}
use opa_hub.Query.ServiceMap.External.{wrapped}
use opa_hub.Query.ServiceMap.Graph.{Graph}
use opa_hub.Query.ServiceMap.Graph.Closed.{IsJoined, graph_of-IsJoined}
use opa_hub.Query.ServiceMap.Graph.Outgoing.{calls_of, sent_by, graph_of-sent_by}
use opa_hub.Query.ServiceMap.Handler.{
  Reply, service_map, stored, thresholds, saved, edge_traces, load_map_thresholds, external_reads,
  with_edges, serve_service_map,
}

module _ {F : Type 0} where
  -- a map whose edges run between its nodes, and whose nodes send the calls of its edges
  abbrev pub IsSound : Graph F → Type 0
  IsSound g =
      All (IsJoined g.nodes) g.edges × (wrapped (sent_by g.nodes) ≡ wrapped (calls_of g.edges))

  -- a map, or the error of a read
  abbrev pub IsMap : Response (Reply F) → Type 0
  IsMap (write_error n code message) = (n ≡ 500) × (code ≡ "query_error")
  IsMap (write_json n (service_map g)) = (n ≡ 200) × IsSound g
  IsMap (write_json n (stored row)) = ⊥
  IsMap (write_json n (thresholds t)) = ⊥
  IsMap (write_json n (saved t)) = ⊥
  IsMap (write_json n (edge_traces from_svc to_svc traces)) = ⊥

module _ {F T : Type 0} (a : Arith F) (nonzero : F → Bool) (m : TimeLib T) (l : ScopeLib F) where
  with_edges-IsMap :
      (since until : Sql F) (t : Thresholds F) (r : String ⊎ List (Row F))
      → Results IsMap (with_edges a nonzero m l since until t r)
  unfolding with_edges external_reads
  with_edges-IsMap since until t (inl e) = (refl, refl)
  with_edges-IsMap since until t (inr rows) = λ sql http redis cache services stats. (
    refl,
    (
      graph_of-IsJoined a t rows sql http redis cache services stats,
      graph_of-sent_by a t rows sql http redis cache services stats,
    ),
  )

  -- A GET of the service map is answered, whatever the eight reads answer, with the error of a read or
  -- with a map: every edge of it runs from a node to a node, neither end is a name that the code passes
  -- over, such as "" or "unknown", and the outgoing calls of the nodes come to the calls of the edges
  -- modulo 2^64.
  pub serve_service_map-IsMap :
      (req : Request Unit)
      → req.method ≡ "GET"
      → Results IsMap (serve_service_map a nonzero m l true req)
  unfolding serve_service_map load_map_thresholds
  serve_service_map-IsMap req g = rw g (λ r1 r2. with_edges-IsMap _ _ (thresholds_of a r1) r2)
