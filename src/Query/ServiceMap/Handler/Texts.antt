-- ===== src/Query/ServiceMap/Handler/Texts.antt =====
-- The statements of the service map keep the values of a request out of their code.
use opa_hub.Prelude.{
  String, Bool, true, false, ◌≡◌, refl, Option, none, some, List, [], ◌∷◌, ◌⊎◌, inl, inr, ◌==◌,
  ◌||◌, not,
}
use opa_hub.Http.{Request}
use opa_hub.Query.Sql.{ScopeLib, raw, Sql}
use opa_hub.Query.Sql.Literals.{Escapes, place_after}
use opa_hub.Query.Sql.Spelled.{
  IsSpelled, all_of, is_vetted, is_vetted-IsSpelled, joined-is_vetted, is_vetted-if,
}
use opa_hub.Query.ServiceMap.Handler.Words.{map_words}
use opa_hub.Query.Db.{Row, Every, Every-if}
use opa_hub.Query.Times.{TimeLib, is_expression, safe_time_literal}
use opa_hub.Query.Times.Parts.{bound_literal, bound_part, compare_part}
use opa_hub.Query.ServiceMap.{Arith, Thresholds}
use opa_hub.Query.ServiceMap.Statements.{
  edge_sql, service_sql, stats_sql, db_sql, http_sql, redis_sql, cache_sql, thresholds_sql,
  edge_parts, service_parts, stats_parts, db_parts, http_parts, redis_parts, cache_parts,
  edge_traces_parts, dated_thresholds_sql, insert_sql, edge_traces_sql,
}
use opa_hub.Query.ServiceMap.Handler.{
  Body, load_map_thresholds, external_reads, with_edges, serve_service_map, thresholds_written,
  serve_service_map_thresholds, serve_service_map_edge_traces,
}

module _ (F : Type 0) where
  thresholds_part : (t : String × String) → is_vetted {F = F} map_words (thresholds_sql t) ≡ true
  unfolding is_vetted place_after
  thresholds_part t = refl

  dated_part : (t : String × String) → is_vetted {F = F} map_words (dated_thresholds_sql t) ≡ true
  unfolding is_vetted place_after
  dated_part t = refl

  insert_part :
      (o : String × String) (t : Thresholds F) → is_vetted {F = F} map_words (insert_sql o t) ≡ true
  unfolding is_vetted place_after
  insert_part o t = refl

module _ {F : Type 0} (since until : Sql F) (h : is_vetted map_words since ≡ true)
    (k : is_vetted map_words until ≡ true) where
  edge_part : is_vetted map_words (edge_sql since until) ≡ true
  unfolding is_vetted place_after
  edge_part =
      joined-is_vetted map_words (edge_parts since until)
        (refl, (h, (refl, (k, (refl, (h, (refl, (k, (refl, tt)))))))))

  service_part : is_vetted map_words (service_sql since until) ≡ true
  unfolding is_vetted place_after
  service_part = joined-is_vetted map_words (service_parts since until) (refl, (h, (refl, (k, tt))))

  stats_part : is_vetted map_words (stats_sql since until) ≡ true
  unfolding is_vetted place_after
  stats_part =
      joined-is_vetted map_words (stats_parts since until)
        (refl, (h, (refl, (k, (refl, (h, (refl, (k, (refl, tt)))))))))

  db_part : is_vetted map_words (db_sql since until) ≡ true
  unfolding is_vetted place_after
  db_part = joined-is_vetted map_words (db_parts since until) (refl, (h, (refl, (k, (refl, tt)))))

  http_part : is_vetted map_words (http_sql since until) ≡ true
  unfolding is_vetted place_after
  http_part =
      joined-is_vetted map_words (http_parts since until) (refl, (h, (refl, (k, (refl, tt)))))

  redis_part : is_vetted map_words (redis_sql since until) ≡ true
  unfolding is_vetted place_after
  redis_part =
      joined-is_vetted map_words (redis_parts since until) (refl, (h, (refl, (k, (refl, tt)))))

  cache_part : is_vetted map_words (cache_sql since until) ≡ true
  unfolding is_vetted place_after
  cache_part =
      joined-is_vetted map_words (cache_parts since until) (refl, (h, (refl, (k, (refl, tt)))))

module _ {F T : Type 0} (a : Arith F) (nonzero : F → Bool) (m : TimeLib T) (l : ScopeLib F)
    (e : Escapes l) where
  part-IsSpelled : (ps : Sql F) → is_vetted map_words ps ≡ true → IsSpelled l map_words ps
  part-IsSpelled ps h = is_vetted-IsSpelled l e map_words ps h

  with_edges-IsSpelled :
      (since until : Sql F)
      → is_vetted map_words since ≡ true
      → is_vetted map_words until ≡ true
      → (t : Thresholds F) (r : String ⊎ List (Row F))
      → Every (IsSpelled l map_words) (with_edges a nonzero m l since until t r)
  unfolding with_edges external_reads
  with_edges-IsSpelled since until h k t (inl x) = tt
  with_edges-IsSpelled since until h k t (inr rows) = (
    part-IsSpelled _ (db_part since until h k),
    λ r1. (
      part-IsSpelled _ (http_part since until h k),
      λ r2. (
        part-IsSpelled _ (redis_part since until h k),
        λ r3. (
          part-IsSpelled _ (cache_part since until h k),
          λ r4. (
            part-IsSpelled _ (service_part since until h k),
            λ r5. (part-IsSpelled _ (stats_part since until h k), λ r6. tt),
          ),
        ),
      ),
    ),
  )

  bound_words_known : all_of map_words ("parseDateTimeBestEffort(" ∷ ")" ∷ []) ≡ true
  bound_words_known = refl

  fallback_since : is_vetted {F = F} map_words (raw "now() - INTERVAL 24 HOUR" ∷ []) ≡ true
  unfolding is_vetted place_after
  fallback_since = refl

  fallback_until : is_vetted {F = F} map_words (raw "now()" ∷ []) ≡ true
  unfolding is_vetted place_after
  fallback_until = refl

  -- Every statement that `ServeServiceMap` sends is made of the texts of the map's own statements, of
  -- conditions of the tenant and of values between quotes, escaped, which ClickHouse does not read as code, whatever the request and the
  -- answers are, where neither time of the request is taken as an expression: does not begin with the
  -- name of one of the three functions of ClickHouse.
  pub serve_service_map-IsSpelled :
      (writer : Bool) (req : Request Unit)
      → is_expression (bound_literal m (req.query "from")) ≡ false
      → is_expression (bound_literal m (req.query "to")) ≡ false
      → Every (IsSpelled l map_words) (serve_service_map a nonzero m l writer req)
  unfolding serve_service_map load_map_thresholds
  serve_service_map-IsSpelled writer req f t =
      let known = bound_words_known in
      let h = bound_part m F map_words (req.query "from") _ known f fallback_since in
      let k = bound_part m F map_words (req.query "to") _ known t fallback_until in
      Every-if (IsSpelled l map_words) (not (req.method == "GET")) _ _ tt (
        Every-if (IsSpelled l map_words) writer _ _
          (
            part-IsSpelled _ (thresholds_part F l.write_tenant),
            λ r. (part-IsSpelled _ (edge_part _ _ h k), λ s. with_edges-IsSpelled _ _ h k _ s),
          )
          tt)

  thresholds_written-IsSpelled :
      (b : Option (Body F)) → Every (IsSpelled l map_words) (thresholds_written a nonzero m l b)
  unfolding thresholds_written
  thresholds_written-IsSpelled none = tt
  thresholds_written-IsSpelled (some b) =
      (part-IsSpelled _ (insert_part F l.write_tenant _), λ r. tt)

  pub serve_service_map_thresholds-IsSpelled :
      (writer : Bool) (req : Request (Body F))
      → Every (IsSpelled l map_words) (serve_service_map_thresholds a nonzero m l writer req)
  unfolding serve_service_map_thresholds
  serve_service_map_thresholds-IsSpelled writer req =
      Every-if (IsSpelled l map_words) writer _ _
        (Every-if (IsSpelled l map_words) (req.method == "GET") _ _
          (part-IsSpelled _ (dated_part F l.write_tenant), λ r. tt)
          (Every-if (IsSpelled l map_words) (req.method == "POST" || req.method == "PUT") _ _
            (thresholds_written-IsSpelled req.body) tt))
        tt

  day_part :
      is_vetted {F = F} map_words (raw " AND child.start_ts >= now() - INTERVAL 24 HOUR" ∷ [])
      ≡ true
  unfolding is_vetted place_after
  day_part = refl

  edge_traces_part :
      (from_svc to_svc since until : String)
      → is_expression (safe_time_literal m since) ≡ false
      → is_expression (safe_time_literal m until) ≡ false
      → is_vetted {F = F} map_words (edge_traces_sql m from_svc to_svc since until) ≡ true
  unfolding is_vetted place_after
  edge_traces_part from_svc to_svc since until f t =
      joined-is_vetted map_words (edge_traces_parts {F = F} m from_svc to_svc since until) (
        refl,
        (
          compare_part m F map_words "child.start_ts" ">=" since f (λ lit. refl),
          (
            is_vetted-if map_words (since == "") _ _ day_part refl,
            (compare_part m F map_words "child.start_ts" "<=" until t (λ lit. refl), (refl, tt)),
          ),
        ),
      )

  pub serve_service_map_edge_traces-IsSpelled :
      (writer : Bool) (req : Request Unit)
      → is_expression (safe_time_literal m (req.query "from")) ≡ false
      → is_expression (safe_time_literal m (req.query "to")) ≡ false
      → Every (IsSpelled l map_words) (serve_service_map_edge_traces a nonzero m l writer req)
  unfolding serve_service_map_edge_traces
  serve_service_map_edge_traces-IsSpelled writer req f t =
      Every-if (IsSpelled l map_words) (not (req.method == "GET")) _ _ tt (
        Every-if (IsSpelled l map_words) writer _ _
          (Every-if (IsSpelled l map_words)
            (req.query "from_service" == "" || req.query "to_service" == "") _ _ tt
            (part-IsSpelled _ (edge_traces_part _ _ _ _ f t), λ r. tt))
          tt)
