-- ===== src/Query/Diagnostics/Handler/Texts.antt =====
-- The statements of the diagnostics keep the values of a request and of a row out of their code.
use opa_hub.Prelude.{
  ℕ, String, Bool, true, false, ◌≡◌, Option, none, some, List, [], ◌∷◌, ◌⊎◌, inl, inr, ◌==◌, ◌||◌,
  not, All,
}
use opa_hub.Text.{trim_space}
use opa_hub.Http.{Request, Response}
use opa_hub.Query.Sql.{ScopeLib, in_code}
use opa_hub.Query.Sql.Literals.{Escapes, is_placed, IsFixed}
use opa_hub.Query.Sql.Escaped.{is_placed-IsFixed}
use opa_hub.Query.Db.{Row, Db, done, query, Every, Every->>=, Every-if}
use opa_hub.Query.Diagnostics.{
  Outside, Release, release_sql, releases_sql, snapshot_sql, snapshots_sql, threads_sql, locks_sql,
}
use opa_hub.Query.Diagnostics.Placed.{
  release_placed, releases_placed, snapshot_placed, snapshots_placed, threads_placed, locks_placed,
  suspects_placed, share_placed, release_markers_placed, heap_snapshots_placed,
  thread_samples_placed, lock_contention_placed,
}
use opa_hub.Query.Diagnostics.Schema.{
  create, unless_error, ensure_diagnostics_tables, diagnostics_ddl_stmts, marked, statement,
}
use opa_hub.Query.Diagnostics.Suspects.{
  Values, Suspect, suspects_sql, share_sql, span_error_share_around, suspects_of, normalized,
}
use opa_hub.Query.Diagnostics.Handler.{
  Call, Reply, releases, suspect_commits, heap, threads, locks, service, listed, created,
  release_method, window_hours, ranked, suspect_reads, heap_reads, with_schema, ensured, get_only,
  serve,
}

module _ {F J : Type 0} (m : Values F J) (l : ScopeLib F) (e : Escapes l) where
  share-IsFixed :
      (t : String × String) (svc dep : String) (after : Bool)
      → Every (IsFixed l) (span_error_share_around m t svc dep after)
  unfolding span_error_share_around
  share-IsFixed t svc dep after = Every-if (IsFixed l) (dep == "") _ _ tt (
    is_placed-IsFixed l e (share_sql t svc after (normalized dep))
        (share_placed F t svc after (normalized dep)),
    λ r. tt,
  )

  suspects_of-IsFixed :
      (t : String × String) (rows : List (Row F)) → Every (IsFixed l) (suspects_of m t rows)
  unfolding suspects_of
  suspects_of-IsFixed t [] = tt
  suspects_of-IsFixed t (row ∷ rows) =
      let share = share-IsFixed t (row.text "service") (row.text "deployed_at") in
      Every->>= (IsFixed l)
        (span_error_share_around m t (row.text "service") (row.text "deployed_at") true) _
        (share true)
        (λ after.
          Every->>= (IsFixed l)
            (span_error_share_around m t (row.text "service") (row.text "deployed_at") false) _
            (share false)
            (λ before.
              Every->>= (IsFixed l) (suspects_of m t rows) _ (suspects_of-IsFixed t rows)
                (λ rest. tt)))

  ranked-IsFixed :
      (sort : List (Suspect J) → List (Suspect J)) (hours : ℕ) (r : String ⊎ List (Row F))
      → Every (IsFixed l) (ranked m sort l hours r)
  unfolding ranked
  ranked-IsFixed sort hours (inl x) = tt
  ranked-IsFixed sort hours (inr rows) =
      Every->>= (IsFixed l) (suspects_of m l.write_tenant rows) _
        (suspects_of-IsFixed l.write_tenant rows) (λ out. tt)

  suspect_reads-IsFixed :
      (sort : List (Suspect J) → List (Suspect J)) (req : Request Unit)
      → Every (IsFixed l) (suspect_reads m sort l req)
  unfolding suspect_reads
  suspect_reads-IsFixed sort req = (
    is_placed-IsFixed l e (suspects_sql l.write_tenant (window_hours m req) (service req))
        (suspects_placed F l.write_tenant (window_hours m req) (service req)),
    ranked-IsFixed sort (window_hours m req),
  )

  created-IsFixed :
      (o : Outside) (b : Option (Option Release)) → Every (IsFixed l) (created m l o b)
  unfolding created
  created-IsFixed o none = tt
  created-IsFixed o (some none) = tt
  created-IsFixed o (some (some b)) =
      Every-if (IsFixed l) (b.service == "" || b.release == "") _ _ tt (
        is_placed-IsFixed l e (release_sql o l.write_tenant b)
            (release_placed F o l.write_tenant b),
        λ r. tt,
      )

  release_method-IsFixed :
      (o : Outside) (req : Request (Option Release)) → Every (IsFixed l) (release_method m l o req)
  unfolding release_method
  release_method-IsFixed o req =
      Every-if (IsFixed l) (req.method == "POST") _ _ (created-IsFixed o req.body) (
        Every-if (IsFixed l) (req.method == "GET") _ _
          (
            is_placed-IsFixed l e (releases_sql (service req)) (releases_placed F (service req)),
            λ r. tt,
          )
          tt)

  heap_reads-IsFixed : (req : Request Unit) → Every (IsFixed l) (heap_reads m req)
  unfolding heap_reads
  heap_reads-IsFixed req =
      Every-if (IsFixed l) (not (trim_space (req.query "id") == "")) _ _
        (
          is_placed-IsFixed l e (snapshot_sql (trim_space (req.query "id")))
              (snapshot_placed F (trim_space (req.query "id"))),
          λ r. tt,
        )
        (
          is_placed-IsFixed l e (snapshots_sql (service req)) (snapshots_placed F (service req)),
          λ r. tt,
        )

  unless_error-IsFixed :
      (more : Db F (Option String)) (r : Option String)
      → Every (IsFixed l) more
      → Every (IsFixed l) (unless_error more r)
  unless_error-IsFixed more none h = h
  unless_error-IsFixed more (some x) h = tt

  create-IsFixed :
      (stmts : List String)
      → All (λ s. is_placed {F = F} in_code (statement s) ≡ true) stmts
      → Every (IsFixed l) (create stmts)
  unfolding create
  create-IsFixed [] h = tt
  create-IsFixed (s ∷ rest) (h, k) =
      let more = create-IsFixed rest k in
      (is_placed-IsFixed l e (statement s) h, λ r. unless_error-IsFixed (create rest) r more)

  ensure-IsFixed :
      (writer ready : Bool) → Every (IsFixed l) (ensure_diagnostics_tables writer ready)
  unfolding ensure_diagnostics_tables
  ensure-IsFixed false ready = tt
  ensure-IsFixed true true = tt
  ensure-IsFixed true false =
      Every->>= (IsFixed l) (create diagnostics_ddl_stmts) (λ r. done (marked r))
        (create-IsFixed diagnostics_ddl_stmts (
          release_markers_placed F,
          (heap_snapshots_placed F, (thread_samples_placed F, (lock_contention_placed F, tt))),
        ))
        (λ r. tt)

  with_schema-IsFixed :
      (d : Db F (Response (Reply F J))) (r : Bool × Option String)
      → Every (IsFixed l) d
      → Every (IsFixed l) (with_schema m d r)
  unfolding with_schema
  with_schema-IsFixed d (ready, none) h =
      Every->>= (IsFixed l) d (λ reply. done (ready, reply)) h (λ reply. tt)
  with_schema-IsFixed d (ready, some x) h = tt

  ensured-IsFixed :
      (writer ready : Bool) (d : Db F (Response (Reply F J)))
      → Every (IsFixed l) d
      → Every (IsFixed l) (ensured m writer ready d)
  ensured-IsFixed writer ready d h =
      Every-if (IsFixed l) writer _ _
        (Every->>= (IsFixed l) (ensure_diagnostics_tables writer ready) (with_schema m d)
          (ensure-IsFixed writer ready) (λ r. with_schema-IsFixed d r h))
        tt

  get_only-IsFixed :
      (writer ready : Bool) (req : Request Unit) (d : Db F (Response (Reply F J)))
      → Every (IsFixed l) d
      → Every (IsFixed l) (get_only m writer ready req d)
  get_only-IsFixed writer ready req d h =
      Every-if (IsFixed l) (not (req.method == "GET")) _ _ tt (ensured-IsFixed writer ready d h)

  -- ClickHouse reads the code of every statement that a handler of the diagnostics sends as that of the
  -- statement with its values emptied, whatever the request and the answers before it are: neither a
  -- parameter, nor a body, nor a row that was stored before reaches the code.
  pub serve-IsFixed :
      (sort : List (Suspect J) → List (Suspect J)) (writer : Bool) (o : Outside) (ready : Bool)
      (call : Call)
      → Every (IsFixed l) (serve m sort writer l o ready call)
  unfolding serve
  serve-IsFixed sort writer o ready (releases req) =
      ensured-IsFixed writer ready (release_method m l o req) (release_method-IsFixed o req)
  serve-IsFixed sort writer o ready (suspect_commits req) =
      get_only-IsFixed writer ready req (suspect_reads m sort l req)
        (suspect_reads-IsFixed sort req)
  serve-IsFixed sort writer o ready (heap req) =
      get_only-IsFixed writer ready req (heap_reads m req) (heap_reads-IsFixed req)
  serve-IsFixed sort writer o ready (threads req) =
      get_only-IsFixed writer ready req
        (query (threads_sql (service req)) (λ r. done (listed m "threads" r)))
        (
          is_placed-IsFixed l e (threads_sql (service req)) (threads_placed F (service req)),
          λ r. tt,
        )
  serve-IsFixed sort writer o ready (locks req) =
      get_only-IsFixed writer ready req
        (query (locks_sql (service req)) (λ r. done (listed m "locks" r)))
        (is_placed-IsFixed l e (locks_sql (service req)) (locks_placed F (service req)), λ r. tt)
