-- ===== src/Query/Diagnostics/Handler/Ready.antt =====
-- The flag of the diagnostics over every request.
use opa_hub.Prelude.{Bool, true, false, ◌≡◌, refl, List, [], ◌⊎◌, inl, inr, ◌==◌, not}
use opa_hub.Http.{Request, Response}
use opa_hub.Query.Sql.{ScopeLib, Sql}
use opa_hub.Query.Db.{Db, done, query, ◌>>=◌, Traced, Traced->>=, Traced-kept, Traced-if}
use opa_hub.Query.Diagnostics.{Outside, threads_sql, locks_sql}
use opa_hub.Query.Diagnostics.Schema.{ensure_diagnostics_tables, create}
use opa_hub.Query.Diagnostics.Schema.Created.{IsCreated, IsHonest, IsCreated-all, IsHonest-later}
use opa_hub.Query.Diagnostics.Suspects.{Values, Suspect}
use opa_hub.Query.Diagnostics.Handler.{
  Call, Reply, releases, suspect_commits, heap, threads, locks, service, listed, release_method,
  suspect_reads, heap_reads, with_schema, ensured, get_only, serve,
}

module _ {F J : Type 0} where
  -- a handler behind a flag that is honest
  behind :
      (ready now : Bool) (t : List (Sql F)) (d : Db F (Response (Reply F J)))
      → (now ≡ true → (ready ≡ true) ⊎ IsCreated t)
      → Traced (IsHonest ready) t (d >>= (λ reply. done (now, reply)))
  behind ready now t d h =
      Traced->>= (IsHonest ready) t d (λ reply. done (now, reply))
        (Traced-kept (λ u. now ≡ true → (ready ≡ true) ⊎ IsCreated u)
          (λ u reply. now ≡ true → (ready ≡ true) ⊎ IsCreated u)
          (λ s u. IsHonest-later ready now s u) (λ u reply k. k) t d h)

  ensured-IsHonest :
      (m : Values F J) (writer ready : Bool) (d : Db F (Response (Reply F J)))
      → Traced (IsHonest ready) [] (ensured m writer ready d)
  unfolding ensure_diagnostics_tables create with_schema
  ensured-IsHonest m false ready d = λ e. inl e
  ensured-IsHonest m true true d = behind true true [] d (λ e. inl refl)
  ensured-IsHonest m true false d = (
    (
      ((behind false true _ d (λ e. inr (IsCreated-all F)), λ s e. inl e), λ s e. inl e),
      λ s e. inl e,
    ),
    λ s e. inl e,
  )

  get_only-IsHonest :
      (m : Values F J) (writer ready : Bool) (req : Request Unit) (d : Db F (Response (Reply F J)))
      → Traced (IsHonest ready) [] (get_only m writer ready req d)
  get_only-IsHonest m writer ready req d =
      Traced-if (IsHonest ready) [] (not (req.method == "GET")) _ _ (λ e. inl e)
        (ensured-IsHonest m writer ready d)

  -- The flag of the diagnostics is set by a request only where ClickHouse has accepted the statements of
  -- all four tables in it: whatever the request and the answers are, a flag that is set behind it was
  -- set before it, or the statements that were accepted have all four among them.
  pub serve-IsHonest :
      (m : Values F J) (sort : List (Suspect J) → List (Suspect J)) (writer : Bool) (l : ScopeLib F)
      (o : Outside) (ready : Bool) (call : Call)
      → Traced (IsHonest ready) [] (serve m sort writer l o ready call)
  unfolding serve
  serve-IsHonest m sort writer l o ready (releases req) =
      ensured-IsHonest m writer ready (release_method m l o req)
  serve-IsHonest m sort writer l o ready (suspect_commits req) =
      get_only-IsHonest m writer ready req (suspect_reads m sort l req)
  serve-IsHonest m sort writer l o ready (heap req) =
      get_only-IsHonest m writer ready req (heap_reads m req)
  serve-IsHonest m sort writer l o ready (threads req) =
      get_only-IsHonest m writer ready req
        (query (threads_sql (service req)) (λ r. done (listed m "threads" r)))
  serve-IsHonest m sort writer l o ready (locks req) =
      get_only-IsHonest m writer ready req
        (query (locks_sql (service req)) (λ r. done (listed m "locks" r)))
