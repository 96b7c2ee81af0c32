-- ===== src/Query/Diagnostics/Handler/Retry.antt =====
-- The flag of the diagnostics after a request whose statements are accepted.
use opa_hub.Prelude.{Bool, true, false, ◌≡◌, refl, List}
use opa_hub.Http.{Request, Response}
use opa_hub.Query.Sql.{ScopeLib}
use opa_hub.Query.Db.{Db, done, query, Accepted, Accepted->>=}
use opa_hub.Query.Diagnostics.{Outside, threads_sql, locks_sql}
use opa_hub.Query.Diagnostics.Schema.{create, ensure_diagnostics_tables}
use opa_hub.Query.Diagnostics.Suspects.{Values, Suspect}
use opa_hub.Query.Diagnostics.Handler.{
  Call, Reply, releases, suspect_commits, heap, threads, locks, service, listed, release_method,
  suspect_reads, heap_reads, with_schema, ensured, get_only, serve,
}

-- the flag is set
abbrev pub IsRaised : {A : Type 0} → Bool × A → Type 0
IsRaised (now, a) = now ≡ true

-- a request that comes as far as the tables
abbrev pub IsAdmitted : Call → Type 0
IsAdmitted (releases req) = Unit
IsAdmitted (suspect_commits req) = req.method ≡ "GET"
IsAdmitted (heap req) = req.method ≡ "GET"
IsAdmitted (threads req) = req.method ≡ "GET"
IsAdmitted (locks req) = req.method ≡ "GET"

module _ {F J : Type 0} (m : Values F J) where
  ensured-IsRaised :
      (ready : Bool) (d : Db F (Response (Reply F J))) → Accepted IsRaised (ensured m true ready d)
  unfolding ensure_diagnostics_tables create with_schema
  ensured-IsRaised true d = Accepted->>= IsRaised d (λ reply. done (true, reply)) (λ reply. refl)
  ensured-IsRaised false d = Accepted->>= IsRaised d (λ reply. done (true, reply)) (λ reply. refl)

  get_only-IsRaised :
      (ready : Bool) (req : Request Unit) (d : Db F (Response (Reply F J)))
      → req.method ≡ "GET"
      → Accepted IsRaised (get_only m true ready req d)
  get_only-IsRaised ready req d g = rw g (ensured-IsRaised ready d)

  -- The tables come up as soon as ClickHouse accepts them: whatever failed before, a request that comes
  -- as far as the tables, and whose writes ClickHouse accepts, leaves the flag set, so that no error
  -- keeps the diagnostics closed.
  pub serve-IsRaised :
      (sort : List (Suspect J) → List (Suspect J)) (l : ScopeLib F) (o : Outside) (ready : Bool)
      (call : Call)
      → IsAdmitted call
      → Accepted IsRaised (serve m sort true l o ready call)
  unfolding serve
  serve-IsRaised sort l o ready (releases req) g = ensured-IsRaised ready (release_method m l o req)
  serve-IsRaised sort l o ready (suspect_commits req) g =
      get_only-IsRaised ready req (suspect_reads m sort l req) g
  serve-IsRaised sort l o ready (heap req) g = get_only-IsRaised ready req (heap_reads m req) g
  serve-IsRaised sort l o ready (threads req) g =
      get_only-IsRaised ready req
        (query (threads_sql (service req)) (λ r. done (listed m "threads" r))) g
  serve-IsRaised sort l o ready (locks req) g =
      get_only-IsRaised ready req (query (locks_sql (service req)) (λ r. done (listed m "locks" r)))
        g
