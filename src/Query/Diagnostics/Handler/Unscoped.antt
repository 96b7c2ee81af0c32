-- ===== src/Query/Diagnostics/Handler/Unscoped.antt =====
-- Whom the read of one heap snapshot reaches.
use opa_hub.Prelude.{true, false, ◌≡◌, ◌≢◌, refl, List, ◌==◌, eq_iff, arith}
use opa_hub.Text.{trim_space}
use opa_hub.Http.{Request}
use opa_hub.Query.Sql.{ScopeLib, sql_text}
use opa_hub.Query.Db.{done, query}
use opa_hub.Query.Diagnostics.{Outside, snapshot_sql}
use opa_hub.Query.Diagnostics.Schema.{ensure_diagnostics_tables}
use opa_hub.Query.Diagnostics.Suspects.{Values, Suspect}
use opa_hub.Query.Diagnostics.Handler.{heap, found, heap_reads, with_schema, serve}

module _ {F J : Type 0} (m : Values F J) where
  -- The read of one heap snapshot is the same for every tenant: where the tables are ready, a GET that
  -- names an id asks for the snapshot of that id whoever owns it, in a text that is that of any other
  -- tenant with the same escapes.
  pub snapshot_ignores_tenant :
      (sort : List (Suspect J) → List (Suspect J)) (l other : ScopeLib F) (o : Outside)
      (req : Request Unit)
      → req.method ≡ "GET"
      → trim_space (req.query "id") ≢ ""
      → other.escape_sql ≡ l.escape_sql
      → (serve m sort true l o true (heap req)
          ≡ query (snapshot_sql (trim_space (req.query "id"))) (λ r. done (true, found m r)))
        × (sql_text other (snapshot_sql (trim_space (req.query "id")))
            ≡ sql_text l (snapshot_sql (trim_space (req.query "id"))))
  unfolding serve with_schema ensure_diagnostics_tables heap_reads
  snapshot_ignores_tenant sort l other o req g n same =
      let named : (trim_space (req.query "id") == "") ≡ false =
        ground (arith, eq_iff (trim_space (req.query "id")) "") in
      (rw (g, named) refl, rw same refl)
