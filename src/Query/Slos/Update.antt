-- ===== src/Query/Slos/Update.antt =====
-- Whom the update of an objective reaches.
use opa_hub.Prelude.{String, true, false, ◌≡◌, ◌≢◌, refl, some, [], ◌∷◌, ◌==◌, eq_iff, arith}
use opa_hub.Http.{Request}
use opa_hub.Query.Sql.{ScopeLib, sql_text}
use opa_hub.Query.Db.{done, exec}
use opa_hub.Query.Slos.{
  Body, updated, told, update_sql, replaced, by_method, at_parts, slo_parts, serve_slos_subpath,
}

module _ {F : Type 0} where
  -- The update of an objective is the same for every tenant: a PUT with a decodable body for the path of
  -- an id sends one statement, whose text is that of any other tenant with the same escapes, so that it
  -- reaches the objective of that id whoever owns it.
  pub update_ignores_tenant :
      (l other : ScopeLib F) (req : Request (Body F)) (b : Body F) (id : String)
      → req.method ≡ "PUT"
      → req.body ≡ some b
      → slo_parts req.path ≡ id ∷ []
      → id ≢ ""
      → other.escape_sql ≡ l.escape_sql
      → other.float_text ≡ l.float_text
      → (serve_slos_subpath true req ≡ exec (update_sql id b) (λ r. done (told 200 updated r)))
        × (sql_text other (update_sql id b) ≡ sql_text l (update_sql id b))
  unfolding serve_slos_subpath at_parts by_method replaced
  update_ignores_tenant l other req b id m h p n same floats =
      let named : (id == "") ≡ false = ground (arith, eq_iff id "") in
      (rw (p, named, m, h) refl, rw (same, floats) refl)
