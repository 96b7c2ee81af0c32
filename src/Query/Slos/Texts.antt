-- ===== src/Query/Slos/Texts.antt =====
-- The statements of the handlers of objectives keep the values of a request out of their code.
use opa_hub.Prelude.{ℕ, String, Bool, true, ◌≡◌, refl, Option, none, some, List, [], ◌∷◌, ◌==◌}
use opa_hub.Http.{Request}
use opa_hub.Query.Sql.{ScopeLib, in_code}
use opa_hub.Query.Sql.Literals.{Escapes, is_placed, place_after, IsFixed}
use opa_hub.Query.Sql.Escaped.{is_placed-IsFixed}
use opa_hub.Query.Db.{Every, Every-if}
use opa_hub.Query.Slos.{
  Body, Slo, list_sql, insert_sql, compliance_sql, get_sql, update_sql, delete_sql, slo_of, created,
  serve_slos, replaced, by_method, is_compliance, at_parts, slo_parts, serve_slos_subpath,
}

module _ (F : Type 0) where
  list_placed : is_placed {F = F} in_code list_sql ≡ true
  unfolding is_placed place_after
  list_placed = refl

  insert_placed : (t : String × String) (s : Slo F) → is_placed in_code (insert_sql t s) ≡ true
  unfolding is_placed place_after
  insert_placed t s = refl

  compliance_placed : (id : String) → is_placed {F = F} in_code (compliance_sql id) ≡ true
  unfolding is_placed place_after
  compliance_placed id = refl

  get_placed : (id : String) → is_placed {F = F} in_code (get_sql id) ≡ true
  unfolding is_placed place_after
  get_placed id = refl

  update_placed : (id : String) (b : Body F) → is_placed in_code (update_sql id b) ≡ true
  unfolding is_placed place_after
  update_placed id b = refl

  delete_placed : (id : String) → is_placed {F = F} in_code (delete_sql id) ≡ true
  unfolding is_placed place_after
  delete_placed id = refl

module _ {F : Type 0} (l : ScopeLib F) (e : Escapes l) where
  created-IsFixed : (now : ℕ) (b : Option (Body F)) → Every (IsFixed l) (created l now b)
  unfolding created
  created-IsFixed now none = tt
  created-IsFixed now (some b) = (
    is_placed-IsFixed l e (insert_sql l.write_tenant (slo_of now b))
        (insert_placed F l.write_tenant (slo_of now b)),
    λ r. tt,
  )

  -- ClickHouse reads the code of every statement that `ServeSLOs` sends as that of the statement with its
  -- values emptied, whatever the method and the body are.
  pub serve_slos-IsFixed :
      (writer : Bool) (now : ℕ) (req : Request (Body F))
      → Every (IsFixed l) (serve_slos writer l now req)
  unfolding serve_slos
  serve_slos-IsFixed writer now req =
      Every-if (IsFixed l) writer _ _
        (Every-if (IsFixed l) (req.method == "GET") _ _
          (is_placed-IsFixed l e list_sql (list_placed F), λ r. tt)
          (Every-if (IsFixed l) (req.method == "POST") _ _ (created-IsFixed now req.body) tt))
        tt

  replaced-IsFixed : (id : String) (b : Option (Body F)) → Every (IsFixed l) (replaced id b)
  unfolding replaced
  replaced-IsFixed id none = tt
  replaced-IsFixed id (some b) =
      (is_placed-IsFixed l e (update_sql id b) (update_placed F id b), λ r. tt)

  by_method-IsFixed : (id : String) (req : Request (Body F)) → Every (IsFixed l) (by_method id req)
  unfolding by_method
  by_method-IsFixed id req =
      Every-if (IsFixed l) (req.method == "GET") _ _
        (is_placed-IsFixed l e (get_sql id) (get_placed F id), λ r. tt)
        (Every-if (IsFixed l) (req.method == "PUT") _ _ (replaced-IsFixed id req.body) (
          Every-if (IsFixed l) (req.method == "DELETE") _ _
            (is_placed-IsFixed l e (delete_sql id) (delete_placed F id), λ r. tt) tt))

  at_parts-IsFixed :
      (parts : List String) (req : Request (Body F)) → Every (IsFixed l) (at_parts parts req)
  unfolding at_parts
  at_parts-IsFixed [] req = tt
  at_parts-IsFixed (id ∷ rest) req = Every-if (IsFixed l) (id == "") _ _ tt (
      Every-if (IsFixed l) (is_compliance rest) _ _
        (Every-if (IsFixed l) (req.method == "GET") _ _
          (is_placed-IsFixed l e (compliance_sql id) (compliance_placed F id), λ r. tt) tt)
        (by_method-IsFixed id req))

  -- ClickHouse reads the code of every statement that `ServeSLOsSubpath` sends as that of the statement
  -- with its values emptied, whatever the path, the method and the body are.
  pub serve_slos_subpath-IsFixed :
      (writer : Bool) (req : Request (Body F)) → Every (IsFixed l) (serve_slos_subpath writer req)
  unfolding serve_slos_subpath
  serve_slos_subpath-IsFixed writer req =
      Every-if (IsFixed l) writer _ _ (at_parts-IsFixed (slo_parts req.path) req) tt
