-- ===== src/Query/Synthetics/Handler/Texts.antt =====
-- The statements of the synthetic checks keep the values of a request out of their code.
use Prim.Native.String.{◌++◌}
use opa_hub.Prelude.{
  String, Bool, true, false, ◌≡◌, refl, Option, none, some, List, [], ◌∷◌, ◌⊎◌, inl, inr, ◌==◌,
  ◌&&◌, arith, if◌then◌else◌,
}
use opa_hub.Text.{trim_space, trim_prefix, trim_slash}
use opa_hub.Text.Split.{split_slash}
use opa_hub.Http.{Request}
use opa_hub.Query.Numbers.{decimal}
use opa_hub.Query.Sql.{ScopeLib, Sql, Place, in_code, at_quote, raw, quoted}
use opa_hub.Query.Sql.Literals.{Escapes, is_placed, place_after, IsFixed}
use opa_hub.Query.Sql.Escaped.{is_placed-IsFixed}
use opa_hub.Query.Db.{Row, Every, Every-if}
use opa_hub.Query.Times.{TimeLib, safe_time_literal}
use opa_hub.Query.Synthetics.{
  SyntheticCheck, Outside, check_from_row, get_sql, persist_sql, delete_sql, list_sql, health_sql,
  with_bound, results_sql,
}
use opa_hub.Query.Synthetics.Handler.{
  keeping, fresh, is_results, normal, listed, created, serve_synthetics, replaced, result_reads,
  by_method, with_current, at_parts, serve_synthetics_subpath,
}

module _ (F : Type 0) where
  get_placed : (id : String) → is_placed {F = F} in_code (get_sql id) ≡ true
  unfolding is_placed place_after
  get_placed id = refl

  persist_placed :
      (now : String) (c : SyntheticCheck) → is_placed {F = F} in_code (persist_sql now c) ≡ true
  unfolding is_placed place_after
  persist_placed now c = refl

  delete_placed : (id : String) → is_placed {F = F} in_code (delete_sql id) ≡ true
  unfolding is_placed place_after
  delete_placed id = refl

  list_placed : is_placed {F = F} in_code list_sql ≡ true
  unfolding is_placed place_after
  list_placed = refl

  health_placed : is_placed {F = F} in_code health_sql ≡ true
  unfolding is_placed place_after
  health_placed = refl

  bound_placed :
      (p : Place) (condition time : String) (rest : Sql F)
      → is_placed p rest ≡ true
      → is_placed p (raw condition ∷ quoted time ∷ rest) ≡ true
      → is_placed p (with_bound condition time rest) ≡ true
  bound_placed p condition time rest h k = placed_if (time == "")
    where
      placed_if :
          (b : Bool) → is_placed p (if b then rest else raw condition ∷ quoted time ∷ rest) ≡ true
      placed_if true = h
      placed_if false = k

  both : (a b : Bool) → a ≡ true → b ≡ true → (a && b) ≡ true
  both a b h k = ground arith

  until_placed :
      (p : Place) (until : String)
      → is_placed {F = F} p (raw " ORDER BY ts DESC LIMIT 500" ∷ []) ≡ true
      → is_placed {F = F} p
          (raw " AND ts <= " ∷ quoted until ∷ raw " ORDER BY ts DESC LIMIT 500" ∷ [])
        ≡ true
      → is_placed {F = F} p
          (with_bound " AND ts <= " until (raw " ORDER BY ts DESC LIMIT 500" ∷ []))
        ≡ true
  until_placed p until h k = bound_placed p " AND ts <= " until _ h k

  results_placed :
      (id since until : String) → is_placed {F = F} in_code (results_sql id since until) ≡ true
  unfolding is_placed place_after
  results_placed id since until =
      let code = until_placed in_code until refl refl in
      let quote = until_placed at_quote until refl refl in
      both _ _ (bound_placed in_code " AND ts >= " since _ code quote)
        (bound_placed at_quote " AND ts >= " since _ quote quote)

module _ {F T : Type 0} (o : Outside F) (m : TimeLib T) (l : ScopeLib F) (e : Escapes l) where
  created-IsFixed : (b : Option SyntheticCheck) → Every (IsFixed l) (created o m l b)
  unfolding created
  created-IsFixed none = tt
  created-IsFixed (some body) =
      let c = normal o m (fresh ("synth-" ++ decimal o.now) l.write_tenant body) in
      Every-if (IsFixed l) (trim_space body.url == "") _ _ tt
        (is_placed-IsFixed l e (persist_sql o.now_text c) (persist_placed F o.now_text c), λ r. tt)

  listed-IsFixed : (r : String ⊎ List (Row F)) → Every (IsFixed l) (listed o m r)
  unfolding listed
  listed-IsFixed (inl x) = tt
  listed-IsFixed (inr rows) = (is_placed-IsFixed l e health_sql (health_placed F), λ r. tt)

  -- ClickHouse reads the code of every statement that `ServeSynthetics` sends as that of the statement
  -- with its values emptied, whatever the method and the body are.
  pub serve_synthetics-IsFixed :
      (writer : Bool) (req : Request SyntheticCheck)
      → Every (IsFixed l) (serve_synthetics o m writer l req)
  unfolding serve_synthetics
  serve_synthetics-IsFixed writer req =
      Every-if (IsFixed l) writer _ _
        (Every-if (IsFixed l) (req.method == "GET") _ _
          (is_placed-IsFixed l e list_sql (list_placed F), listed-IsFixed)
          (Every-if (IsFixed l) (req.method == "POST") _ _ (created-IsFixed req.body) tt))
        tt

  replaced-IsFixed :
      (id : String) (current : SyntheticCheck) (b : Option SyntheticCheck)
      → Every (IsFixed l) (replaced o m id current b)
  unfolding replaced
  replaced-IsFixed id current none = tt
  replaced-IsFixed id current (some body) =
      let c = normal o m (keeping id current body) in
      (is_placed-IsFixed l e (persist_sql o.now_text c) (persist_placed F o.now_text c), λ r. tt)

  result_reads-IsFixed :
      (id : String) (req : Request SyntheticCheck) → Every (IsFixed l) (result_reads o m id req)
  unfolding result_reads
  result_reads-IsFixed id req =
      let since = safe_time_literal m (req.query "from") in
      let until = safe_time_literal m (req.query "to") in
      Every-if (IsFixed l) (req.method == "GET") _ _
        (
          is_placed-IsFixed l e (results_sql id since until) (results_placed F id since until),
          λ r. tt,
        )
        tt

  by_method-IsFixed :
      (id : String) (current : SyntheticCheck) (req : Request SyntheticCheck)
      → Every (IsFixed l) (by_method o m id current req)
  unfolding by_method
  by_method-IsFixed id current req = Every-if (IsFixed l) (req.method == "GET") _ _ tt (
      Every-if (IsFixed l) (req.method == "PUT") _ _ (replaced-IsFixed id current req.body) (
        Every-if (IsFixed l) (req.method == "DELETE") _ _
          (is_placed-IsFixed l e (delete_sql id) (delete_placed F id), λ r. tt) tt))

  with_current-IsFixed :
      (id : String) (rest : List String) (req : Request SyntheticCheck) (r : String ⊎ List (Row F))
      → Every (IsFixed l) (with_current o m id rest req r)
  unfolding with_current
  with_current-IsFixed id rest req (inl x) = tt
  with_current-IsFixed id rest req (inr []) = tt
  with_current-IsFixed id rest req (inr (row ∷ rows)) =
      Every-if (IsFixed l) (is_results rest) _ _ (result_reads-IsFixed id req)
        (by_method-IsFixed id (check_from_row row) req)

  at_parts-IsFixed :
      (parts : List String) (req : Request SyntheticCheck)
      → Every (IsFixed l) (at_parts o m parts req)
  unfolding at_parts
  at_parts-IsFixed [] req = tt
  at_parts-IsFixed (id ∷ rest) req =
      Every-if (IsFixed l) (id == "") _ _ tt
        (is_placed-IsFixed l e (get_sql id) (get_placed F id), with_current-IsFixed id rest req)

  -- ClickHouse reads the code of every statement that `ServeSyntheticsSubpath` sends as that of the
  -- statement with its values emptied, whatever the path, the times, the body and the answers are.
  pub serve_synthetics_subpath-IsFixed :
      (writer : Bool) (req : Request SyntheticCheck)
      → Every (IsFixed l) (serve_synthetics_subpath o m writer req)
  unfolding serve_synthetics_subpath
  serve_synthetics_subpath-IsFixed writer req =
      Every-if (IsFixed l) writer _ _
        (at_parts-IsFixed (split_slash (trim_slash (trim_prefix req.path "/api/synthetics/"))) req)
        tt
