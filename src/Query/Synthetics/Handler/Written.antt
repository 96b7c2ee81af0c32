-- ===== src/Query/Synthetics/Handler/Written.antt =====
-- The checks that the handlers write are within their limits.
use Prim.Native.String.{◌++◌}
use opa_hub.Query.Numbers.{decimal}
use opa_hub.Prelude.{
  ◌≤◌, String, Bool, false, ◌≡◌, ◌≢◌, refl, Option, none, some, List, [], ◌∷◌, ◌⊎◌, inl, inr, ◌==◌,
}
use opa_hub.Text.{trim_space, trim_prefix, trim_slash}
use opa_hub.Text.Split.{split_slash}
use opa_hub.Http.{Request}
use opa_hub.Query.Sql.{ScopeLib, Sql}
use opa_hub.Query.Sql.Inserted.{is_insert, columns_of, text_at, number_at}
use opa_hub.Query.Db.{Row, Every, Every-if}
use opa_hub.Query.Times.{TimeLib, safe_time_literal}
use opa_hub.Query.Synthetics.{
  SyntheticCheck, Outside, check_from_row, get_sql, persist_sql, delete_sql, list_sql, health_sql,
  results_sql,
}
use opa_hub.Query.Synthetics.Normal.{IsNormal, normalize_synthetic_check-IsNormal}
use opa_hub.Query.Synthetics.Handler.{
  created, listed, replaced, result_reads, by_method, with_current, at_parts, serve_synthetics,
  serve_synthetics_subpath, normal, fresh, keeping, is_results,
}

module _ {F : Type 0} where
  -- the limits of the values that an INSERT gives to the columns of a check
  pub record IsWithin (s : Sql F) : Type 0 where
    pub interval_low : 15 ≤ number_at (columns_of s) s "interval_seconds"
    pub timeout_low : 1 ≤ number_at (columns_of s) s "timeout_ms"
    pub timeout_high : number_at (columns_of s) s "timeout_ms" ≤ 60000
    pub enabled_flag : number_at (columns_of s) s "enabled" ≤ 1
    pub has_method : text_at (columns_of s) s "method" ≢ ""
    pub has_headers : text_at (columns_of s) s "headers" ≢ ""

  -- a statement that writes no check, or one within the limits
  abbrev pub Keeps : Sql F → Type 0
  Keeps s = (is_insert s ≡ false) ⊎ IsWithin s

  persist-Keeps : (now : String) (c : SyntheticCheck) → IsNormal c → Keeps (persist_sql now c)
  unfolding columns_of
  persist-Keeps now c n = inr (record {
    interval_low = n.interval_low;
    timeout_low = n.timeout_low;
    timeout_high = n.timeout_high;
    enabled_flag = n.enabled_flag;
    has_method = n.has_method;
    has_headers = n.has_headers;
  })

  get-Keeps : (id : String) → Keeps (get_sql id)
  unfolding is_insert
  get-Keeps id = inl refl

  delete-Keeps : (id : String) → Keeps (delete_sql id)
  unfolding is_insert
  delete-Keeps id = inl refl

  list-Keeps : Keeps list_sql
  unfolding is_insert
  list-Keeps = inl refl

  health-Keeps : Keeps health_sql
  unfolding is_insert
  health-Keeps = inl refl

  results-Keeps : (id since until : String) → Keeps (results_sql id since until)
  unfolding is_insert
  results-Keeps id since until = inl refl

module _ {F T : Type 0} (o : Outside F) (m : TimeLib T) where
  saved-Keeps : (c : SyntheticCheck) → Keeps {F = F} (persist_sql o.now_text (normal o m c))
  saved-Keeps c =
      persist-Keeps o.now_text (normal o m c) (normalize_synthetic_check-IsNormal o.to_upper c)

  listed-Keeps : (r : String ⊎ List (Row F)) → Every Keeps (listed o m r)
  unfolding listed
  listed-Keeps (inl x) = tt
  listed-Keeps (inr rows) = (health-Keeps, λ r. tt)

  created-Keeps : (l : ScopeLib F) (b : Option SyntheticCheck) → Every Keeps (created o m l b)
  unfolding created
  created-Keeps l none = tt
  created-Keeps l (some body) =
      Every-if Keeps (trim_space body.url == "") _ _ tt
        (saved-Keeps (fresh ("synth-" ++ decimal o.now) l.write_tenant body), λ r. tt)

  serve_synthetics-Keeps :
      (writer : Bool) (l : ScopeLib F) (req : Request SyntheticCheck)
      → Every Keeps (serve_synthetics o m writer l req)
  unfolding serve_synthetics
  serve_synthetics-Keeps writer l req =
      Every-if Keeps writer _ _
        (Every-if Keeps (req.method == "GET") _ _ (list-Keeps, listed-Keeps)
          (Every-if Keeps (req.method == "POST") _ _ (created-Keeps l req.body) tt))
        tt

  replaced-Keeps :
      (id : String) (current : SyntheticCheck) (b : Option SyntheticCheck)
      → Every Keeps (replaced o m id current b)
  unfolding replaced
  replaced-Keeps id current none = tt
  replaced-Keeps id current (some body) = (saved-Keeps (keeping id current body), λ r. tt)

  result_reads-Keeps :
      (id : String) (req : Request SyntheticCheck) → Every Keeps (result_reads o m id req)
  unfolding result_reads
  result_reads-Keeps id req =
      Every-if Keeps (req.method == "GET") _ _
        (
          results-Keeps id (safe_time_literal m (req.query "from"))
              (safe_time_literal m (req.query "to")),
          λ r. tt,
        )
        tt

  by_method-Keeps :
      (id : String) (current : SyntheticCheck) (req : Request SyntheticCheck)
      → Every Keeps (by_method o m id current req)
  unfolding by_method
  by_method-Keeps id current req = Every-if Keeps (req.method == "GET") _ _ tt (
      Every-if Keeps (req.method == "PUT") _ _ (replaced-Keeps id current req.body)
        (Every-if Keeps (req.method == "DELETE") _ _ (delete-Keeps id, λ r. tt) tt))

  with_current-Keeps :
      (id : String) (rest : List String) (req : Request SyntheticCheck) (r : String ⊎ List (Row F))
      → Every Keeps (with_current o m id rest req r)
  unfolding with_current
  with_current-Keeps id rest req (inl x) = tt
  with_current-Keeps id rest req (inr []) = tt
  with_current-Keeps id rest req (inr (row ∷ rows)) =
      Every-if Keeps (is_results rest) _ _ (result_reads-Keeps id req)
        (by_method-Keeps id (check_from_row row) req)

  at_parts-Keeps :
      (parts : List String) (req : Request SyntheticCheck) → Every Keeps (at_parts o m parts req)
  unfolding at_parts
  at_parts-Keeps [] req = tt
  at_parts-Keeps (id ∷ rest) req =
      Every-if Keeps (id == "") _ _ tt (get-Keeps id, with_current-Keeps id rest req)

  -- Every INSERT that `ServeSynthetics` and `ServeSyntheticsSubpath` send, whatever the request and the
  -- answers are, gives the columns of a check values within its limits: an interval of at least 15
  -- seconds, a timeout between 1 and 60000 milliseconds, an enabled flag of 0 or 1, and a method and
  -- headers that are not empty.
  pub synthetics-Keeps :
      (writer : Bool) (l : ScopeLib F) (req : Request SyntheticCheck)
      → Every Keeps (serve_synthetics o m writer l req)
        × Every Keeps (serve_synthetics_subpath o m writer req)
  unfolding serve_synthetics_subpath
  synthetics-Keeps writer l req = (
    serve_synthetics-Keeps writer l req,
    Every-if Keeps writer _ _
        (at_parts-Keeps (split_slash (trim_slash (trim_prefix req.path "/api/synthetics/"))) req)
        tt,
  )
