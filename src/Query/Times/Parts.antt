-- ===== src/Query/Times/Parts.antt =====
-- The conditions on a time as parts of a statement. A time that begins with the name of a function
-- stands in the code as it is; every other one is a literal.
use Prim.Native.String.{◌++◌}
use opa_hub.Prelude.{String, List, true, false, ◌≡◌, refl, [], ◌∷◌, ◌==◌, ◌||◌, arith}
use opa_hub.Text.{trim_space, upper_has_prefix}
use opa_hub.Query.Sql.{Sql, raw, quoted}
use opa_hub.Query.Sql.Literals.{place_after}
use opa_hub.Query.Sql.Spelled.{all_of, is_vetted, is_vetted-if}
use opa_hub.Query.Times.{
  TimeLib, is_expression, safe_time_literal, time_compare_sql, unescaped, service_map_time_bound,
}

nil_part : (F : Type 0) (vs : List String) → is_vetted {F = F} vs [] ≡ true
unfolding is_vetted
nil_part F vs = refl

-- the literal that `serviceMapTimeBound` works on
abbrev pub bound_literal : {T : Type 0} → TimeLib T → String → String
bound_literal m text =
    safe_time_literal m (unescaped (trim_space text) (m.query_unescape (trim_space text)))

module _ {T : Type 0} (m : TimeLib T) (F : Type 0) (vs : List String) where
  -- a condition that `timeCompareSQL` writes behind an operator
  pub compare_part :
      (col op text : String)
      → is_expression (safe_time_literal m text) ≡ false
      → ((lit : String)
          → is_vetted {F = F} vs (
              raw (" AND " ++ (col ++ (" " ++ (op ++ " parseDateTimeBestEffort("))))
              ∷ quoted lit
              ∷ raw ")"
              ∷ [])
            ≡ true)
      → is_vetted {F = F} vs (time_compare_sql m col op text) ≡ true
  unfolding time_compare_sql
  compare_part col op text plain h = rw plain (
      is_vetted-if vs (safe_time_literal m text == "") _ _ (nil_part F vs)
        (h (safe_time_literal m text)))

  prefix_differs :
      (lit : String)
      → is_expression lit ≡ false
      → (upper_has_prefix lit "NOW()" || upper_has_prefix lit "PARSEDATETIME") ≡ false
  unfolding is_expression
  prefix_differs lit h = ground arith

  quoted_part :
      (clean : String)
      → all_of vs ("parseDateTimeBestEffort(" ∷ ")" ∷ []) ≡ true
      → is_vetted {F = F} vs (raw "parseDateTimeBestEffort(" ∷ quoted clean ∷ raw ")" ∷ []) ≡ true
  unfolding is_vetted place_after
  quoted_part clean known = known

  pub bound_part :
      (text : String) (fallback : Sql F)
      → all_of vs ("parseDateTimeBestEffort(" ∷ ")" ∷ []) ≡ true
      → is_expression (bound_literal m text) ≡ false
      → is_vetted vs fallback ≡ true
      → is_vetted vs (service_map_time_bound m text fallback) ≡ true
  unfolding service_map_time_bound
  bound_part text fallback known plain h = is_vetted-if vs (trim_space text == "") _ _ h (
      is_vetted-if vs (bound_literal m text == "") _ _ h (
        rw (prefix_differs (bound_literal m text) plain)
          (is_vetted-if vs _ _ _ h (quoted_part _ known))))
