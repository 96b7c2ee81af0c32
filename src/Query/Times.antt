-- ===== src/Query/Times.antt =====
-- The times in request parameters: `parseFlexibleTime` of internal/query/helpers.go, `safeTimeLiteral` and
-- `timeCompareSQL` of internal/query/query.go, with `serviceMapTimeBound`. The package `time` and
-- `url.QueryUnescape` are parameters.
pub mod Bounds
pub mod Parts
use Prim.Native.String.{◌++◌}
use opa_hub.Prelude.{
  ℕ, ◌^◌, String, Bool, true, false, Option, none, some, ℤ, pos, negsuc, List, [], ◌∷◌, ◌==◌, ◌||◌,
  eqb, ltb, if◌then◌else◌,
}
use opa_hub.Text.{trim_space, upper_has_prefix, contains_any, drop_while, drop_while_end}
use opa_hub.Query.Numbers.{atoi}
use opa_hub.Query.Sql.{raw, quoted, Sql}

pub record TimeLib (T : Type 0) : Type 0 where
  -- `time.Parse(layout, s)`, none on an error
  pub parse : String → String → Option T
  -- `time.UnixMilli` and `time.Unix`
  pub unix_milli : ℤ → T
  pub unix : ℤ → T
  -- `t.UTC().Format("2006-01-02 15:04:05")`
  pub format : T → String
  -- `url.QueryUnescape`, none on an error
  pub query_unescape : String → Option String

abbrev layouts : List String
layouts =
    "2006-01-02T15:04:05.999999999Z07:00" ∷ "2006-01-02T15:04:05Z07:00"
    ∷ "2006-01-02T15:04:05.000Z07:00" ∷ "2006-01-02T15:04:05Z07:00" ∷ "2006-01-02T15:04:05.000"
    ∷ "2006-01-02T15:04:05" ∷ "2006-01-02 15:04:05.000" ∷ "2006-01-02 15:04:05" ∷ "2006-01-02" ∷ []

-- a quote, a semicolon or a backslash
abbrev pub is_breaking : ℕ → Bool
is_breaking c = eqb c 39 || eqb c b';' || eqb c 92

-- a quotation mark of either kind
abbrev is_mark : ℕ → Bool
is_mark c = eqb c 39 || eqb c 34

-- the functions of ClickHouse that a text may begin with
unfoldable pub is_expression : String → Bool
unfolding upper_has_prefix
is_expression s =
    upper_has_prefix s "NOW()" || upper_has_prefix s "TODAY()" || upper_has_prefix s "PARSEDATETIME"

-- the text where it cannot be unescaped
unfoldable pub unescaped : String → Option String → String
unescaped s none = s
unescaped s (some t) = t

module _ {T : Type 0} (m : TimeLib T) where
  -- the first layout that parses
  first_parsed : List String → String → Option T
  first_parsed [] s = none
  first_parsed (layout ∷ rest) s =
      let later = first_parsed rest s in elim (m.parse layout s) [ none ↦ later | some t ↦ some t ]

  -- seconds, or milliseconds above 10^12
  abbrev epoch : Option ℤ → Option T
  epoch none = none
  epoch (some (pos n)) = some (if ltb (10 ^ 12) n then m.unix_milli (pos n) else m.unix (pos n))
  epoch (some (negsuc n)) = some (m.unix (negsuc n))

  -- `parseFlexibleTime`, none on an error
  unfoldable pub parse_flexible_time : String → Option T
  unfolding first_parsed atoi trim_space
  parse_flexible_time raw_text =
      let s = trim_space raw_text in
      elim (first_parsed layouts s) [ none ↦ epoch (atoi s) | some t ↦ some t ]

  -- `safeTimeLiteral`
  unfoldable pub safe_time_literal : String → String
  unfolding is_expression contains_any parse_flexible_time trim_space
  safe_time_literal text =
      let s = trim_space text in
      if s == ""
      then ""
      else if is_expression s
      then s
      else if contains_any is_breaking s
      then ""
      else elim (parse_flexible_time s) [ none ↦ s | some t ↦ m.format t ]

  -- `timeCompareSQL`
  unfoldable pub time_compare_sql : {F : Type 0} → String → String → String → Sql F
  unfolding safe_time_literal is_expression
  time_compare_sql col op text =
      let lit = safe_time_literal text in
      if lit == ""
      then []
      else if is_expression lit
      then raw (" AND " ++ (col ++ (" " ++ (op ++ " ")))) ∷ raw lit ∷ []
      else raw (" AND " ++ (col ++ (" " ++ (op ++ " parseDateTimeBestEffort("))))
        ∷ quoted lit
        ∷ raw ")"
        ∷ []

  -- the bound of a literal that is not empty
  abbrev bound_of : {F : Type 0} → String → Sql F → Sql F
  bound_of lit fallback =
      let clean = drop_while_end is_mark (drop_while is_mark lit) in
      if upper_has_prefix lit "NOW()" || upper_has_prefix lit "PARSEDATETIME"
      then raw lit ∷ []
      else if contains_any is_breaking clean
      then fallback
      else raw "parseDateTimeBestEffort(" ∷ quoted clean ∷ raw ")" ∷ []

  -- `serviceMapTimeBound`
  unfoldable pub service_map_time_bound : {F : Type 0} → String → Sql F → Sql F
  unfolding safe_time_literal unescaped
  service_map_time_bound text fallback =
      let s = trim_space text in
      let lit = safe_time_literal (unescaped s (m.query_unescape s)) in
      if s == "" then fallback else if lit == "" then fallback else bound_of lit fallback
