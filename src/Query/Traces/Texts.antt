-- ===== src/Query/Traces/Texts.antt =====
-- The statements of the traces are scoped to the tenant and keep the values of a request out of their
-- code; the column and the order of a list come from the code.
use opa_hub.Prelude.{
  ℕ, String, Bool, true, false, ◌≡◌, refl, List, [], ◌∷◌, ◌⊎◌, inl, inr, ◌==◌, ◌&&◌, not,
  if◌then◌else◌,
}
use opa_hub.Text.{lower_equals, trim_prefix, trim_slash}
use opa_hub.Text.Split.{split_slash}
use opa_hub.Http.{Request}
use opa_hub.Query.Pages.{limit_of, offset_of}
use opa_hub.Query.Sql.{ScopeLib, raw, quoted, Sql}
use opa_hub.Query.Sql.Literals.{Escapes, place_after}
use opa_hub.Query.Sql.Spelled.{
  IsSpelled, is_vetted, is_vetted-IsSpelled, joined-is_vetted, is_vetted-if,
}
use opa_hub.Query.Traces.Words.{trace_words}
use opa_hub.Query.Sql.Scoped.{is_scoped}
use opa_hub.Query.Sql.Parts.{joined}
use opa_hub.Query.Db.{Row, Every, Every-if}
use opa_hub.Query.Times.{TimeLib, is_expression, safe_time_literal}
use opa_hub.Query.Times.Parts.{compare_part}
use opa_hub.Query.Traces.{
  Filters, sort_column, sort_order, inner_parts, list_parts, count_parts, logs_parts, spans_sql,
  full_sql,
}
use opa_hub.Query.Traces.Handler.{
  Values, filters, listed, serve_traces, with_spans, is_second, at_parts, serve_traces_subpath,
}

module _ (F : Type 0) where
  word-if :
      (b : Bool) (s t : String)
      → is_vetted {F = F} trace_words (raw s ∷ []) ≡ true
      → is_vetted {F = F} trace_words (raw t ∷ []) ≡ true
      → is_vetted {F = F} trace_words (raw (if b then s else t) ∷ []) ≡ true
  word-if true s t h k = h
  word-if false s t h k = k

  column_part : (s : String) → is_vetted {F = F} trace_words (raw (sort_column s) ∷ []) ≡ true
  unfolding sort_column is_vetted place_after
  column_part s = word-if (s == "start_ts") _ _ refl (
      word-if (s == "duration_ms") _ _ refl
        (word-if (s == "service") _ _ refl (word-if (s == "status") _ _ refl refl)))

  order_part : (s : String) → is_vetted {F = F} trace_words (raw (sort_order s) ∷ []) ≡ true
  unfolding sort_order is_vetted place_after
  order_part s = word-if (lower_equals s "asc") _ _ refl refl

  given_part :
      (b : Bool) (condition value : String)
      → is_vetted {F = F} trace_words (raw condition ∷ quoted value ∷ []) ≡ true
      → is_vetted {F = F} trace_words (if b then [] else raw condition ∷ quoted value ∷ []) ≡ true
  unfolding is_vetted
  given_part b condition value h = is_vetted-if trace_words b [] _ refl h

  spans_part : (id : String) → is_vetted {F = F} trace_words (spans_sql id) ≡ true
  unfolding is_vetted place_after
  spans_part id = refl

  full_part : (id : String) → is_vetted {F = F} trace_words (full_sql id) ≡ true
  unfolding is_vetted place_after
  full_part id = refl

  logs_part :
      (id span : String) (n : ℕ)
      → is_vetted {F = F} trace_words (joined (logs_parts id span n)) ≡ true
  unfolding is_vetted place_after
  logs_part id span n =
      joined-is_vetted trace_words (logs_parts {F = F} id span n)
        (refl, (given_part (span == "") _ span refl, (refl, tt)))

module _ {T : Type 0} (m : TimeLib T) (F : Type 0) where
  inner_part :
      (f : Filters)
      → is_expression (safe_time_literal m f.since) ≡ false
      → is_expression (safe_time_literal m f.until) ≡ false
      → is_vetted {F = F} trace_words (joined (inner_parts m f)) ≡ true
  unfolding is_vetted place_after
  inner_part f s u = joined-is_vetted trace_words (inner_parts {F = F} m f) (
    refl,
    (
      given_part F (f.service == "") _ f.service refl,
      (
        is_vetted-if trace_words (not (f.status == "") && not (f.status == "all")) _ _ refl refl,
        (
          given_part F (f.language == "") _ f.language refl,
          (
            given_part F (f.framework == "") _ f.framework refl,
            (
              compare_part m F trace_words "start_ts" ">=" f.since s (λ lit. refl),
              (compare_part m F trace_words "start_ts" "<=" f.until u (λ lit. refl), (refl, tt)),
            ),
          ),
        ),
      ),
    ),
  )

  count_part :
      (f : Filters)
      → is_vetted {F = F} trace_words (joined (inner_parts m f)) ≡ true
      → is_vetted {F = F} trace_words (joined (count_parts m f)) ≡ true
  unfolding is_vetted place_after
  count_part f h = joined-is_vetted trace_words (count_parts {F = F} m f) (refl, (h, (refl, tt)))

  list_part :
      (f : Filters) (sort_by order : String) (limit offset : ℕ)
      → is_vetted {F = F} trace_words (joined (inner_parts m f)) ≡ true
      → is_vetted {F = F} trace_words
          (joined (list_parts m f (sort_column sort_by) (sort_order order) limit offset))
        ≡ true
  unfolding is_vetted place_after
  list_part f sort_by order limit offset h =
      joined-is_vetted trace_words
        (list_parts {F = F} m f (sort_column sort_by) (sort_order order) limit offset)
        (refl, (h, (refl, (column_part F sort_by, (refl, (order_part F order, (refl, tt)))))))

module _ {F : Type 0} (l : ScopeLib F) where
  -- a condition of the tenant is a part of the statement, every text of its code is one of the traces'
  -- own, and the code is the same for all values
  abbrev pub IsSafe : Sql F → Type 0
  IsSafe ps = (is_scoped ps ≡ true) × IsSpelled l trace_words ps

module _ {F J T : Type 0} (v : Values F J) (m : TimeLib T) (l : ScopeLib F) (e : Escapes l) where
  part-IsSafe : (ps : Sql F) → is_scoped ps ≡ true → is_vetted trace_words ps ≡ true → IsSafe l ps
  part-IsSafe ps s h = (s, is_vetted-IsSpelled l e trace_words ps h)

  listed-IsSafe :
      (req : Request Unit)
      → is_expression (safe_time_literal m (req.query "from")) ≡ false
      → is_expression (safe_time_literal m (req.query "to")) ≡ false
      → (r : String ⊎ List (Row F)) → Every (IsSafe l) (listed v m req r)
  unfolding listed is_scoped
  listed-IsSafe req s u (inl x) = tt
  listed-IsSafe req s u (inr rows) = (
    part-IsSafe _ refl (count_part m F (filters req) (inner_part m F (filters req) s u)),
    λ r. tt,
  )

  -- Every statement that `ServeTraces` sends carries a condition of the tenant and is made of such
  -- conditions, of the traces' own texts, of numbers and of values between quotes, escaped, which ClickHouse does not read as code, whatever the
  -- filters, the sorting, the page and the answers are, where neither time of the request is taken as an
  -- expression of ClickHouse.
  pub serve_traces-IsSafe :
      (writer : Bool) (req : Request Unit)
      → is_expression (safe_time_literal m (req.query "from")) ≡ false
      → is_expression (safe_time_literal m (req.query "to")) ≡ false
      → Every (IsSafe l) (serve_traces v m writer req)
  unfolding serve_traces is_scoped
  serve_traces-IsSafe writer req s u = Every-if (IsSafe l) (not (req.method == "GET")) _ _ tt (
      Every-if (IsSafe l) writer _ _
        (
          part-IsSafe _ refl (
              list_part m F (filters req) (req.query "sort") (req.query "order")
                (limit_of (req.query "limit") 50 500) (offset_of (req.query "offset"))
                (inner_part m F (filters req) s u)),
          listed-IsSafe req s u,
        )
        tt)

  with_spans-IsSafe :
      (id : String) (want_full : Bool) (r : String ⊎ List (Row F))
      → Every (IsSafe l) (with_spans v m id want_full r)
  unfolding with_spans is_scoped
  with_spans-IsSafe id want_full (inl x) = tt
  with_spans-IsSafe id want_full (inr []) = tt
  with_spans-IsSafe id want_full (inr (row ∷ rows)) =
      Every-if (IsSafe l) want_full _ _ (part-IsSafe _ refl (full_part F id), λ r. tt) tt

  at_parts-IsSafe :
      (parts : List String) (req : Request Unit) → Every (IsSafe l) (at_parts v m parts req)
  unfolding at_parts is_scoped
  at_parts-IsSafe [] req = tt
  at_parts-IsSafe (id ∷ rest) req = Every-if (IsSafe l) (id == "") _ _ tt (
      Every-if (IsSafe l) (is_second "logs" rest) _ _
        (part-IsSafe _ refl (logs_part F id _ _), λ r. tt)
        (part-IsSafe _ refl (spans_part F id), with_spans-IsSafe id (is_second "full" rest)))

  -- Every statement that `ServeTracesSubpath` sends carries a condition of the tenant and is made of such
  -- conditions, of the traces' own texts, of numbers and of values between quotes, escaped, which ClickHouse does not read as code,
  -- whatever the path, the parameters and the answers are.
  pub serve_traces_subpath-IsSafe :
      (writer : Bool) (req : Request Unit) → Every (IsSafe l) (serve_traces_subpath v m writer req)
  unfolding serve_traces_subpath
  serve_traces_subpath-IsSafe writer req = Every-if (IsSafe l) (not (req.method == "GET")) _ _ tt (
      Every-if (IsSafe l) writer _ _
        (at_parts-IsSafe (split_slash (trim_slash (trim_prefix req.path "/api/traces/"))) req) tt)
