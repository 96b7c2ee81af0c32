-- ===== src/Query/Times/Bounds.antt =====
-- A time of a request in the code of a statement.
use Prim.Native.Char.{code}
use Prim.Native.String.{◌++◌}
use text.Mathlib.TextLemmas.{cons-append}
use opa_hub.Prelude.{
  ℕ, String, Bool, true, false, ◌≡◌, ◌≢◌, refl, ap, sym, ◌∙◌, [], ◌∷◌, ◌==◌, ◌&&◌, eqb, eq_iff,
  arith,
}
use opa_hub.Text.{trim_space, upper_has_prefix, upper_rune, has_prefix_by}
use opa_hub.Query.Sql.{raw}
use opa_hub.Query.Times.{TimeLib, is_expression, safe_time_literal, time_compare_sql}

both_left : (a b : Bool) → (a && b) ≡ true → a ≡ true
both_left a b h = ground arith

both_right : (a b : Bool) → (a && b) ≡ true → b ≡ true
both_right a b h = ground arith

-- a prefix of a text is one of a longer text
has_prefix_by-append :
    (f : ℕ → ℕ) (s t p : String) → has_prefix_by f s p ≡ true → has_prefix_by f (s ++ t) p ≡ true
unfolding has_prefix_by
has_prefix_by-append f s t String.[] h = refl
has_prefix_by-append f String.[] t (String.◌∷◌ d p) h = ground arith
has_prefix_by-append f (String.◌∷◌ c s) t (String.◌∷◌ d p) h =
    rw (cons-append, both_left (eqb (f (code c)) (code d)) (has_prefix_by f s p) h)
      (has_prefix_by-append f s t p
        (both_right (eqb (f (code c)) (code d)) (has_prefix_by f s p) h))

now_prefix : (t : String) → upper_has_prefix ("now()" ++ t) "NOW()" ≡ true
unfolding upper_has_prefix
now_prefix t = has_prefix_by-append upper_rune "now()" t "NOW()" refl

now_is_expression : (t : String) → is_expression ("now()" ++ t) ≡ true
unfolding is_expression
now_is_expression t = rw (now_prefix t) refl

true_ne_false : true ≢ false
true_ne_false e = ground arith

now_ne_nil : (t : String) → "now()" ++ t ≢ ""
unfolding upper_has_prefix has_prefix_by
now_ne_nil t e = true_ne_false (sym (now_prefix t) ∙ ap (λ s. upper_has_prefix s "NOW()") e)

now_named : (t : String) → ("now()" ++ t == "") ≡ false
now_named t = let n = now_ne_nil t in ground (arith, eq_iff ("now()" ++ t) "")

module _ {T : Type 0} (m : TimeLib T) where
  literal_now :
      (t : String)
      → trim_space ("now()" ++ t) ≡ "now()" ++ t
      → safe_time_literal m ("now()" ++ t) ≡ "now()" ++ t
  unfolding safe_time_literal
  literal_now t h = rw (h, now_named t, now_is_expression t) refl

  compare_now :
      {F : Type 0} (col op t : String)
      → trim_space ("now()" ++ t) ≡ "now()" ++ t
      → time_compare_sql m {F = F} col op ("now()" ++ t)
        ≡ raw (" AND " ++ (col ++ (" " ++ (op ++ " ")))) ∷ raw ("now()" ++ t) ∷ []
  unfolding time_compare_sql
  compare_now col op t h = rw (literal_now t h, now_named t, now_is_expression t) refl

  -- A time that begins with the name of a function stands in the code as it is: whatever follows
  -- "now()", unless it ends in a space, `safeTimeLiteral` answers with all of it, and `timeCompareSQL`
  -- puts it behind the column and the operator without quotes.
  pub time_stands_in_code :
      {F : Type 0} (col op t : String)
      → trim_space ("now()" ++ t) ≡ "now()" ++ t
      → (safe_time_literal m ("now()" ++ t) ≡ "now()" ++ t)
        × (time_compare_sql m {F = F} col op ("now()" ++ t)
            ≡ raw (" AND " ++ (col ++ (" " ++ (op ++ " ")))) ∷ raw ("now()" ++ t) ∷ [])
  time_stands_in_code col op t h = (literal_now t h, compare_now col op t h)
