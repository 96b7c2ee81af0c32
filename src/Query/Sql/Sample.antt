-- ===== src/Query/Sql/Sample.antt =====
-- A tenant of one organization whose values are escaped by doubling quotes and backslashes, the way the
-- test of `escapeSQL` in internal/query/query_test.go shows.
use Prim.Native.Char.{Char, code}
use Prim.Native.String.{◌++◌}
use text.Mathlib.TextLemmas.{nil-append}
use opa_hub.Prelude.{
  ℕ, String, true, false, ◌≡◌, refl, ap, ◌∙◌, inl, inr, eqb, Bool-cases, arith, if◌then◌else◌,
}
use opa_hub.Query.Numbers.{decimal}
use opa_hub.Query.Sql.{ScopeLib, Place, in_code, in_literal, at_quote, at_backslash, moved}
use opa_hub.Query.Sql.Literals.{
  Escapes, code_text, place_after, code_text-append, place_after-append, is_settled,
}
use opa_hub.Query.Sql.Escaped.{no_quote-decimal}

abbrev pub doubled : String → String
doubled String.[] = ""
doubled (String.◌∷◌ c s) =
    let rest = doubled s in
    if eqb (code c) 39
    then "''" ++ rest
    else if eqb (code c) 92
    then "\\\\" ++ rest
    else String.◌∷◌ c rest

-- numbers stand in for floating-point numbers
abbrev pub tenant_scope : ScopeLib ℕ
tenant_scope = record {
  escape_sql = doubled;
  scope_and = λ a. " AND organization_id = 'o1'";
  scope_bool = λ a. "organization_id = 'o1'";
  owned_row_predicate = λ a. "organization_id = 'o1'";
  write_tenant = ("o1", "p1");
  float_text = decimal;
  cents_text = decimal;
}

doubled_o_brien : doubled "a'b\\c" ≡ "a''b\\\\c"
doubled_o_brien = refl

-- a pair of characters that stays in a literal and says nothing
pair_place : (t : String) → place_after in_literal ("''" ++ t) ≡ place_after in_literal t
unfolding place_after
pair_place t = place_after-append in_literal "''" t

backslashes_place : (t : String) → place_after in_literal ("\\\\" ++ t) ≡ place_after in_literal t
unfolding place_after
backslashes_place t = place_after-append in_literal "\\\\" t

pair_code : (t : String) → code_text in_literal ("''" ++ t) ≡ code_text in_literal t
unfolding code_text place_after
pair_code t = code_text-append in_literal "''" t ∙ nil-append (code_text in_literal t)

backslashes_code : (t : String) → code_text in_literal ("\\\\" ++ t) ≡ code_text in_literal t
unfolding code_text place_after
backslashes_code t = code_text-append in_literal "\\\\" t ∙ nil-append (code_text in_literal t)

moved_plain : (x : ℕ) → eqb x 39 ≡ false → eqb x 92 ≡ false → moved in_literal x ≡ in_literal
moved_plain x n o = ground arith

plain_place :
    (c : Char) (s : String)
    → eqb (code c) 39 ≡ false
    → eqb (code c) 92 ≡ false
    → place_after in_literal (String.◌∷◌ c s) ≡ place_after in_literal s
unfolding place_after
plain_place c s n o = ap (λ p. place_after p s) (moved_plain (code c) n o)

plain_code :
    (c : Char) (s : String)
    → eqb (code c) 39 ≡ false
    → eqb (code c) 92 ≡ false
    → code_text in_literal (String.◌∷◌ c s) ≡ code_text in_literal s
unfolding code_text
plain_code c s n o =
    nil-append (code_text (moved in_literal (code c)) s)
    ∙ ap (λ p. code_text p s) (moved_plain (code c) n o)

doubled_place : (s : String) → place_after in_literal (doubled s) ≡ in_literal
unfolding place_after
doubled_place String.[] = refl
doubled_place (String.◌∷◌ c s) =
    let later = doubled_place s in
    elim (Bool-cases (eqb (code c) 39)) [
      | inl q ↦ rw q (pair_place (doubled s) ∙ later)
      | inr n ↦ elim (Bool-cases (eqb (code c) 92)) [
        | inl b ↦ rw (n, b) (backslashes_place (doubled s) ∙ later)
        | inr o ↦ rw (n, o) (plain_place c (doubled s) n o ∙ later)
      ]
    ]

doubled_code : (s : String) → code_text in_literal (doubled s) ≡ ""
unfolding code_text
doubled_code String.[] = refl
doubled_code (String.◌∷◌ c s) =
    let later = doubled_code s in
    elim (Bool-cases (eqb (code c) 39)) [
      | inl q ↦ rw q (pair_code (doubled s) ∙ later)
      | inr n ↦ elim (Bool-cases (eqb (code c) 92)) [
        | inl b ↦ rw (n, b) (backslashes_code (doubled s) ∙ later)
        | inr o ↦ rw (n, o) (plain_code c (doubled s) n o ∙ later)
      ]
    ]

closed_and :
    (p : Place)
    → is_settled p ≡ true
    → is_settled (place_after p " AND organization_id = 'o1'") ≡ true
unfolding place_after
closed_and in_code h = refl
closed_and at_quote h = refl
closed_and in_literal h = ground arith
closed_and at_backslash h = ground arith

closed_bool :
    (p : Place) → is_settled p ≡ true → is_settled (place_after p "organization_id = 'o1'") ≡ true
unfolding place_after
closed_bool in_code h = refl
closed_bool at_quote h = refl
closed_bool in_literal h = ground arith
closed_bool at_backslash h = ground arith

pub tenant_scope-Escapes : Escapes tenant_scope
tenant_scope-Escapes = record {
  stays = doubled_place;
  silent = doubled_code;
  scope_and_closed = λ p a. closed_and p;
  scope_bool_closed = λ p a. closed_bool p;
  owned_row_closed = λ p a. closed_bool p;
  float_plain = no_quote-decimal;
  cents_plain = no_quote-decimal;
}
