-- ===== src/Query/Sql/Literals.antt =====
-- What ClickHouse reads as code in a text that a query handler sends.
use Prim.Native.Char.{code}
use Prim.Native.String.{◌++◌}
use text.Mathlib.TextLemmas.{nil-append, cons-append, append_assoc}
use opa_hub.Prelude.{String, Bool, true, false, ◌≡◌, refl, [], ◌∷◌, ◌&&◌, not, eqb}
use opa_hub.Query.Sql.{
  ScopeLib, raw, quoted, number, real, cents, tenant_and, tenant_where, owned_row, Sql, sql_text,
  Place, in_code, in_literal, at_quote, at_backslash, moved, code_of,
}

-- the code of a text, read from a place, and the place behind it
unfoldable pub code_text : Place → String → String
code_text p String.[] = ""
code_text p (String.◌∷◌ c s) =
    code_of p (String.◌∷◌ c "") (code c) ++ code_text (moved p (code c)) s

unfoldable pub place_after : Place → String → Place
place_after p String.[] = p
place_after p (String.◌∷◌ c s) = place_after (moved p (code c)) s

pub code_text-append :
    (p : Place) (s t : String)
    → code_text p (s ++ t) ≡ code_text p s ++ code_text (place_after p s) t
unfolding code_text place_after
code_text-append p String.[] t = rw (nil-append, nil-append) refl
code_text-append p (String.◌∷◌ c s) t =
    rw (cons-append, append_assoc, code_text-append (moved p (code c)) s t) refl

pub place_after-append :
    (p : Place) (s t : String) → place_after p (s ++ t) ≡ place_after (place_after p s) t
unfolding place_after
place_after-append p String.[] t = rw nil-append refl
place_after-append p (String.◌∷◌ c s) t = rw cons-append (place_after-append (moved p (code c)) s t)

-- no literal is open: a quote that follows begins one, or doubles the one before it
abbrev pub is_settled : Place → Bool
is_settled in_code = true
is_settled at_quote = true
is_settled in_literal = false
is_settled at_backslash = false

unfoldable pub no_quote : String → Bool
no_quote String.[] = true
no_quote (String.◌∷◌ c s) = not (eqb (code c) 39) && no_quote s

-- What a reader of a text needs of the packages: an escaped value ends in the literal that it began
-- in, and adds nothing to the code; a condition of a tenant closes the literals that it opens; and a
-- number has no quotes.
pub record Escapes {F : Type 0} (l : ScopeLib F) : Type 0 where
  pub stays : (s : String) → place_after in_literal (l.escape_sql s) ≡ in_literal
  pub silent : (s : String) → code_text in_literal (l.escape_sql s) ≡ ""
  pub scope_and_closed :
      (p : Place) (a : String)
      → is_settled p ≡ true
      → is_settled (place_after p (l.scope_and a)) ≡ true
  pub scope_bool_closed :
      (p : Place) (a : String)
      → is_settled p ≡ true
      → is_settled (place_after p (l.scope_bool a)) ≡ true
  pub owned_row_closed :
      (p : Place) (a : String)
      → is_settled p ≡ true
      → is_settled (place_after p (l.owned_row_predicate a)) ≡ true
  pub float_plain : (x : F) → no_quote (l.float_text x) ≡ true
  pub cents_plain : (x : F) → no_quote (l.cents_text x) ≡ true

-- a text with every escaped value emptied
abbrev pub emptied : {F : Type 0} → Sql F → Sql F
emptied [] = []
emptied (quoted s ∷ ps) = quoted "" ∷ emptied ps
emptied (raw t ∷ ps) = raw t ∷ emptied ps
emptied (number n ∷ ps) = number n ∷ emptied ps
emptied (real x ∷ ps) = real x ∷ emptied ps
emptied (cents x ∷ ps) = cents x ∷ emptied ps
emptied (tenant_and a ∷ ps) = tenant_and a ∷ emptied ps
emptied (tenant_where a ∷ ps) = tenant_where a ∷ emptied ps
emptied (owned_row a ∷ ps) = owned_row a ∷ emptied ps

-- whether no value, number or condition stands in a literal that the text around it has opened, and
-- none is open at the end
unfoldable pub is_placed : {F : Type 0} → Place → Sql F → Bool
is_placed p [] = is_settled p
is_placed p (raw t ∷ ps) = is_placed (place_after p t) ps
is_placed p (quoted s ∷ ps) = is_settled p && is_placed at_quote ps
is_placed p (number n ∷ ps) = is_settled p && (is_placed in_code ps && is_placed at_quote ps)
is_placed p (real x ∷ ps) = is_settled p && (is_placed in_code ps && is_placed at_quote ps)
is_placed p (cents x ∷ ps) = is_settled p && (is_placed in_code ps && is_placed at_quote ps)
is_placed p (tenant_and a ∷ ps) = is_settled p && (is_placed in_code ps && is_placed at_quote ps)
is_placed p (tenant_where a ∷ ps) = is_settled p && (is_placed in_code ps && is_placed at_quote ps)
is_placed p (owned_row a ∷ ps) = is_settled p && (is_placed in_code ps && is_placed at_quote ps)

-- ClickHouse reads the same code whatever the values are
abbrev pub IsFixed : {F : Type 0} → ScopeLib F → Sql F → Type 0
IsFixed l ps = code_text in_code (sql_text l ps) ≡ code_text in_code (sql_text l (emptied ps))
