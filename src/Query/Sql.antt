-- ===== src/Query/Sql.antt =====
-- The SQL texts that the query handlers of internal/query write, and how ClickHouse takes them apart
-- into code and text literals. `escapeSQL` and the conditions of a tenant are functions of the package
-- open-tenant-go, which is not part of the repository: they are the parameter `ScopeLib`.
pub mod Literals
pub mod Escaped
pub mod Scoped
pub mod Parts
pub mod Spelled
pub mod Inserted
pub mod Sample
use Prim.Native.Char.{code}
use Prim.Native.String.{◌++◌}
use mathlib.Core.Bool.{not}
use opa_hub.Prelude.{ℕ, String, Bool, true, false, List, [], ◌∷◌, eqb, if◌then◌else◌}
use opa_hub.Query.Numbers.{decimal}

-- What the handlers call for the tenant of a request, each with the alias of a table.
pub record ScopeLib (F : Type 0) : Type 0 where
  -- `EscapeSQL`
  pub escape_sql : String → String
  -- `FromRequest(r).ScopeAnd(alias)`, `ScopeBool(alias)` and `OwnedRowPredicate(alias)`
  pub scope_and : String → String
  pub scope_bool : String → String
  pub owned_row_predicate : String → String
  -- `FromRequest(r).WriteTenant()`
  pub write_tenant : String × String
  -- the verb %f of `fmt`
  pub float_text : F → String
  -- the verb %.2f
  pub cents_text : F → String

-- A part of a text: `raw` stands in the code as it is, `quoted` is a value between quotes, escaped,
-- `number` a value of the verb %d, `real` one of %f and `cents` one of %.2f. The type of floating-point numbers is a
-- parameter.
pub data Piece (F : Type 0) : Type 0 where
  raw : String → Piece F
  quoted : String → Piece F
  number : ℕ → Piece F
  real : F → Piece F
  cents : F → Piece F
  tenant_and : String → Piece F
  tenant_where : String → Piece F
  owned_row : String → Piece F

abbrev pub Sql : Type 0 → Type 0
Sql F = List (Piece F)

module _ {F : Type 0} (l : ScopeLib F) where
  abbrev pub piece_text : Piece F → String
  piece_text (raw t) = t
  piece_text (quoted s) = "'" ++ (l.escape_sql s ++ "'")
  piece_text (number n) = decimal n
  piece_text (real x) = l.float_text x
  piece_text (cents x) = l.cents_text x
  piece_text (tenant_and alias) = l.scope_and alias
  piece_text (tenant_where alias) = l.scope_bool alias
  piece_text (owned_row alias) = l.owned_row_predicate alias

  -- the text that ClickHouse receives
  abbrev pub sql_text : Sql F → String
  sql_text [] = ""
  sql_text (p ∷ ps) = piece_text p ++ sql_text ps

-- Where a reader of a text stands: in code, in a literal, behind a quote in a literal, which closes it
-- unless another quote follows, and behind a backslash in a literal.
pub data Place : Type 0 where
  in_code : Place
  in_literal : Place
  at_quote : Place
  at_backslash : Place

abbrev is_quote : ℕ → Bool
is_quote c = eqb c 39

abbrev is_backslash : ℕ → Bool
is_backslash c = eqb c 92

-- one character further
abbrev pub moved : Place → ℕ → Place
moved in_code c = if is_quote c then in_literal else in_code
moved in_literal c =
    if is_quote c then at_quote else if is_backslash c then at_backslash else in_literal
moved at_quote c = if is_quote c then in_literal else in_code
moved at_backslash c = in_literal

-- what a character adds to the code; a literal counts by its quotes alone
abbrev pub code_of : Place → String → ℕ → String
code_of in_code s c = s
code_of in_literal s c = ""
code_of at_quote s c = if is_quote c then "" else "'" ++ s
code_of at_backslash s c = ""
