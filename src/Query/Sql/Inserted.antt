-- ===== src/Query/Sql/Inserted.antt =====
-- The values that an INSERT gives to the columns that it names.
use Prim.Native.Char.{code}
use Prim.Native.String.{◌++◌}
use opa_hub.Prelude.{ℕ, String, Bool, false, List, [], ◌∷◌, ◌==◌, eqb, if◌then◌else◌}
use opa_hub.Text.{has_prefix, is_space}
use opa_hub.Query.Sql.{raw, quoted, number, real, cents, tenant_and, tenant_where, owned_row, Sql}
use opa_hub.Query.Db.{Row}

-- the names up to a closing parenthesis, behind a name that is begun
unfoldable pub names : String → String → List String
unfolding is_space
names name String.[] = []
names name (String.◌∷◌ c s) =
    let next = name ∷ names "" s in
    let skipped = names name s in
    let longer = names (name ++ String.◌∷◌ c "") s in
    if eqb (code c) b')'
    then name ∷ []
    else if eqb (code c) b','
    then next
    else if is_space (code c)
    then skipped
    else longer

-- the names behind the first parenthesis
unfoldable pub listed_names : String → List String
unfolding names
listed_names String.[] = []
listed_names (String.◌∷◌ c s) =
    let later = listed_names s in if eqb (code c) b'(' then names "" s else later

module _ {F : Type 0} where
  unfoldable pub is_insert : Sql F → Bool
  unfolding has_prefix
  is_insert (raw t ∷ ps) = has_prefix t "INSERT"
  is_insert ps = false

  -- the columns that an INSERT names
  unfoldable pub columns_of : Sql F → List String
  unfolding listed_names
  columns_of (raw t ∷ ps) = listed_names t
  columns_of ps = []

  -- the text and the number that a list of values gives to a column
  abbrev pub text_at : List String → Sql F → String → String
  text_at cs [] k = ""
  text_at [] (p ∷ ps) k = ""
  text_at (c ∷ cs) (raw t ∷ ps) k = text_at (c ∷ cs) ps k
  text_at (c ∷ cs) (quoted s ∷ ps) k = if c == k then s else text_at cs ps k
  text_at (c ∷ cs) (number n ∷ ps) k = text_at cs ps k
  text_at (c ∷ cs) (real x ∷ ps) k = text_at cs ps k
  text_at (c ∷ cs) (cents x ∷ ps) k = text_at cs ps k
  text_at (c ∷ cs) (tenant_and a ∷ ps) k = ""
  text_at (c ∷ cs) (tenant_where a ∷ ps) k = ""
  text_at (c ∷ cs) (owned_row a ∷ ps) k = ""

  abbrev pub number_at : List String → Sql F → String → ℕ
  number_at cs [] k = 0
  number_at [] (p ∷ ps) k = 0
  number_at (c ∷ cs) (raw t ∷ ps) k = number_at (c ∷ cs) ps k
  number_at (c ∷ cs) (quoted s ∷ ps) k = number_at cs ps k
  number_at (c ∷ cs) (number n ∷ ps) k = if c == k then n else number_at cs ps k
  number_at (c ∷ cs) (real x ∷ ps) k = number_at cs ps k
  number_at (c ∷ cs) (cents x ∷ ps) k = number_at cs ps k
  number_at (c ∷ cs) (tenant_and a ∷ ps) k = 0
  number_at (c ∷ cs) (tenant_where a ∷ ps) k = 0
  number_at (c ∷ cs) (owned_row a ∷ ps) k = 0

  -- the row that an INSERT leaves, with NULL read as the empty text and without floating-point columns
  abbrev pub inserted : F → Sql F → Row F
  inserted zero_value ps = record {
    text = text_at (columns_of ps) ps;
    uint = number_at (columns_of ps) ps;
    float = λ k. zero_value;
  }
