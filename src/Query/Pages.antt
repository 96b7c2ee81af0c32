-- ===== src/Query/Pages.antt =====
-- The pages of a listing: `parseLimitOffset` of internal/query/query.go.
use opa_hub.Prelude.{
  ℕ, zero, suc, ◌≤◌, ◌<◌, String, Option, none, some, ℤ, pos, negsuc, ◌==◌, ltb, arith,
  if◌then◌else◌,
}
use opa_hub.Query.Numbers.{atoi}

-- a number above zero replaces the limit
unfoldable pub limit_from : Option ℤ → ℕ → ℕ
limit_from none def = def
limit_from (some (negsuc n)) def = def
limit_from (some (pos zero)) def = def
limit_from (some (pos (suc n))) def = suc n

-- a number that is not negative is the offset
unfoldable pub offset_from : Option ℤ → ℕ
offset_from none = 0
offset_from (some (negsuc n)) = 0
offset_from (some (pos n)) = n

-- the limit of `parseLimitOffset`
unfoldable pub limit_of : String → ℕ → ℕ → ℕ
unfolding limit_from atoi
limit_of text def max =
    let asked = if text == "" then def else limit_from (atoi text) def in
    if ltb max asked then max else asked

-- its offset
unfoldable pub offset_of : String → ℕ
unfolding offset_from atoi
offset_of text = if text == "" then 0 else offset_from (atoi text)

limit_from-positive : (n : Option ℤ) (def : ℕ) → 0 < def → 0 < limit_from n def
unfolding limit_from
limit_from-positive none def h = h
limit_from-positive (some (negsuc n)) def h = h
limit_from-positive (some (pos zero)) def h = h
limit_from-positive (some (pos (suc n))) def h = omega arith

-- A page has at least one row and no more than the greatest limit, whatever the parameter is.
pub limit_of-bounds :
    (text : String) (def max : ℕ)
    → 0 < def
    → 0 < max
    → (0 < limit_of text def max) × (limit_of text def max ≤ max)
unfolding limit_of
limit_of-bounds text def max h k = let asked = limit_from-positive (atoi text) def h in ground arith
