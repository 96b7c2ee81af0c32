-- ===== src/Sort.antt =====
-- `sort.Slice(out, func(i, j) bool { return key(out[i]) < key(out[j]) })`. The sort of the standard
-- library is not stable; the hub sorts by keys that differ, where the sorted order is unique.
pub mod Laws
pub mod Stable
use opa_hub.Prelude.{
  String, Bool, true, ◌≡◌, Option, none, some, List, [], ◌∷◌, ◌==◌, All, if◌then◌else◌,
}
use opa_hub.Text.Order.{str_lt}

-- a < b
abbrev pub Lt : String → String → Type 0
Lt s t = str_lt s t ≡ true

module _ {ℓ} {A : Type ℓ} (key : A → String) where
  unfoldable pub insert_by : A → List A → List A
  insert_by x [] = x ∷ []
  insert_by x (y ∷ ys) = if str_lt (key y) (key x) then y ∷ insert_by x ys else x ∷ y ∷ ys

  unfoldable pub sort_by : List A → List A
  unfolding insert_by
  sort_by [] = []
  sort_by (x ∷ xs) = insert_by x (sort_by xs)

  -- the first item with a key
  unfoldable pub find_by : String → List A → Option A
  find_by k [] = none
  find_by k (x ∷ xs) = if key x == k then some x else find_by k xs

  -- the keys go up strictly
  abbrev pub IsSorted : List A → Type 0
  IsSorted [] = Unit {0}
  IsSorted (x ∷ xs) = All (λ y. Lt (key x) (key y)) xs × IsSorted xs
