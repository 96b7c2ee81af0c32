-- ===== src/Prelude/Assoc.antt =====
-- A Go map with string keys, as an association list: the order of the entries stands for the order
-- in which a `range` over the map meets them, which Go leaves open.
use Prim.Native.String.{String}
use mathlib.Core.Path.{◌≡◌, refl}
use mathlib.Core.Logic.{◌≢◌}
use mathlib.Core.Option.{Option, none, some}
use mathlib.Core.List.{List, [], ◌∷◌}
use native.Mathlib.Omega.{arith}
use text.Mathlib.Text.{◌==◌}
use text.Mathlib.TextEquality.{eq_iff}
use opa_hub.Prelude.Tests.{if◌then◌else◌}

module _ {ℓ} {V : Type ℓ} where
  -- no entry of the map has this key
  abbrev pub Fresh : String → List (String × V) → Type 0
  Fresh key [] = Unit
  Fresh key ((name, value) ∷ rest) = (name ≢ key) × Fresh key rest

  -- a key occurs once
  abbrev pub Distinct : List (String × V) → Type 0
  Distinct [] = Unit
  Distinct ((name, value) ∷ rest) = Fresh name rest × Distinct rest

  -- m[key]
  unfoldable pub lookup : String → List (String × V) → Option V
  lookup key ((name, value) ∷ rest) = if name == key then some value else lookup key rest
  lookup key [] = none

  -- m[key] = new
  unfoldable pub insert : String → V → List (String × V) → List (String × V)
  insert key new ((name, old) ∷ rest) =
      if name == key then (key, new) ∷ rest else (name, old) ∷ insert key new rest
  insert key new [] = (key, new) ∷ []

  Fresh-insert :
      (name key : String) (new : V) (entries : List (String × V))
      → Fresh name entries
      → key ≢ name
      → Fresh name (insert key new entries)
  unfolding insert
  Fresh-insert name key new [] fresh other = (other, tt)
  Fresh-insert name key new ((first, old) ∷ rest) fresh other =
      ground (arith, eq_iff first key, Fresh-insert name key new rest)

  pub Distinct-insert :
      (key : String) (new : V) (entries : List (String × V))
      → Distinct entries
      → Distinct (insert key new entries)
  unfolding insert
  Distinct-insert key new [] once = (tt, tt)
  Distinct-insert key new ((first, old) ∷ rest) once =
      ground
        (arith, eq_iff first key, Fresh-insert first key new rest, Distinct-insert key new rest)

  -- reading after a write
  pub lookup-insert :
      (key name : String) (new : V) (entries : List (String × V))
      → lookup name (insert key new entries)
        ≡ (if key == name then some new else lookup name entries)
  unfolding lookup insert
  lookup-insert key name new ((first, old) ∷ rest) =
      ground (
        arith,
        eq_iff key name,
        eq_iff first key,
        eq_iff first name,
        lookup-insert key name new rest,
      )
  lookup-insert key name new [] = refl
