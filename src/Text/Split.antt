-- ===== src/Text/Split.antt =====
-- `strings.Split(s, "/")` of Go.
use Prim.Native.Char.{Char, code}
use opa_hub.Prelude.{String, List, [], ◌∷◌, if◌then◌else◌}
use opa_hub.Text.{is_slash}

-- a letter before the first of some words
abbrev before_first : Char → List String → List String
before_first c [] = String.◌∷◌ c "" ∷ []
before_first c (w ∷ ws) = String.◌∷◌ c w ∷ ws

-- `strings.Split(s, "/")`
unfoldable pub split_slash : String → List String
split_slash String.[] = "" ∷ []
split_slash (String.◌∷◌ c s) =
    let rest = split_slash s in if is_slash (code c) then "" ∷ rest else before_first c rest
