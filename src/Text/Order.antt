-- ===== src/Text/Order.antt =====
-- Go's `<` on strings is the order of the code points, for UTF-8 keeps it.
use Prim.Native.Char.{code}
use Prim.Native.String.{[], ◌∷◌}
use mathlib.Core.Bool.{◌&&◌, ◌||◌}
use text.Mathlib.TextEquality.{Char-path}
use opa_hub.Prelude.{String, Bool, true, false, ◌≡◌, refl, arith, ltb, eqb}

-- a < b
unfoldable pub str_lt : String → String → Bool
str_lt s [] = false
str_lt [] (d ∷ t) = true
str_lt (c ∷ s) (d ∷ t) = ltb (code c) (code d) || eqb (code c) (code d) && str_lt s t

pub str_lt_irrefl : (s : String) → str_lt s s ≡ false
unfolding str_lt
str_lt_irrefl [] = refl
str_lt_irrefl (c ∷ s) = ground (arith, str_lt_irrefl s)

pub str_lt_trans : (s t u : String) → str_lt s t ≡ true → str_lt t u ≡ true → str_lt s u ≡ true
unfolding str_lt
str_lt_trans s t [] h k = k
str_lt_trans [] t (e ∷ u) h k = refl
str_lt_trans (c ∷ s) [] (e ∷ u) h k = ground arith
str_lt_trans (c ∷ s) (d ∷ t) (e ∷ u) h k = ground (arith, str_lt_trans s t u)

pub str_lt_total : (s t : String) → str_lt s t ≡ false → str_lt t s ≡ false → s ≡ t
unfolding str_lt
str_lt_total [] [] h k = refl
str_lt_total [] (d ∷ t) h k = ground arith
str_lt_total (c ∷ s) [] h k = ground arith
str_lt_total (c ∷ s) (d ∷ t) h k =
    let same : code c ≡ code d = ground arith in
    let rest : s ≡ t = str_lt_total s t (ground arith) (ground arith) in
    λ i. Char-path c d same i ∷ rest i
