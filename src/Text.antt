-- ===== src/Text.antt =====
-- Go's `strings` functions that the hub calls, over code points. `strings.ToLower` is written out for
-- the letters whose image is ASCII, which decides every comparison with an ASCII literal that the hub
-- makes; other letters are left as they are.
-- Go slices bytes: the hub slices behind an ASCII prefix only, where bytes and code points agree.
pub mod Order
pub mod Split
pub mod Prefix
use Prim.Native.Nat.{ℕ, zero, suc, ◌+◌, ◌-◌}
use Prim.Native.Char.{Char, code}
use Prim.Native.String.{[], ◌∷◌}
use mathlib.Core.Bool.{◌&&◌, ◌||◌}
use opa_hub.Prelude.{String, Bool, true, false, ◌==◌, ltb, leb, eqb, if◌then◌else◌}

-- `unicode.IsSpace`
unfoldable pub is_space : ℕ → Bool
is_space c =
    leb 9 c && leb c 13
    || eqb c 32
    || eqb c 0x85
    || eqb c 0xa0
    || eqb c 0x1680
    || leb 0x2000 c && leb c 0x200a
    || eqb c 0x2028
    || eqb c 0x2029
    || eqb c 0x202f
    || eqb c 0x205f
    || eqb c 0x3000

-- drops the leading code points that pass the test
unfoldable pub drop_while : (ℕ → Bool) → String → String
drop_while p [] = ""
drop_while p (c ∷ s) = if p (code c) then drop_while p s else c ∷ s

-- drops the trailing code points that pass the test
unfoldable pub drop_while_end : (ℕ → Bool) → String → String
drop_while_end p [] = ""
drop_while_end p (c ∷ s) =
    let rest = drop_while_end p s in if rest == "" && p (code c) then "" else c ∷ rest

-- `strings.TrimSpace`
unfoldable pub trim_space : String → String
unfolding is_space drop_while drop_while_end
trim_space s = drop_while_end is_space (drop_while is_space s)

abbrev pub is_slash : ℕ → Bool
is_slash c = eqb c b'/'

-- `strings.TrimRight(s, "/")`
unfoldable pub trim_right_slash : String → String
unfolding drop_while_end
trim_right_slash s = drop_while_end is_slash s

-- `strings.Trim(s, "/")`
unfoldable pub trim_slash : String → String
unfolding drop_while drop_while_end
trim_slash s = drop_while_end is_slash (drop_while is_slash s)

-- `strings.HasPrefix(s, p)`
unfoldable pub has_prefix : String → String → Bool
has_prefix s [] = true
has_prefix [] (d ∷ p) = false
has_prefix (c ∷ s) (d ∷ p) = eqb (code c) (code d) && has_prefix s p

-- whether the last code point is a slash
unfoldable pub ends_with_slash : String → Bool
ends_with_slash [] = false
ends_with_slash (c ∷ s) =
    let rest = ends_with_slash s in if s == "" then is_slash (code c) else rest

-- `s[n:]`
unfoldable pub slice_from : ℕ → String → String
slice_from zero s = s
slice_from (suc n) [] = ""
slice_from (suc n) (c ∷ s) = slice_from n s

-- the bytes of a code point in UTF-8
abbrev rune_len : ℕ → ℕ
rune_len c = if ltb c 0x80 then 1 else if ltb c 0x800 then 2 else if ltb c 0x10000 then 3 else 4

-- `len(s)`
unfoldable pub byte_len : String → ℕ
byte_len [] = 0
byte_len (c ∷ s) = rune_len (code c) + byte_len s

-- `unicode.ToLower`, for the letters that it maps to ASCII
unfoldable pub lower_rune : ℕ → ℕ
lower_rune c =
    if leb b'A' c && leb c b'Z'
    then c + 32
    else if eqb c 0x130
    then b'i'
    else if eqb c 0x212a
    then b'k'
    else c

-- simple case folding, for the letters that fold to ASCII
unfoldable pub fold_rune : ℕ → ℕ
fold_rune c =
    if leb b'A' c && leb c b'Z'
    then c + 32
    else if eqb c 0x17f
    then b's'
    else if eqb c 0x212a
    then b'k'
    else c

-- `strings.EqualFold`
unfoldable pub equal_fold : String → String → Bool
unfolding fold_rune
equal_fold [] [] = true
equal_fold [] (d ∷ t) = false
equal_fold (c ∷ s) [] = false
equal_fold (c ∷ s) (d ∷ t) = eqb (fold_rune (code c)) (fold_rune (code d)) && equal_fold s t

-- `strings.HasPrefix(f(s), p)` for a letter-by-letter `f`
unfoldable pub has_prefix_by : (ℕ → ℕ) → String → String → Bool
has_prefix_by f s [] = true
has_prefix_by f [] (d ∷ p) = false
has_prefix_by f (c ∷ s) (d ∷ p) = eqb (f (code c)) (code d) && has_prefix_by f s p

-- `f(s) == t` for a letter-by-letter `f`
unfoldable pub equals_by : (ℕ → ℕ) → String → String → Bool
equals_by f [] [] = true
equals_by f [] (d ∷ t) = false
equals_by f (c ∷ s) [] = false
equals_by f (c ∷ s) (d ∷ t) = eqb (f (code c)) (code d) && equals_by f s t

-- `strings.ToLower(s) == t`
unfoldable pub lower_equals : String → String → Bool
unfolding equals_by lower_rune
lower_equals s t = equals_by lower_rune s t

-- `strings.HasPrefix(strings.ToLower(s), p)`
unfoldable pub lower_has_prefix : String → String → Bool
unfolding has_prefix_by lower_rune
lower_has_prefix s p = has_prefix_by lower_rune s p

drop_prefix : String → String → String
drop_prefix s [] = s
drop_prefix [] (d ∷ p) = ""
drop_prefix (c ∷ s) (d ∷ p) = drop_prefix s p

-- `strings.TrimPrefix(s, p)`
unfoldable pub trim_prefix : String → String → String
unfolding has_prefix drop_prefix
trim_prefix s p = if has_prefix s p then drop_prefix s p else s

-- `unicode.ToUpper`, for the letters that it maps to ASCII
unfoldable pub upper_rune : ℕ → ℕ
upper_rune c =
    if leb b'a' c && leb c b'z'
    then c - 32
    else if eqb c 0x131
    then b'I'
    else if eqb c 0x17f
    then b'S'
    else c

-- `strings.HasPrefix(strings.ToUpper(s), p)`
unfoldable pub upper_has_prefix : String → String → Bool
unfolding has_prefix_by upper_rune
upper_has_prefix s p = has_prefix_by upper_rune s p

-- `strings.ContainsAny(s, chars)` for a test of characters
unfoldable pub contains_any : (ℕ → Bool) → String → Bool
contains_any p [] = false
contains_any p (c ∷ s) = p (code c) || contains_any p s
