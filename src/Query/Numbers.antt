-- ===== src/Query/Numbers.antt =====
-- Numbers in request parameters: `parseIntDefault` and `clampInt` of internal/query/platform_ops.go,
-- with `strconv.Atoi` and the verb `%d`.
use Prim.Native.Char.{code}
use Prim.Native.String.{[], ◌∷◌, slice, ◌++◌}
use mathlib.Core.Bool.{◌&&◌}
use opa_hub.Prelude.{
  ℕ, zero, suc, ◌+◌, ◌-◌, ◌*◌, ◌/◌, ◌%◌, ◌^◌, ◌≤◌, String, Bool, true, false, ◌≡◌, refl, Option,
  none, some, ◌==◌, ltb, leb, eqb, arith, ℤ, pos, negsuc, if◌then◌else◌,
}

-- the value of decimal digits behind what was read before, none for another character
unfoldable pub digits_value : ℕ → String → Option ℕ
digits_value acc [] = some acc
digits_value acc (c ∷ s) =
    let rest = digits_value (10 * acc + (code c - 48)) s in
    if leb 48 (code c) && leb (code c) 57 then rest else none

unsigned : String → Option ℕ
unfolding digits_value
unsigned [] = none
unsigned (c ∷ s) = digits_value 0 (c ∷ s)

-- the number in the range of an int, with its sign
signed : Bool → Option ℕ → Option ℤ
signed negative none = none
signed true (some zero) = some (pos 0)
signed true (some (suc n)) = if ltb n (2 ^ 63) then some (negsuc n) else none
signed false (some n) = if ltb n (2 ^ 63) then some (pos n) else none

-- `strconv.Atoi`, none on an error
unfoldable pub atoi : String → Option ℤ
unfolding unsigned signed
atoi [] = none
atoi (c ∷ s) =
    if eqb (code c) 45
    then signed true (unsigned s)
    else if eqb (code c) 43
    then signed false (unsigned s)
    else signed false (unsigned (c ∷ s))

-- `parseIntDefault`
unfoldable pub parse_int_default : String → ℤ → ℤ
unfolding atoi
parse_int_default raw def = if raw == "" then def else elim (atoi raw) [ none ↦ def | some n ↦ n ]

-- `clampInt` between bounds that are not negative
unfoldable pub clamp_int : ℤ → ℕ → ℕ → ℕ
clamp_int (negsuc n) lo hi = lo
clamp_int (pos n) lo hi = if ltb n lo then lo else if ltb hi n then hi else n

pub clamp_int-range :
    (n : ℤ) (lo hi : ℕ) → lo ≤ hi → (lo ≤ clamp_int n lo hi) × (clamp_int n lo hi ≤ hi)
unfolding clamp_int
clamp_int-range (negsuc n) lo hi h = ground arith
clamp_int-range (pos n) lo hi h = ground arith

-- a decimal digit
unfoldable pub digit : ℕ → String
digit d = slice "0123456789" d (d + 1)

-- the last digits of a number, as many as the first argument says
unfoldable pub digits : ℕ → ℕ → String
unfolding digit
digits zero n = ""
digits (suc fuel) n =
    let before = digits fuel (n / 10) in
    let last = digit (n % 10) in if ltb n 10 then last else before ++ last

-- the verb `%d` of a number that is not negative; a uint64 has no more than 20 digits
unfoldable pub decimal : ℕ → String
unfolding digits
decimal n = digits 20 n

decimal_168 : decimal 168 ≡ "168"
unfolding decimal
decimal_168 = refl

atoi_minus_12 : atoi "-12" ≡ some (negsuc 11)
unfolding atoi
atoi_minus_12 = refl
