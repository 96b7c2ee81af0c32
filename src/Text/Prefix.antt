-- ===== src/Text/Prefix.antt =====
-- The prefixes of a text, and what stands behind them.
use Prim.Native.Char.{code}
use Prim.Native.String.{◌++◌}
use text.Mathlib.TextLemmas.{nil-append, cons-append}
use opa_hub.Prelude.{ℕ, String, Bool, true, false, ◌≡◌, refl, ◌||◌, eqb, arith, if◌then◌else◌}
use opa_hub.Text.{has_prefix, drop_prefix, trim_prefix, contains_any}

eqb_refl : (n : ℕ) → eqb n n ≡ true
eqb_refl n = ground arith

pub has_prefix-append : (p t : String) → has_prefix (p ++ t) p ≡ true
unfolding has_prefix
has_prefix-append String.[] t = refl
has_prefix-append (String.◌∷◌ c p) t = rw (cons-append, eqb_refl (code c)) (has_prefix-append p t)

drop_prefix-append : (p t : String) → drop_prefix (p ++ t) p ≡ t
unfolding drop_prefix
drop_prefix-append String.[] t = nil-append t
drop_prefix-append (String.◌∷◌ c p) t = rw cons-append (drop_prefix-append p t)

-- what a text has behind its prefix
pub trim_prefix-append : (p t : String) → trim_prefix (p ++ t) p ≡ t
unfolding trim_prefix
trim_prefix-append p t = rw (has_prefix-append p t) (drop_prefix-append p t)

-- whether two texts part before either ends
unfoldable pub parts_from : String → String → Bool
parts_from String.[] p = false
parts_from (String.◌∷◌ c s) String.[] = false
parts_from (String.◌∷◌ c s) (String.◌∷◌ d p) =
    let rest = parts_from s p in if eqb (code c) (code d) then rest else true

pub parts_from-has_prefix : (s t p : String) → parts_from s p ≡ true → has_prefix (s ++ t) p ≡ false
unfolding parts_from has_prefix
parts_from-has_prefix String.[] t p h = ground arith
parts_from-has_prefix (String.◌∷◌ c s) t String.[] h = ground arith
parts_from-has_prefix (String.◌∷◌ c s) t (String.◌∷◌ d p) h =
    rw cons-append (let later = parts_from-has_prefix s t p in ground arith)

either_false : (a b : Bool) → a ≡ false → b ≡ false → (a || b) ≡ false
either_false a b h k = ground arith

or_left : (a b : Bool) → (a || b) ≡ false → a ≡ false
or_left a b h = ground arith

or_right : (a b : Bool) → (a || b) ≡ false → b ≡ false
or_right a b h = ground arith

pub contains_any-append :
    (p : ℕ → Bool) (s t : String)
    → contains_any p s ≡ false
    → contains_any p t ≡ false
    → contains_any p (s ++ t) ≡ false
unfolding contains_any
contains_any-append p String.[] t h k = rw nil-append k
contains_any-append p (String.◌∷◌ c s) t h k = rw cons-append (
    either_false (p (code c)) _ (or_left _ _ h)
      (contains_any-append p s t (or_right (p (code c)) _ h) k))
