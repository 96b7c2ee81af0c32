-- ===== src/Query/Intervals.antt =====
-- Tokens of internal/query/helpers.go: the bucket of a chart, and the names that are no service.
use mathlib.Core.Path.{subst}
use opa_hub.Prelude.{
  String, Bool, false, ◌≡◌, ◌⊎◌, inl, inr, refl, List, [], ◌∷◌, any, arith, Bool-cases,
  if◌then◌else◌,
}
use opa_hub.Text.{trim_space, lower_equals}

-- the cases of `safeInterval`: a token and its interval
abbrev pub interval_cases : List (String × String)
interval_cases =
    ("1m", "1 MINUTE")
    ∷ ("1 minute", "1 MINUTE")
    ∷ ("minute", "1 MINUTE")
    ∷ ("5m", "5 MINUTE")
    ∷ ("5 minute", "5 MINUTE")
    ∷ ("10m", "10 MINUTE")
    ∷ ("15m", "15 MINUTE")
    ∷ ("15 minute", "15 MINUTE")
    ∷ ("30m", "30 MINUTE")
    ∷ ("30 minute", "30 MINUTE")
    ∷ ("6h", "6 HOUR")
    ∷ ("6 hour", "6 HOUR")
    ∷ ("1d", "1 DAY")
    ∷ ("1 day", "1 DAY")
    ∷ ("day", "1 DAY")
    ∷ ("1h", "1 HOUR")
    ∷ ("1 hour", "1 HOUR")
    ∷ ("hour", "1 HOUR")
    ∷ ("", "1 HOUR")
    ∷ []

-- the switch over some cases, with its default
unfoldable pub interval_in : List (String × String) → String → String
unfolding lower_equals
interval_in [] s = "1 HOUR"
interval_in ((token, interval) ∷ rest) s =
    let later = interval_in rest s in if lower_equals s token then interval else later

-- `safeInterval`
unfoldable pub safe_interval : String → String
unfolding interval_in trim_space
safe_interval raw = interval_in interval_cases (trim_space raw)

-- `invalidServiceName`
unfoldable pub invalid_service_name : String → Bool
unfolding trim_space lower_equals
invalid_service_name s =
    any (λ name. lower_equals (trim_space s) name)
      ("" ∷ "unknown" ∷ "null" ∷ "undefined" ∷ "none" ∷ [])

-- the interval of one of the cases, or the default
abbrev pub Offered : String → List (String × String) → Type 0
Offered s [] = s ≡ "1 HOUR"
Offered s ((token, interval) ∷ rest) = (s ≡ interval) ⊎ Offered s rest

interval_in-later :
    (token interval s : String) (rest : List (String × String))
    → lower_equals s token ≡ false
    → interval_in rest s ≡ interval_in ((token, interval) ∷ rest) s
unfolding interval_in
interval_in-later token interval s rest other = ground arith

interval_in-Offered : (l : List (String × String)) (s : String) → Offered (interval_in l s) l
interval_in-Offered [] s = unfold interval_in in refl
interval_in-Offered ((token, interval) ∷ rest) s = elim (Bool-cases (lower_equals s token)) [
  | inl taken ↦ inl (unfold interval_in in ground arith)
  | inr passed ↦ inr (
      subst (λ x. Offered x rest) (interval_in-later token interval s rest passed)
        (interval_in-Offered rest s))
]

-- The interval that the hub writes into SQL without quotes is one of its own eight, whatever the
-- request asks for.
pub safe_interval-Offered : (raw : String) → Offered (safe_interval raw) interval_cases
unfolding safe_interval
safe_interval-Offered raw = interval_in-Offered interval_cases (trim_space raw)
