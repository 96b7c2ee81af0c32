-- ===== src/Query/Facets/Allowed.antt =====
-- What the facet handler can ask ClickHouse for (explore_facets.go).
use mathlib.Core.Bool.{◌&&◌}
use mathlib.Core.Path.{subst}
use opa_hub.Prelude.{
  pos, ℕ, ◌≤◌, String, ◌≡◌, ◌⊎◌, inl, inr, refl, Option, none, some, List, [], ◌∷◌, ◌==◌, arith,
  Bool-cases,
}
use opa_hub.Text.{lower_equals, trim_space}
use opa_hub.Http.{Request}
use opa_hub.Query.Numbers.{clamp_int-range, parse_int_default}
use opa_hub.Query.Facets.{
  Attr, explore_attr, resolve_in, resolve_explore_attr, parse_explore_signal, Plan, facet_sql,
  plan_at, plan_from, facet_plan, facets_answer, Database, serve_explore_facets,
}

-- an entry of a list of columns
abbrev pub Listed : Attr → List Attr → Type 0
Listed a [] = ⊥
Listed a (b ∷ l) = (a ≡ b) ⊎ Listed a l

-- a plan whose column is on the allow-list, over an hour to a week
pub record IsAllowed (p : Plan) : Type 0 where
  pub listed : Listed p.attr explore_attr
  pub at_least : 1 ≤ p.hours
  pub at_most : p.hours ≤ 168

resolve_in-Listed :
    (l : List Attr) (signal field : String) (a : Attr)
    → resolve_in l signal field ≡ some a
    → Listed a l
unfolding resolve_in
resolve_in-Listed [] signal field a e = absurd (cc)
resolve_in-Listed (b ∷ l) signal field a e =
    elim (Bool-cases (lower_equals field b.field && b.signal == signal)) [
      | inl found ↦ inl (ground arith)
      | inr other ↦ inr (resolve_in-Listed l signal field a (ground arith))
    ]

resolve_explore_attr-Listed :
    (signal field : String) (a : Attr)
    → resolve_explore_attr signal field ≡ some a
    → Listed a explore_attr
unfolding resolve_explore_attr
resolve_explore_attr-Listed signal field a e =
    resolve_in-Listed explore_attr signal (trim_space field) a e

plan_at-IsAllowed :
    (o : Option Attr) (hours : ℕ) (p : Plan)
    → ((a : Attr) → o ≡ some a → Listed a explore_attr)
    → (1 ≤ hours) × (hours ≤ 168)
    → plan_at o hours ≡ inr p
    → IsAllowed p
unfolding plan_at
plan_at-IsAllowed none hours p h range e = absurd (cc)
plan_at-IsAllowed (some a) hours p h (low, high) e =
    let same : record { attr = a; hours = hours } ≡ p = cc in
    subst IsAllowed same (record { listed = h a refl; at_least = low; at_most = high })

plan_from-IsAllowed :
    (o : Option String) (field : String) (hours : ℕ) (p : Plan)
    → (1 ≤ hours) × (hours ≤ 168)
    → plan_from o field hours ≡ inr p
    → IsAllowed p
unfolding plan_from
plan_from-IsAllowed none field hours p range e = absurd (cc)
plan_from-IsAllowed (some signal) field hours p range e =
    plan_at-IsAllowed (resolve_explore_attr signal field) hours p
      (resolve_explore_attr-Listed signal field) range e

-- Whatever a request says, a plan that comes of it reads a column of the allow-list, over at least an
-- hour and at most a week.
pub facet_plan-IsAllowed : (req : Request Unit) (p : Plan) → facet_plan req ≡ inr p → IsAllowed p
unfolding facet_plan
facet_plan-IsAllowed req p e =
    plan_from-IsAllowed (parse_explore_signal (req.query "signal")) _ _ p
      (clamp_int-range (parse_int_default (req.query "hours") (pos 24)) 1 168 (omega arith)) e

same_answer :
    (one two : Database) (tenant : String) (s : String ⊎ Plan)
    → ((p : Plan) → s ≡ inr p → one (facet_sql tenant p) ≡ two (facet_sql tenant p))
    → facets_answer one tenant s ≡ facets_answer two tenant s
unfolding facets_answer
same_answer one two tenant (inl message) h = refl
same_answer one two tenant (inr p) h = rw (h p refl) refl

-- The handler sends ClickHouse no text but that of an allowed plan, for the tenant's condition: two
-- databases that answer those texts alike give the same answer to every request.
pub serve_explore_facets-IsAllowed :
    (one two : Database) (tenant : String) (req : Request Unit)
    → ((p : Plan) → IsAllowed p → one (facet_sql tenant p) ≡ two (facet_sql tenant p))
    → serve_explore_facets (some one) tenant req ≡ serve_explore_facets (some two) tenant req
unfolding serve_explore_facets
serve_explore_facets-IsAllowed one two tenant req same =
    rw (same_answer one two tenant (facet_plan req) (λ p e. same p (facet_plan-IsAllowed req p e)))
