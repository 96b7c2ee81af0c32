-- ===== src/Query/Tiers/Choice.antt =====
-- Which tier a metric range reads, and how many points its step makes (metrics_tiers.go).
use mathlib.Core.Path.{subst}
use mathlib.Core.Bool.{◌&&◌}
use native.Mathlib.Nat.{mod-lt, mod-eq-sub-mod, mod-le}
use opa_hub.Prelude.{
  ℕ, ◌-◌, ◌*◌, ◌/◌, ◌%◌, ◌<◌, ◌≤◌, ◌≡◌, ◌⊎◌, inl, inr, refl, sym, true, false, List, [], ◌∷◌, arith,
  All, ℤ, leb, ltb, Bool-cases, filter,
}
use opa_hub.Query.Tiers.{
  TierSpec, choose, step_of, select_from, eligible, metric_tier_specs, second, points, span_of,
  select_metric_tier, day,
}

-- a tier that is kept by every step of the loop
choose-All :
    (P : TierSpec → Type 0) (target : ℕ) (c : TierSpec) (l : List TierSpec)
    → P c
    → All P l
    → P (choose target c l)
unfolding choose
choose-All P target c [] p h = p
choose-All P target c (t ∷ l) p (q, h) =
    elim (Bool-cases (leb t.resolution target && leb c.resolution t.resolution)) [
      | inl coarser ↦ rw coarser (choose-All P target t l q h)
      | inr other ↦ rw other (choose-All P target c l p h)
    ]

choose-taken :
    (target : ℕ) (c t : TierSpec) (l : List TierSpec)
    → (leb t.resolution target && leb c.resolution t.resolution) ≡ true
    → choose target c (t ∷ l) ≡ choose target t l
unfolding choose
choose-taken target c t l e = rw (e, choose) refl

choose-passed :
    (target : ℕ) (c t : TierSpec) (l : List TierSpec)
    → (leb t.resolution target && leb c.resolution t.resolution) ≡ false
    → choose target c (t ∷ l) ≡ choose target c l
unfolding choose
choose-passed target c t l e = rw (e, choose) refl

-- a tier is at least as coarse as the first one, and as each that is fine enough
abbrev Upper : ℕ → TierSpec → List TierSpec → TierSpec → Type 0
Upper target c l best =
    (c.resolution ≤ best.resolution)
    × All (λ t. t.resolution ≤ target → t.resolution ≤ best.resolution) l

choose-Upper :
    (target : ℕ) (c : TierSpec) (l : List TierSpec) → Upper target c l (choose target c l)
choose-Upper target c [] = unfold choose in (omega arith, tt)
choose-Upper target c (t ∷ l) =
    elim (Bool-cases (leb t.resolution target && leb c.resolution t.resolution)) [
      | inl coarser ↦
          let (up, all) = choose-Upper target t l in
          subst (Upper target c (t ∷ l)) (sym (choose-taken target c t l coarser))
            (ground arith, (λ fits. up, all))
      | inr other ↦
          let (up, all) = choose-Upper target c l in
          subst (Upper target c (t ∷ l)) (sym (choose-passed target c t l other))
            (up, (λ fits. ground arith, all))
    ]

choose-fits :
    (target : ℕ) (c : TierSpec) (l : List TierSpec)
    → (choose target c l ≡ c) ⊎ ((choose target c l).resolution ≤ target)
unfolding choose
choose-fits target c [] = inl refl
choose-fits target c (t ∷ l) =
    elim (Bool-cases (leb t.resolution target && leb c.resolution t.resolution)) [
      | inl coarser ↦ inr (
          rw (coarser, choose)
            (elim (choose-fits target t l) [ inl same ↦ ground arith | inr fits ↦ fits ]))
      | inr other ↦ rw (other, choose) (choose-fits target c l)
    ]

-- the best tier for data of an age and for a target step
pub record IsBest (age target : ℕ) (best : TierSpec) : Type 0 where
  pub retained : age ≤ best.retention
  pub coarse :
      All
        (λ t. age ≤ t.retention → t.resolution ≤ target → t.resolution ≤ best.resolution)
        metric_tier_specs
  pub fine :
      (best.resolution ≤ target)
      ⊎ All (λ t. age ≤ t.retention → best.resolution ≤ t.resolution) metric_tier_specs

abbrev kept : ℕ → List TierSpec → List TierSpec
kept age l = filter (λ t. leb age t.retention) l

All-kept :
    (age : ℕ) (P : TierSpec → Type 0) (l : List TierSpec)
    → All P (kept age l)
    → All (λ t. age ≤ t.retention → P t) l
All-kept age P [] h = tt
All-kept age P (t ∷ l) h = elim (Bool-cases (leb age t.retention)) [
  | inl old ↦ let (p, q) = rw old at h in ((λ r. p), All-kept age P l q)
  | inr young ↦ ((λ r. absurd (ground arith)), All-kept age P l (rw young at h))
]

kept-All : (age : ℕ) (l : List TierSpec) → All (λ t. age ≤ t.retention) (kept age l)
kept-All age [] = tt
kept-All age (t ∷ l) = elim (Bool-cases (leb age t.retention)) [
  | inl old ↦ rw old (ground arith, kept-All age l)
  | inr young ↦ rw young (kept-All age l)
]

kept-keeps : (age : ℕ) (P : TierSpec → Type 0) (l : List TierSpec) → All P l → All P (kept age l)
kept-keeps age P [] h = tt
kept-keeps age P (t ∷ l) (p, h) = elim (Bool-cases (leb age t.retention)) [
  | inl old ↦ rw old (p, kept-keeps age P l h)
  | inr young ↦ rw young (kept-keeps age P l h)
]

abbrev Ascending : List TierSpec → Type 0
Ascending [] = Unit
Ascending (t ∷ l) = All (λ u. t.resolution ≤ u.resolution) l × Ascending l

finest-kept :
    (age : ℕ) (first : TierSpec) (rest l : List TierSpec)
    → Ascending l
    → kept age l ≡ first ∷ rest
    → All (λ t. age ≤ t.retention → first.resolution ≤ t.resolution) l
finest-kept age first rest [] a e = tt
finest-kept age first rest (t ∷ l) (below, a) e = elim (Bool-cases (leb age t.retention)) [
  | inl old ↦
      let same : t ≡ first = ground arith in
      (
        (λ r. ground arith),
        subst (λ x. All (λ u. age ≤ u.retention → x.resolution ≤ u.resolution) l) same
            (weaken age t l below),
      )
  | inr young ↦ ((λ r. absurd (ground arith)), finest-kept age first rest l a (ground arith))
]
  where
    weaken :
        (age : ℕ) (t : TierSpec) (l : List TierSpec)
        → All (λ u. t.resolution ≤ u.resolution) l
        → All (λ u. age ≤ u.retention → t.resolution ≤ u.resolution) l
    weaken age t [] h = tt
    weaken age t (u ∷ l) (p, h) = ((λ r. p), weaken age t l h)

mod_range : (n m : ℕ) → 0 < m → m ≤ n → (n % m < m) × (n % m ≤ n - m)
mod_range n m p h = (mod-lt n p, rw (mod-eq-sub-mod h) (mod-le (n - m) m))

-- a step is at least a second and the tier's resolution, and more than half of the target
step_of-range :
    (target : ℕ) (t : TierSpec)
    → (t.resolution ≡ 0) ⊎ (second ≤ t.resolution)
    → (second ≤ step_of target t)
      × (t.resolution ≤ step_of target t)
      × (target < 2 * step_of target t)
unfolding step_of
step_of-range target t (inl raw) = ground arith
step_of-range target t (inr coarse) = elim (Bool-cases (ltb target t.resolution)) [
  | inl below ↦ ground arith
  | inr above ↦
      let (small, rest) = mod_range target t.resolution (omega arith) (ground arith) in ground arith
]

-- the resolution of a tier in seconds, or none
abbrev Sound : TierSpec → Type 0
Sound t = (t.resolution ≡ 0) ⊎ (second ≤ t.resolution)

-- where a choice and its step stand
abbrev pub IsChoice : ℕ → ℕ → TierSpec × ℕ → Type 0
IsChoice age target (best, step) =
    IsBest age target best × (second ≤ step) × (best.resolution ≤ step) × (target < 2 * step)

specs-Sound : All Sound metric_tier_specs
specs-Sound = (
  inl refl,
  (inr (omega arith), (inr (omega arith), (inr (omega arith), (inr (omega arith), tt)))),
)

specs-Ascending : Ascending metric_tier_specs
specs-Ascending = ground arith

select_from-IsChoice :
    (age target : ℕ) (l : List TierSpec)
    → kept age metric_tier_specs ≡ l
    → age ≤ 1095 * day
    → IsChoice age target (select_from target l)
unfolding select_from
select_from-IsChoice age target [] e young =
    let (a, (b, (c, (d, (last, u))))) = All-kept age (λ t. ⊥) metric_tier_specs (rw e tt) in
    absurd (last young)
select_from-IsChoice age target (first ∷ rest) e young =
    let best = choose target first (first ∷ rest) in
    let (up, all) = choose-Upper target first (first ∷ rest) in
    let (r, retained) = subst (All (λ t. age ≤ t.retention)) e (kept-All age metric_tier_specs) in
    let (s, sound) = subst (All Sound) e (kept-keeps age Sound metric_tier_specs specs-Sound) in
    let (second_, resolution_, half) =
      step_of-range target best (choose-All Sound target first (first ∷ rest) s (s, sound)) in
    let finest = finest-kept age first rest metric_tier_specs specs-Ascending e in
    (
      record {
        retained = choose-All (λ t. age ≤ t.retention) target first (first ∷ rest) r (r, retained);
        coarse =
            All-kept age (λ t. t.resolution ≤ target → t.resolution ≤ best.resolution)
              metric_tier_specs
              (subst (All (λ t. t.resolution ≤ target → t.resolution ≤ best.resolution)) (sym e)
                all);
        fine = elim (choose-fits target first (first ∷ rest)) [
          | inl same ↦ inr (
              subst
                (λ (b : TierSpec).
                  All (λ t. age ≤ t.retention → b.resolution ≤ t.resolution) metric_tier_specs)
                (sym same) finest)
          | inr fits ↦ inl fits
        ];
      },
      second_,
      resolution_,
      half,
    )

-- For a range that starts no more than 1095 days ago, `selectMetricTier` picks a tier that still holds
-- that data: the coarsest of those whose resolution is within the target (the span over the points),
-- and the finest one if none is. The step is at least a second and at least the tier's resolution, and
-- it is more than half of the target, so the range has about twice the asked points at most.
pub select_metric_tier-IsChoice :
    (from to now : ℕ) (max_points : ℤ)
    → now - from ≤ 1095 * day
    → IsChoice
        (now - from)
        (span_of from to / points max_points)
        (select_metric_tier from to now max_points)
unfolding select_metric_tier eligible
select_metric_tier-IsChoice from to now max_points young =
    select_from-IsChoice (now - from) (span_of from to / points max_points) _ refl young
