-- ===== src/Query/Sql/Parts.antt =====
-- Texts that are put together from parts, as the handlers do with `fmt.Sprintf` and `+=`.
use opa_hub.Prelude.{
  String, Bool, true, false, ◌≡◌, refl, List, [], ◌∷◌, ◌++◌, All, ◌==◌, ◌&&◌, ◌||◌, arith,
  if◌then◌else◌,
}
use opa_hub.Query.Sql.{
  raw, quoted, number, real, cents, tenant_and, tenant_where, owned_row, Sql, Place, in_code,
  in_literal, at_quote, at_backslash,
}
use opa_hub.Query.Sql.Literals.{is_settled, is_placed, place_after}
use opa_hub.Query.Sql.Scoped.{is_scoped}

and_left : (a b : Bool) → (a && b) ≡ true → a ≡ true
and_left a b h = ground arith

and_right : (a b : Bool) → (a && b) ≡ true → b ≡ true
and_right a b h = ground arith

both : (a b : Bool) → a ≡ true → b ≡ true → (a && b) ≡ true
both a b h k = ground arith

-- a text that may stand in code or behind a literal, with its values in literals of their own
unfoldable pub is_part : {F : Type 0} → Sql F → Bool
is_part ps = is_placed in_code ps && is_placed at_quote ps

-- the parts of a text, one behind the other
abbrev pub joined : {F : Type 0} → List (Sql F) → Sql F
joined [] = []
joined (ps ∷ rest) = ps ++ joined rest

-- a condition on a parameter, where one is given
abbrev pub where_given : {F : Type 0} → String → String → Sql F
where_given condition value = if value == "" then [] else raw condition ∷ quoted value ∷ []

module _ {F : Type 0} where
  settled_part :
      (p : Place) (qs : Sql F) → is_settled p ≡ true → is_part qs ≡ true → is_placed p qs ≡ true
  unfolding is_part
  settled_part in_code qs s h = and_left _ _ h
  settled_part at_quote qs s h = and_right _ _ h
  settled_part in_literal qs s h = ground arith
  settled_part at_backslash qs s h = ground arith

  -- a piece that may be followed by code or by a literal
  closed :
      (p : Place) (ps qs : Sql F)
      → (is_settled p && (is_placed in_code ps && is_placed at_quote ps)) ≡ true
      → ((q : Place) → is_placed q ps ≡ true → is_placed q (ps ++ qs) ≡ true)
      → (is_settled p && (is_placed in_code (ps ++ qs) && is_placed at_quote (ps ++ qs))) ≡ true
  closed p ps qs h k =
      let next = and_right (is_settled p) _ h in
      both _ _ (and_left _ _ h) (
        both _ _ (k in_code (and_left _ _ next))
          (k at_quote (and_right (is_placed in_code ps) _ next)))

  is_placed-append :
      (p : Place) (ps qs : Sql F)
      → is_part qs ≡ true
      → is_placed p ps ≡ true
      → is_placed p (ps ++ qs) ≡ true
  unfolding is_placed
  is_placed-append p [] qs k h = settled_part p qs h k
  is_placed-append p (raw t ∷ ps) qs k h = is_placed-append (place_after p t) ps qs k h
  is_placed-append p (quoted s ∷ ps) qs k h =
      both _ _ (and_left _ _ h) (is_placed-append at_quote ps qs k (and_right (is_settled p) _ h))
  is_placed-append p (number n ∷ ps) qs k h = closed p ps qs h (λ q. is_placed-append q ps qs k)
  is_placed-append p (real x ∷ ps) qs k h = closed p ps qs h (λ q. is_placed-append q ps qs k)
  is_placed-append p (cents x ∷ ps) qs k h = closed p ps qs h (λ q. is_placed-append q ps qs k)
  is_placed-append p (tenant_and a ∷ ps) qs k h = closed p ps qs h (λ q. is_placed-append q ps qs k)
  is_placed-append p (tenant_where a ∷ ps) qs k h =
      closed p ps qs h (λ q. is_placed-append q ps qs k)
  is_placed-append p (owned_row a ∷ ps) qs k h = closed p ps qs h (λ q. is_placed-append q ps qs k)

  is_part-append :
      (ps qs : Sql F) → is_part ps ≡ true → is_part qs ≡ true → is_part (ps ++ qs) ≡ true
  unfolding is_part
  is_part-append ps qs h k =
      both _ _ (is_placed-append in_code ps qs k (and_left _ _ h))
        (is_placed-append at_quote ps qs k (and_right (is_placed in_code ps) _ h))

  -- a text of parts keeps its values in their literals
  pub joined_lem :
      (parts : List (Sql F)) → All (λ ps. is_part ps ≡ true) parts → is_part (joined parts) ≡ true
  joined_lem [] h = unfold is_part is_placed in refl
  joined_lem (ps ∷ rest) (h, k) = is_part-append ps (joined rest) h (joined_lem rest k)

  pub is_part-is_placed : (ps : Sql F) → is_part ps ≡ true → is_placed in_code ps ≡ true
  unfolding is_part
  is_part-is_placed ps h = and_left _ _ h

  pub is_part-if :
      (b : Bool) (ps qs : Sql F)
      → is_part ps ≡ true
      → is_part qs ≡ true
      → is_part (if b then ps else qs) ≡ true
  is_part-if true ps qs h k = h
  is_part-if false ps qs h k = k

  is_scoped-append : (ps qs : Sql F) → is_scoped (ps ++ qs) ≡ (is_scoped ps || is_scoped qs)
  unfolding is_scoped
  is_scoped-append [] qs = refl
  is_scoped-append (raw t ∷ ps) qs = is_scoped-append ps qs
  is_scoped-append (quoted t ∷ ps) qs = is_scoped-append ps qs
  is_scoped-append (number t ∷ ps) qs = is_scoped-append ps qs
  is_scoped-append (real t ∷ ps) qs = is_scoped-append ps qs
  is_scoped-append (cents t ∷ ps) qs = is_scoped-append ps qs
  is_scoped-append (tenant_and t ∷ ps) qs = refl
  is_scoped-append (tenant_where t ∷ ps) qs = refl
  is_scoped-append (owned_row t ∷ ps) qs = refl

  -- a condition of the tenant behind a part
  pub is_scoped-later : (ps qs : Sql F) → is_scoped qs ≡ true → is_scoped (ps ++ qs) ≡ true
  is_scoped-later ps qs h = ground (arith, is_scoped-append ps qs)
