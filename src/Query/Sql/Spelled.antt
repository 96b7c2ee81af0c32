-- ===== src/Query/Sql/Spelled.antt =====
-- Statements whose code is made of texts from a vocabulary: whatever else goes into them is a value.
use opa_hub.Prelude.{
  String, Bool, true, false, ◌≡◌, refl, List, [], ◌∷◌, ◌++◌, All, any, ◌==◌, ◌&&◌, arith,
  if◌then◌else◌,
}
use opa_hub.Query.Sql.{
  ScopeLib, raw, quoted, number, real, cents, tenant_and, tenant_where, owned_row, Sql, in_code,
}
use opa_hub.Query.Sql.Literals.{Escapes, is_placed, IsFixed}
use opa_hub.Query.Sql.Escaped.{is_placed-IsFixed}
use opa_hub.Query.Sql.Parts.{is_part, joined, joined_lem, is_part-is_placed}

-- the texts in the code of a statement
abbrev pub words : {F : Type 0} → Sql F → List String
words [] = []
words (raw t ∷ ps) = t ∷ words ps
words (quoted s ∷ ps) = words ps
words (number n ∷ ps) = words ps
words (real x ∷ ps) = words ps
words (cents x ∷ ps) = words ps
words (tenant_and a ∷ ps) = words ps
words (tenant_where a ∷ ps) = words ps
words (owned_row a ∷ ps) = words ps

-- whether every text is one of the vocabulary
abbrev pub all_of : List String → List String → Bool
all_of vs [] = true
all_of vs (t ∷ ts) = any (λ v. v == t) vs && all_of vs ts

unfoldable pub is_spelled : {F : Type 0} → List String → Sql F → Bool
is_spelled vs ps = all_of vs (words ps)

-- a statement of the vocabulary with its values between quotes, and a part of one
unfoldable pub is_kept : {F : Type 0} → List String → Sql F → Bool
unfolding is_spelled is_placed
is_kept vs ps = is_placed in_code ps && is_spelled vs ps

unfoldable pub is_vetted : {F : Type 0} → List String → Sql F → Bool
unfolding is_spelled is_part is_placed
is_vetted vs ps = is_part ps && is_spelled vs ps

-- ClickHouse reads the same code whatever the values are, and every text of the code is one of the
-- vocabulary
abbrev pub IsSpelled : {F : Type 0} → ScopeLib F → List String → Sql F → Type 0
IsSpelled l vs ps = IsFixed l ps × (is_spelled vs ps ≡ true)

and_left : (a b : Bool) → (a && b) ≡ true → a ≡ true
and_left a b h = ground arith

and_right : (a b : Bool) → (a && b) ≡ true → b ≡ true
and_right a b h = ground arith

both : (a b : Bool) → a ≡ true → b ≡ true → (a && b) ≡ true
both a b h k = ground arith

module _ {F : Type 0} (l : ScopeLib F) (e : Escapes l) (vs : List String) where
  pub is_kept-IsSpelled : (ps : Sql F) → is_kept vs ps ≡ true → IsSpelled l vs ps
  unfolding is_kept
  is_kept-IsSpelled ps h =
      (is_placed-IsFixed l e ps (and_left _ _ h), and_right (is_placed in_code ps) _ h)

  pub is_vetted-IsSpelled : (ps : Sql F) → is_vetted vs ps ≡ true → IsSpelled l vs ps
  unfolding is_vetted
  is_vetted-IsSpelled ps h =
      (is_placed-IsFixed l e ps (is_part-is_placed ps (and_left _ _ h)), and_right (is_part ps) _ h)

module _ {F : Type 0} (vs : List String) where
  is_spelled-append :
      (ps qs : Sql F)
      → is_spelled vs ps ≡ true
      → is_spelled vs qs ≡ true
      → is_spelled vs (ps ++ qs) ≡ true
  unfolding is_spelled
  is_spelled-append [] qs h k = k
  is_spelled-append (raw t ∷ ps) qs h k =
      both _ _ (and_left _ _ h) (is_spelled-append ps qs (and_right (any (λ v. v == t) vs) _ h) k)
  is_spelled-append (quoted t ∷ ps) qs h k = is_spelled-append ps qs h k
  is_spelled-append (number t ∷ ps) qs h k = is_spelled-append ps qs h k
  is_spelled-append (real t ∷ ps) qs h k = is_spelled-append ps qs h k
  is_spelled-append (cents t ∷ ps) qs h k = is_spelled-append ps qs h k
  is_spelled-append (tenant_and t ∷ ps) qs h k = is_spelled-append ps qs h k
  is_spelled-append (tenant_where t ∷ ps) qs h k = is_spelled-append ps qs h k
  is_spelled-append (owned_row t ∷ ps) qs h k = is_spelled-append ps qs h k

  parts_of :
      (parts : List (Sql F))
      → All (λ ps. is_vetted vs ps ≡ true) parts
      → All (λ ps. is_part ps ≡ true) parts × (is_spelled vs (joined parts) ≡ true)
  unfolding is_vetted
  parts_of [] h = (tt, unfold is_spelled in refl)
  parts_of (ps ∷ rest) (h, k) =
      let (placed, spelled) = parts_of rest k in
      (
        (and_left _ _ h, placed),
        is_spelled-append ps (joined rest) (and_right (is_part ps) _ h) spelled,
      )

  -- vetted parts make a vetted statement
  pub joined-is_vetted :
      (parts : List (Sql F))
      → All (λ ps. is_vetted vs ps ≡ true) parts
      → is_vetted vs (joined parts) ≡ true
  unfolding is_vetted
  joined-is_vetted parts h =
      let (placed, spelled) = parts_of parts h in both _ _ (joined_lem parts placed) spelled

  pub is_vetted-if :
      (b : Bool) (ps qs : Sql F)
      → is_vetted vs ps ≡ true
      → is_vetted vs qs ≡ true
      → is_vetted vs (if b then ps else qs) ≡ true
  is_vetted-if true ps qs h k = h
  is_vetted-if false ps qs h k = k
