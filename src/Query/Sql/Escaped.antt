-- ===== src/Query/Sql/Escaped.antt =====
-- Escaped values stay in their literals.
use Prim.Native.Char.{code}
use Prim.Native.String.{◌++◌}
use text.Mathlib.TextLemmas.{nil-append, cons-append, append-nil}
use opa_hub.Prelude.{
  ℕ, zero, suc, ◌%◌, ◌/◌, ◌<◌, ltb, String, Bool, true, false, ◌≡◌, refl, ap, sym, ◌∙◌, [], ◌∷◌,
  ◌&&◌, not, eqb, if◌then◌else◌, arith,
}
use opa_hub.Query.Numbers.{decimal, digits, digit}
use opa_hub.Query.Sql.{
  ScopeLib, raw, quoted, number, real, cents, tenant_and, tenant_where, owned_row, Sql, piece_text,
  sql_text, Place, in_code, in_literal, at_quote, at_backslash, moved,
}
use opa_hub.Query.Sql.Literals.{
  Escapes, code_text, place_after, code_text-append, place_after-append, is_settled, no_quote,
  emptied, is_placed, IsFixed,
}

close_quote : place_after in_literal "'" ≡ at_quote
unfolding place_after
close_quote = refl

silent_quote : "" ++ code_text in_literal "'" ≡ ""
unfolding code_text
silent_quote = refl

open_quote : (p : Place) → is_settled p ≡ true → place_after p "'" ≡ in_literal
unfolding place_after
open_quote in_code h = refl
open_quote at_quote h = refl
open_quote in_literal h = ground arith
open_quote at_backslash h = ground arith

and_left : (a b : Bool) → (a && b) ≡ true → a ≡ true
and_left a b h = ground arith

and_right : (a b : Bool) → (a && b) ≡ true → b ≡ true
and_right a b h = ground arith

-- a text without quotes opens no literal
moved_settled :
    (p : Place) (c : ℕ)
    → is_settled p ≡ true
    → not (eqb c 39) ≡ true
    → is_settled (moved p c) ≡ true
moved_settled in_code c h k = ground arith
moved_settled at_quote c h k = ground arith
moved_settled in_literal c h k = ground arith
moved_settled at_backslash c h k = ground arith

no_quote_settled :
    (p : Place) (t : String)
    → is_settled p ≡ true
    → no_quote t ≡ true
    → is_settled (place_after p t) ≡ true
unfolding place_after no_quote
no_quote_settled p String.[] h k = h
no_quote_settled p (String.◌∷◌ c s) h k =
    no_quote_settled (moved p (code c)) s (moved_settled p (code c) h (and_left _ (no_quote s) k))
      (and_right (not (eqb (code c) 39)) (no_quote s) k)

no_quote-append : (s t : String) → no_quote s ≡ true → no_quote t ≡ true → no_quote (s ++ t) ≡ true
unfolding no_quote
no_quote-append String.[] t h k = rw nil-append k
no_quote-append (String.◌∷◌ c s) t h k =
    rw (cons-append, and_left (not (eqb (code c) 39)) (no_quote s) h)
      (no_quote-append s t (and_right _ (no_quote s) h) k)

no_quote-digit : (d : ℕ) → d < 10 → no_quote (digit d) ≡ true
unfolding no_quote digit
no_quote-digit zero h = refl
no_quote-digit (suc zero) h = refl
no_quote-digit (suc (suc zero)) h = refl
no_quote-digit (suc (suc (suc zero))) h = refl
no_quote-digit (suc (suc (suc (suc zero)))) h = refl
no_quote-digit (suc (suc (suc (suc (suc zero))))) h = refl
no_quote-digit (suc (suc (suc (suc (suc (suc zero)))))) h = refl
no_quote-digit (suc (suc (suc (suc (suc (suc (suc zero))))))) h = refl
no_quote-digit (suc (suc (suc (suc (suc (suc (suc (suc zero)))))))) h = refl
no_quote-digit (suc (suc (suc (suc (suc (suc (suc (suc (suc zero))))))))) h = refl
no_quote-digit (suc (suc (suc (suc (suc (suc (suc (suc (suc (suc d)))))))))) h =
    absurd (omega arith)

no_quote-if :
    (b : Bool) (s t : String)
    → no_quote s ≡ true
    → no_quote t ≡ true
    → no_quote (if b then s else t) ≡ true
no_quote-if true s t h k = h
no_quote-if false s t h k = k

no_quote-digits : (fuel n : ℕ) → no_quote (digits fuel n) ≡ true
unfolding digits
no_quote-digits zero n = unfold no_quote in refl
no_quote-digits (suc fuel) n =
    let last = no_quote-digit (n % 10) (omega arith) in
    no_quote-if (ltb n 10) _ _ last
      (no_quote-append (digits fuel (n / 10)) (digit (n % 10)) (no_quote-digits fuel (n / 10)) last)

pub no_quote-decimal : (n : ℕ) → no_quote (decimal n) ≡ true
unfolding decimal
no_quote-decimal n = no_quote-digits 20 n

module _ {F : Type 0} (l : ScopeLib F) (e : Escapes l) where
  quoted_place :
      (p : Place)
      → is_settled p ≡ true
      → (s : String) → place_after p (piece_text l (quoted s)) ≡ at_quote
  quoted_place p n s =
      place_after-append p "'" (l.escape_sql s ++ "'")
      ∙ ap (λ q. place_after q (l.escape_sql s ++ "'")) (open_quote p n)
      ∙ place_after-append in_literal (l.escape_sql s) "'"
      ∙ ap (λ q. place_after q "'") (e.stays s)
      ∙ close_quote

  quoted_code :
      (p : Place)
      → is_settled p ≡ true
      → (s : String) → code_text p (piece_text l (quoted s)) ≡ code_text p "'"
  quoted_code p n s =
      code_text-append p "'" (l.escape_sql s ++ "'")
      ∙ ap (λ q. code_text p "'" ++ code_text q (l.escape_sql s ++ "'")) (open_quote p n)
      ∙ ap (λ t. code_text p "'" ++ t)
          (code_text-append in_literal (l.escape_sql s) "'"
            ∙ ap (λ t. t ++ code_text (place_after in_literal (l.escape_sql s)) "'") (e.silent s)
            ∙ ap (λ q. "" ++ code_text q "'") (e.stays s)
            ∙ silent_quote)
      ∙ append-nil (code_text p "'")

  -- the same piece before two texts
  code_text-before :
      (p : Place) (t a b : String)
      → code_text (place_after p t) a ≡ code_text (place_after p t) b
      → code_text p (t ++ a) ≡ code_text p (t ++ b)
  code_text-before p t a b same =
      code_text-append p t a ∙ ap (λ u. code_text p t ++ u) same ∙ sym (code_text-append p t b)

  placed_at :
      (q : Place) (ps : Sql F)
      → is_settled q ≡ true
      → (is_placed in_code ps && is_placed at_quote ps) ≡ true
      → is_placed q ps ≡ true
  placed_at in_code ps s h = and_left _ _ h
  placed_at at_quote ps s h = and_right _ _ h
  placed_at in_literal ps s h = ground arith
  placed_at at_backslash ps s h = ground arith

  -- a piece that leaves no literal open, before a text that may begin in code or behind a quote
  closed_piece :
      (p : Place) (t : String) (ps : Sql F)
      → (is_settled p && (is_placed in_code ps && is_placed at_quote ps)) ≡ true
      → (is_settled p ≡ true → is_settled (place_after p t) ≡ true)
      → is_placed (place_after p t) ps ≡ true
  closed_piece p t ps h k =
      placed_at (place_after p t) ps (k (and_left (is_settled p) _ h))
        (and_right (is_settled p) _ h)

  fixed_from :
      (p : Place) (ps : Sql F)
      → is_placed p ps ≡ true
      → code_text p (sql_text l ps) ≡ code_text p (sql_text l (emptied ps))
  unfolding is_placed
  fixed_from p [] h = refl
  fixed_from p (raw t ∷ ps) h = code_text-before p t _ _ (fixed_from (place_after p t) ps h)
  fixed_from p (number n ∷ ps) h = code_text-before p (decimal n) _ _ (
      fixed_from _ ps (
        closed_piece p (decimal n) ps h
          (λ s. no_quote_settled p (decimal n) s (no_quote-decimal n))))
  fixed_from p (real x ∷ ps) h = code_text-before p (l.float_text x) _ _ (
      fixed_from _ ps (
        closed_piece p (l.float_text x) ps h
          (λ s. no_quote_settled p (l.float_text x) s (e.float_plain x))))
  fixed_from p (cents x ∷ ps) h = code_text-before p (l.cents_text x) _ _ (
      fixed_from _ ps (
        closed_piece p (l.cents_text x) ps h
          (λ s. no_quote_settled p (l.cents_text x) s (e.cents_plain x))))
  fixed_from p (tenant_and a ∷ ps) h =
      code_text-before p (l.scope_and a) _ _
        (fixed_from _ ps (closed_piece p (l.scope_and a) ps h (e.scope_and_closed p a)))
  fixed_from p (tenant_where a ∷ ps) h =
      code_text-before p (l.scope_bool a) _ _
        (fixed_from _ ps (closed_piece p (l.scope_bool a) ps h (e.scope_bool_closed p a)))
  fixed_from p (owned_row a ∷ ps) h =
      code_text-before p (l.owned_row_predicate a) _ _
        (fixed_from _ ps (closed_piece p (l.owned_row_predicate a) ps h (e.owned_row_closed p a)))
  fixed_from p (quoted s ∷ ps) h =
      let n = and_left (is_settled p) _ h in
      code_text-append p (piece_text l (quoted s)) (sql_text l ps)
      ∙ ap (λ q. code_text p (piece_text l (quoted s)) ++ code_text q (sql_text l ps))
          (quoted_place p n s)
      ∙ ap (λ t. t ++ code_text at_quote (sql_text l ps))
          (quoted_code p n s ∙ sym (quoted_code p n ""))
      ∙ ap (λ t. code_text p (piece_text l (quoted "")) ++ t)
          (fixed_from at_quote ps (and_right (is_settled p) _ h))
      ∙ ap (λ q. code_text p (piece_text l (quoted "")) ++ code_text q (sql_text l (emptied ps)))
          (sym (quoted_place p n ""))
      ∙ sym (code_text-append p (piece_text l (quoted "")) (sql_text l (emptied ps)))

  -- A text whose values stand between quotes and whose other parts leave no literal open is read as
  -- the same code whatever the values are.
  pub is_placed-IsFixed : (ps : Sql F) → is_placed in_code ps ≡ true → IsFixed l ps
  is_placed-IsFixed ps h = fixed_from in_code ps h
