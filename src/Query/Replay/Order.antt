-- ===== src/Query/Replay/Order.antt =====
-- The order of a timeline.
use opa_hub.Prelude.{
  ℕ, ◌+◌, ◌<◌, String, Bool, true, false, ◌≡◌, ◌⊎◌, inl, inr, refl, sym, ℤ, pos, negsuc, List, [],
  ◌∷◌, ◌&&◌, eqb, ltb, All, Bool-cases, filter, arith, if◌then◌else◌,
}
use opa_hub.Query.Db.{Row}
use opa_hub.Query.Replay.{
  Outside, ReplayEvent, up, down, int_eq, int_lt, earlier, events_of, timeline, answered,
}
use opa_hub.Sort.Stable.{stable_sort, IsOrder, IsInOrder, stable_sort-IsInOrder, filter-stable_sort}

-- by the first pair of numbers, then by the second, each a difference
abbrev lex : ℕ → ℕ → ℕ → ℕ → ℕ → ℕ → ℕ → ℕ → Bool
lex a b c d e f g h = if eqb (a + f) (e + b) then ltb (c + h) (g + d) else ltb (a + f) (e + b)

lex_asym : (a b c d e f g h : ℕ) → lex a b c d e f g h ≡ true → lex e f g h a b c d ≡ false
lex_asym a b c d e f g h k = ground arith

lex_chain :
    (a b c d e f g h i j k l : ℕ)
    → lex e f g h a b c d ≡ false
    → lex i j k l e f g h ≡ false
    → lex i j k l a b c d ≡ false
lex_chain a b c d e f g h i j k l p q = ground arith

-- the order of the integers, and their equality
abbrev pub IsBelow : ℤ → ℤ → Type 0
IsBelow (pos m) (pos n) = m < n
IsBelow (pos m) (negsuc n) = ⊥
IsBelow (negsuc m) (pos n) = Unit {0}
IsBelow (negsuc m) (negsuc n) = n < m

abbrev pub same : ℤ → ℤ → Bool
same (pos m) (pos n) = eqb m n
same (pos m) (negsuc n) = false
same (negsuc m) (pos n) = false
same (negsuc m) (negsuc n) = eqb m n

int_eq-true : (a b : ℤ) → int_eq a b ≡ true → a ≡ b
int_eq-true (pos m) (pos n) h = ground arith
int_eq-true (pos m) (negsuc n) h = ground arith
int_eq-true (negsuc m) (pos n) h = ground arith
int_eq-true (negsuc m) (negsuc n) h = ground arith

IsBelow-of_neither : (a b : ℤ) → int_eq a b ≡ false → int_lt a b ≡ false → IsBelow b a
IsBelow-of_neither (pos m) (pos n) h k = ground arith
IsBelow-of_neither (pos m) (negsuc n) h k = tt
IsBelow-of_neither (negsuc m) (pos n) h k = ground arith
IsBelow-of_neither (negsuc m) (negsuc n) h k = ground arith

IsBelow-or_equal : (a b : ℤ) → int_lt a b ≡ false → IsBelow b a ⊎ (b ≡ a)
IsBelow-or_equal a b k = elim (Bool-cases (int_eq a b)) [
  | inl e ↦ inr (sym (int_eq-true a b e))
  | inr n ↦ inl (IsBelow-of_neither a b n k)
]

same-true : (a b : ℤ) → same a b ≡ true → a ≡ b
same-true (pos m) (pos n) h = ground arith
same-true (pos m) (negsuc n) h = ground arith
same-true (negsuc m) (pos n) h = ground arith
same-true (negsuc m) (negsuc n) h = ground arith

itself : (a : ℤ) → (int_eq a a ≡ true) × (int_lt a a ≡ false)
itself (pos m) = ground arith
itself (negsuc m) = ground arith

tied : (a b t : ℤ) → same a t ≡ true → same b t ≡ true → (int_eq a b ≡ true) × (int_lt a b ≡ false)
tied a b t h k = rw (same-true a t h, same-true b t k) (itself t)

and_left : (a b : Bool) → (a && b) ≡ true → a ≡ true
and_left a b h = ground arith

and_right : (a b : Bool) → (a && b) ≡ true → b ≡ true
and_right a b h = ground arith

module _ {V F : Type 0} where
  earlier-IsOrder : IsOrder (earlier {V = V} {F = F})
  unfolding earlier
  earlier-IsOrder = record {
    asym = λ x y.
        lex_asym (up x.t) (down x.t) (up x.chunk) (down x.chunk) (up y.t) (down y.t) (up y.chunk)
          (down y.chunk);
    chain = λ x y z.
        lex_chain (up x.t) (down x.t) (up x.chunk) (down x.chunk) (up y.t) (down y.t) (up y.chunk)
          (down y.chunk) (up z.t) (down z.t) (up z.chunk) (down z.chunk);
  }

  -- whether an event is of a time and a chunk
  abbrev pub is_at : ℤ → ℤ → ReplayEvent V F → Bool
  is_at t chunk e = same e.t t && same e.chunk chunk

  -- an event that may stand before another: of an earlier time, or of the same time and a chunk that is
  -- not a later one
  abbrev pub MayPrecede : ReplayEvent V F → ReplayEvent V F → Type 0
  MayPrecede x z = IsBelow x.t z.t ⊎ ((x.t ≡ z.t) × (IsBelow x.chunk z.chunk ⊎ (x.chunk ≡ z.chunk)))

  -- every event may stand before all that are behind it
  abbrev pub IsChronological : List (ReplayEvent V F) → Type 0
  IsChronological [] = Unit {0}
  IsChronological (x ∷ xs) = All (MayPrecede x) xs × IsChronological xs

  not_earlier : (x z : ReplayEvent V F) → earlier z x ≡ false → MayPrecede x z
  unfolding earlier
  not_earlier x z h = elim (Bool-cases (int_eq z.t x.t)) [
    | inl e ↦
        let k : int_lt z.chunk x.chunk ≡ false = ground arith in
        inr (sym (int_eq-true z.t x.t e), IsBelow-or_equal z.chunk x.chunk k)
    | inr n ↦ let k : int_lt z.t x.t ≡ false = ground arith in inl (IsBelow-of_neither z.t x.t n k)
  ]

  All-later :
      (x : ReplayEvent V F) (xs : List (ReplayEvent V F))
      → All (λ z. earlier z x ≡ false) xs
      → All (MayPrecede x) xs
  All-later x [] h = tt
  All-later x (z ∷ zs) (h, k) = (not_earlier x z h, All-later x zs k)

  chronological : (xs : List (ReplayEvent V F)) → IsInOrder earlier xs → IsChronological xs
  chronological [] h = tt
  chronological (x ∷ xs) (h, k) = (All-later x xs h, chronological xs k)

  tied_at :
      (t chunk : ℤ) (x y : ReplayEvent V F)
      → is_at t chunk x ≡ true
      → is_at t chunk y ≡ true
      → earlier y x ≡ false
  unfolding earlier
  tied_at t chunk x y p q =
      let (e, n) = tied y.t x.t t (and_left _ _ q) (and_left _ _ p) in
      let (f, m) =
        tied y.chunk x.chunk chunk (and_right (same y.t t) _ q) (and_right (same x.t t) _ p) in
      rw (e, m) refl

  -- The timeline that is answered for rows shows every event once, in order: an event stands behind
  -- another only if it is of a later time, or of the same time and no earlier chunk, and the events of
  -- one time and one chunk are those of the rows, in the order in which the rows have them.
  pub answered-IsChronological :
      (o : Outside V F) (session_id : String) (rows : List (Row F))
      → IsChronological (answered o session_id (inr rows)).events
        × ((t chunk : ℤ)
            → filter (is_at t chunk) (answered o session_id (inr rows)).events
              ≡ filter (is_at t chunk) (events_of o rows))
  unfolding answered timeline
  answered-IsChronological o session_id rows = (
    chronological (stable_sort earlier (events_of o rows))
        (stable_sort-IsInOrder earlier earlier-IsOrder (events_of o rows)),
    λ t chunk. filter-stable_sort earlier (is_at t chunk) (tied_at t chunk) (events_of o rows),
  )
