-- ===== src/Sort/Stable.antt =====
-- `sort.SliceStable(out, func(i, j) bool { return less(out[i], out[j]) })`, whose result is determined by
-- the order: items that neither precedes the other keep their places.
use opa_hub.Prelude.{
  Bool, true, false, ◌≡◌, refl, ap, ◌∙◌, inl, inr, List, [], ◌∷◌, All, filter, Bool-cases, arith,
  if◌then◌else◌,
}

-- a `less` that sorts: what is not before stays not before
pub record IsOrder {A : Type 0} (less : A → A → Bool) : Type 0 where
  pub asym : (x y : A) → less x y ≡ true → less y x ≡ false
  pub chain : (x y z : A) → less y x ≡ false → less z y ≡ false → less z x ≡ false

module _ {A : Type 0} (less : A → A → Bool) where
  unfoldable pub stable_insert : A → List A → List A
  stable_insert x [] = x ∷ []
  stable_insert x (y ∷ ys) =
      let rest = stable_insert x ys in if less y x then y ∷ rest else x ∷ y ∷ ys

  unfoldable pub stable_sort : List A → List A
  unfolding stable_insert
  stable_sort [] = []
  stable_sort (x ∷ xs) = stable_insert x (stable_sort xs)

  -- no item stands behind one that it precedes
  abbrev pub IsInOrder : List A → Type 0
  IsInOrder [] = Unit {0}
  IsInOrder (x ∷ xs) = All (λ z. less z x ≡ false) xs × IsInOrder xs

  module _ (o : IsOrder less) where
    after_insert :
        (w x : A) (ys : List A)
        → less x w ≡ false
        → All (λ z. less z w ≡ false) ys
        → All (λ z. less z w ≡ false) (stable_insert x ys)
    unfolding stable_insert
    after_insert w x [] h k = (h, tt)
    after_insert w x (y ∷ ys) h (k, ks) = elim (Bool-cases (less y x)) [
      | inl b ↦ rw b (k, after_insert w x ys h ks)
      | inr b ↦ rw b (h, (k, ks))
    ]

    later_ones :
        (x y : A) (ys : List A)
        → less y x ≡ false
        → All (λ z. less z y ≡ false) ys
        → All (λ z. less z x ≡ false) ys
    later_ones x y [] h k = tt
    later_ones x y (z ∷ zs) h (k, ks) = (o.chain x y z h k, later_ones x y zs h ks)

    insert-IsInOrder : (x : A) (ys : List A) → IsInOrder ys → IsInOrder (stable_insert x ys)
    unfolding stable_insert
    insert-IsInOrder x [] s = (tt, tt)
    insert-IsInOrder x (y ∷ ys) (k, s) = elim (Bool-cases (less y x)) [
      | inl b ↦ rw b (after_insert y x ys (o.asym y x b) k, insert-IsInOrder x ys s)
      | inr b ↦ rw b ((b, later_ones x y ys b k), (k, s))
    ]

    pub stable_sort-IsInOrder : (xs : List A) → IsInOrder (stable_sort xs)
    unfolding stable_sort
    stable_sort-IsInOrder [] = tt
    stable_sort-IsInOrder (x ∷ xs) = insert-IsInOrder x (stable_sort xs) (stable_sort-IsInOrder xs)

  module _ (p : A → Bool) (tied : (x y : A) → p x ≡ true → p y ≡ true → less y x ≡ false) where
    -- a swap with an item of another kind
    swapped :
        (x y : A) (ys : List A) → less y x ≡ true → filter p (y ∷ x ∷ ys) ≡ filter p (x ∷ y ∷ ys)
    swapped x y ys b = ground (arith, tied x y)

    filter-insert : (x : A) (ys : List A) → filter p (stable_insert x ys) ≡ filter p (x ∷ ys)
    unfolding stable_insert
    filter-insert x [] = refl
    filter-insert x (y ∷ ys) = elim (Bool-cases (less y x)) [
      | inl b ↦
          rw b (ap (λ rest. if p y then y ∷ rest else rest) (filter-insert x ys) ∙ swapped x y ys b)
      | inr b ↦ rw b refl
    ]

    -- items that are tied keep their order, and none is lost or added
    pub filter-stable_sort : (xs : List A) → filter p (stable_sort xs) ≡ filter p xs
    unfolding stable_sort
    filter-stable_sort [] = refl
    filter-stable_sort (x ∷ xs) =
        filter-insert x (stable_sort xs)
        ∙ ap (λ rest. if p x then x ∷ rest else rest) (filter-stable_sort xs)
