-- ===== src/Sort/Laws.antt =====
-- Sorting by keys that differ: the result ascends, finds what the input finds, and is the only
-- such list.
use opa_hub.Prelude.{
  suc, String, false, ◌≡◌, refl, ap, sym, ◌∙◌, Option, none, some, List, [], ◌∷◌, ◌==◌, eq_iff,
  arith, length, All, if◌then◌else◌, Bool-cases, inl, inr,
}
use opa_hub.Text.Order.{str_lt, str_lt_irrefl, str_lt_trans, str_lt_total}
use opa_hub.Sort.{insert_by, sort_by, find_by, IsSorted, Lt}

module _ {ℓ} {A : Type ℓ} (key : A → String) where
  pub length-insert_by : (x : A) (l : List A) → length (insert_by key x l) ≡ suc (length l)
  unfolding insert_by
  length-insert_by x [] = refl
  length-insert_by x (y ∷ ys) = ground (arith, length-insert_by x ys)

  pub length-sort_by : (l : List A) → length (sort_by key l) ≡ length l
  unfolding sort_by
  length-sort_by [] = refl
  length-sort_by (x ∷ xs) = ground (arith, length-insert_by x (sort_by key xs), length-sort_by xs)

  All-insert_by :
      (s : String) (x : A) (l : List A)
      → Lt s (key x)
      → All (λ y. Lt s (key y)) l
      → All (λ y. Lt s (key y)) (insert_by key x l)
  unfolding insert_by
  All-insert_by s x [] h a = (h, tt)
  All-insert_by s x (y ∷ ys) h (p, a) = ground (arith, All-insert_by s x ys h a)

  All-trans :
      (s t : String) (l : List A) → Lt s t → All (λ y. Lt t (key y)) l → All (λ y. Lt s (key y)) l
  All-trans s t [] h a = tt
  All-trans s t (y ∷ ys) h (p, a) = (str_lt_trans s t (key y) h p, All-trans s t ys h a)

  pub find_by-of_All :
      (s : String) (l : List A) → All (λ y. Lt s (key y)) l → find_by key s l ≡ none
  unfolding find_by
  find_by-of_All s [] a = refl
  find_by-of_All s (y ∷ ys) (p, a) =
      ground (arith, eq_iff (key y) s, str_lt_irrefl s, find_by-of_All s ys a)

  insert_by-IsSorted :
      (x : A) (l : List A)
      → IsSorted key l
      → find_by key (key x) l ≡ none
      → IsSorted key (insert_by key x l)
  unfolding insert_by find_by
  insert_by-IsSorted x [] s f = (tt, tt)
  insert_by-IsSorted x (y ∷ ys) (a, s) f = elim (Bool-cases (str_lt (key y) (key x))) [
    | inl below ↦ rw below (
      All-insert_by (key y) x ys below a,
      insert_by-IsSorted x ys s (ground (arith, eq_iff (key y) (key x))),
    )
    | inr above ↦
        let lt : Lt (key x) (key y) =
          ground (arith, str_lt_total (key y) (key x), eq_iff (key y) (key x)) in
        rw above ((lt, All-trans (key x) (key y) ys lt a), (a, s))
  ]

  pub find_by-insert_by :
      (k : String) (x : A) (l : List A)
      → find_by key (key x) l ≡ none
      → find_by key k (insert_by key x l) ≡ (if key x == k then some x else find_by key k l)
  unfolding insert_by find_by
  find_by-insert_by k x [] f = refl
  find_by-insert_by k x (y ∷ ys) f =
      ground (
        arith,
        eq_iff (key y) k,
        eq_iff (key x) k,
        eq_iff (key y) (key x),
        find_by-insert_by k x ys,
      )

  -- What a list must have for its sort to be determined: no key twice.
  abbrev pub DistinctBy : List A → Type ℓ
  DistinctBy [] = Unit
  DistinctBy (x ∷ xs) = (find_by key (key x) xs ≡ none) × DistinctBy xs

  pub find_by-sort_by :
      (k : String) (l : List A) → DistinctBy l → find_by key k (sort_by key l) ≡ find_by key k l
  unfolding sort_by find_by
  find_by-sort_by k [] d = refl
  find_by-sort_by k (x ∷ xs) (f, d) =
      find_by-insert_by k x (sort_by key xs) (find_by-sort_by (key x) xs d ∙ f)
      ∙ ap (λ (o : Option A). if key x == k then some x else o) (find_by-sort_by k xs d)

  pub sort_by-IsSorted : (l : List A) → DistinctBy l → IsSorted key (sort_by key l)
  unfolding sort_by
  sort_by-IsSorted [] d = tt
  sort_by-IsSorted (x ∷ xs) (f, d) =
      insert_by-IsSorted x (sort_by key xs) (sort_by-IsSorted xs d)
        (find_by-sort_by (key x) xs d ∙ f)

  Lt-of_find_by :
      (s k : String) (l : List A) (x : A)
      → All (λ y. Lt s (key y)) l
      → find_by key k l ≡ some x
      → Lt s (key x)
  unfolding find_by
  Lt-of_find_by s k [] x a f = absurd (cc)
  Lt-of_find_by s k (y ∷ ys) x (p, a) f = elim (Bool-cases (key y == k)) [
    | inl same ↦ let e : y ≡ x = ground arith in rw (← e) p
    | inr other ↦ Lt-of_find_by s k ys x a (ground arith)
  ]

  -- The heads of two ascending lists that find the same items.
  sorted_heads :
      (x y : A) (xs ys : List A)
      → All (λ z. Lt (key x) (key z)) xs
      → All (λ z. Lt (key y) (key z)) ys
      → find_by key (key x) (x ∷ xs) ≡ find_by key (key x) (y ∷ ys)
      → find_by key (key y) (x ∷ xs) ≡ find_by key (key y) (y ∷ ys)
      → x ≡ y
  unfolding find_by
  sorted_heads x y xs ys a b at_x at_y = elim (Bool-cases (key y == key x)) [
    | inl same ↦ ground (arith, eq_iff (key x) (key x))
    | inr other ↦
        let below : Lt (key y) (key x) =
          Lt-of_find_by (key y) (key x) ys x b (ground (arith, eq_iff (key x) (key x))) in
        let above : Lt (key x) (key y) = Lt-of_find_by (key x) (key y) xs y a (
          ground (arith, eq_iff (key y) (key y), eq_iff (key x) (key y), eq_iff (key y) (key x))) in
        absurd
          (ground (arith, str_lt_irrefl (key x), str_lt_trans (key x) (key y) (key x) above below))
  ]

  sorted_tails :
      (x y : A) (xs ys : List A) (k : String)
      → x ≡ y
      → All (λ z. Lt (key x) (key z)) xs
      → All (λ z. Lt (key y) (key z)) ys
      → find_by key k (x ∷ xs) ≡ find_by key k (y ∷ ys)
      → find_by key k xs ≡ find_by key k ys
  unfolding find_by
  sorted_tails x y xs ys k head a b at_k = elim (Bool-cases (key x == k)) [
    | inl same ↦
        let e : key x ≡ k = (eq_iff (key x) k).0 same in
        let f : key y ≡ k = ap key (sym head) ∙ e in
        find_by-of_All k xs (rw (← e) a) ∙ sym (find_by-of_All k ys (rw (← f) b))
    | inr other ↦ let far : (key y == k) ≡ false = rw (← head) other in ground arith
  ]

  -- Two ascending lists that find the same items are the same list.
  pub sorted_unique :
      (xs ys : List A)
      → IsSorted key xs
      → IsSorted key ys
      → ((k : String) → find_by key k xs ≡ find_by key k ys)
      → xs ≡ ys
  sorted_unique [] [] s t h = refl
  sorted_unique [] (y ∷ ys) s t h =
      absurd (unfold find_by in ground (arith, h (key y), eq_iff (key y) (key y)))
  sorted_unique (x ∷ xs) [] s t h =
      absurd (unfold find_by in ground (arith, h (key x), eq_iff (key x) (key x)))
  sorted_unique (x ∷ xs) (y ∷ ys) (a, s) (b, t) h =
      let head : x ≡ y = sorted_heads x y xs ys a b (h (key x)) (h (key y)) in
      let rest : xs ≡ ys = sorted_unique xs ys s t (λ k. sorted_tails x y xs ys k head a b (h k)) in
      λ i. head i ∷ rest i
