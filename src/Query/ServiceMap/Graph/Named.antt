-- ===== src/Query/ServiceMap/Graph/Named.antt =====
-- The sets of names that the loops of `ServeServiceMap` build: a name stays in them, and the ends of the
-- edges are in them.
use opa_hub.Prelude.{
  String, Bool, true, false, ◌≡◌, Option, none, some, List, [], ◌∷◌, ◌++◌, ◌⊎◌, inl, inr, All, ◌==◌,
  ◌&&◌, ◌||◌, eq_iff, arith, Bool-cases, if◌then◌else◌,
}
use opa_hub.Prelude.Assoc.{Distinct, lookup, lookup-insert, Distinct-insert}
use opa_hub.Query.Intervals.{invalid_service_name}
use opa_hub.Query.Db.{Row}
use opa_hub.Query.ServiceMap.{Arith, Thresholds, Edge}
use opa_hub.Query.ServiceMap.External.{Dep, external_edge}
use opa_hub.Query.ServiceMap.Graph.{
  Names, mark, is_dropped, edge_names, dep_names, dep_targets, row_names, service_edges,
  external_edges,
}

abbrev pub is_set : Option Bool → Bool
is_set none = false
is_set (some b) = true

-- whether a name is in a set
unfoldable pub has : String → Names → Bool
unfolding lookup
has name names = is_set (lookup name names)

pub has-mark :
    (name other : String) (names : Names)
    → has name (mark other names) ≡ (other == name || has name names)
unfolding has
has-mark name other names = ground (arith, lookup-insert other name true names)

pub has-mark-kept :
    (name other : String) (names : Names)
    → has name names ≡ true
    → has name (mark other names) ≡ true
has-mark-kept name other names h = ground (arith, has-mark name other names)

pub has-mark-new : (name : String) (names : Names) → has name (mark name names) ≡ true
has-mark-new name names = ground (arith, has-mark name name names, eq_iff name name)

-- a loop that takes no name out of a set
abbrev pub Keeps : (Names → Names) → Type 0
Keeps f = (name : String) (names : Names) → has name names ≡ true → has name (f names) ≡ true

Keeps-if :
    (b : Bool) (name : String) (m n : Names)
    → has name m ≡ true
    → has name n ≡ true
    → has name (if b then m else n) ≡ true
Keeps-if true name m n h k = h
Keeps-if false name m n h k = k

pub and_left : (a b : Bool) → (a && b) ≡ true → a ≡ true
and_left a b h = ground arith

pub and_right : (a b : Bool) → (a && b) ≡ true → b ≡ true
and_right a b h = ground arith

pub neither : (a b : Bool) → (a || b) ≡ false → (a ≡ false) × (b ≡ false)
neither a b h = ground arith

Distinct-if : (b : Bool) (m n : Names) → Distinct m → Distinct n → Distinct (if b then m else n)
Distinct-if true m n h k = h
Distinct-if false m n h k = k

pub both : (a b : Bool) → a ≡ true → b ≡ true → (a && b) ≡ true
both a b h k = ground arith

pub All-append :
    {A : Type 0} (P : A → Type 0) (xs ys : List A) → All P xs → All P ys → All P (xs ++ ys)
All-append P [] ys h k = k
All-append P (x ∷ xs) ys (h, hs) k = (h, All-append P xs ys hs k)

pub All-map :
    {A : Type 0} (P Q : A → Type 0) → ((x : A) → P x → Q x) → (xs : List A) → All P xs → All Q xs
All-map P Q f [] h = tt
All-map P Q f (x ∷ xs) (h, hs) = (f x h, All-map P Q f xs hs)

module _ {F : Type 0} where
  pub edge_names-Keeps : (rows : List (Row F)) → Keeps (edge_names rows)
  unfolding edge_names
  edge_names-Keeps [] name names h = h
  edge_names-Keeps (row ∷ rows) name names h =
      edge_names-Keeps rows name _
        (Keeps-if (is_dropped row) name _ _ h (has-mark-kept name _ _ (has-mark-kept name _ _ h)))

  pub dep_names-Keeps : (merge : List (String × Dep F)) → Keeps (dep_names merge)
  unfolding dep_names
  dep_names-Keeps [] name names h = h
  dep_names-Keeps ((key, d) ∷ merge) name names h =
      dep_names-Keeps merge name _ (has-mark-kept name _ _ h)

  pub dep_targets-Keeps : (merge : List (String × Dep F)) → Keeps (dep_targets merge)
  unfolding dep_targets
  dep_targets-Keeps [] name names h = h
  dep_targets-Keeps ((key, d) ∷ merge) name names h =
      dep_targets-Keeps merge name _ (has-mark-kept name _ _ h)

  pub row_names-Keeps : (r : String ⊎ List (Row F)) → Keeps (row_names r)
  unfolding row_names
  row_names-Keeps (inl e) name names h = h
  row_names-Keeps (inr []) name names h = h
  row_names-Keeps (inr (row ∷ rows)) name names h =
      row_names-Keeps (inr rows) name _
        (Keeps-if (invalid_service_name (row.text "service")) name _ _ h (has-mark-kept name _ _ h))

  -- no loop enters a name twice
  pub edge_names-Distinct :
      (rows : List (Row F)) (names : Names) → Distinct names → Distinct (edge_names rows names)
  unfolding edge_names
  edge_names-Distinct [] names h = h
  edge_names-Distinct (row ∷ rows) names h = edge_names-Distinct rows _ (
      Distinct-if (is_dropped row) _ _ h (
        Distinct-insert (row.text "to_service") true _
          (Distinct-insert (row.text "from_service") true names h)))

  pub dep_names-Distinct :
      (merge : List (String × Dep F)) (names : Names)
      → Distinct names
      → Distinct (dep_names merge names)
  unfolding dep_names
  dep_names-Distinct [] names h = h
  dep_names-Distinct ((key, d) ∷ merge) names h =
      dep_names-Distinct merge _ (Distinct-insert d.from true names h)

  pub row_names-Distinct :
      (r : String ⊎ List (Row F)) (names : Names) → Distinct names → Distinct (row_names r names)
  unfolding row_names
  row_names-Distinct (inl e) names h = h
  row_names-Distinct (inr []) names h = h
  row_names-Distinct (inr (row ∷ rows)) names h = row_names-Distinct (inr rows) _ (
      Distinct-if (invalid_service_name (row.text "service")) _ _ h
        (Distinct-insert (row.text "service") true names h))

  -- whether both ends of an edge are in sets
  abbrev pub named : Names → Names → Edge F → Bool
  named sources targets e = has e.from sources && has e.to targets

module _ {F : Type 0} (a : Arith F) (t : Thresholds F) where
  pub service_edges-named :
      (rows : List (Row F)) (names : Names)
      → All
          (λ e. named (edge_names rows names) (edge_names rows names) e ≡ true)
          (service_edges a t rows)
  unfolding service_edges edge_names
  service_edges-named [] names = tt
  service_edges-named (row ∷ rows) names = elim (Bool-cases (is_dropped row)) [
    | inl d ↦ rw d (service_edges-named rows names)
    | inr k ↦ rw k (
      both _ _
          (edge_names-Keeps rows _ _
            (has-mark-kept _ _ _ (has-mark-new (row.text "from_service") names)))
          (edge_names-Keeps rows _ _ (has-mark-new (row.text "to_service") _)),
      service_edges-named rows _,
    )
  ]

  pub external_edges-named :
      (merge : List (String × Dep F)) (names targets : Names)
      → All
          (λ e. named (dep_names merge names) (dep_targets merge targets) e ≡ true)
          (external_edges a t merge)
  unfolding external_edges dep_names dep_targets external_edge
  external_edges-named [] names targets = tt
  external_edges-named ((key, d) ∷ merge) names targets = (
    both _ _ (dep_names-Keeps merge _ _ (has-mark-new d.from names))
        (dep_targets-Keeps merge _ _ (has-mark-new d.target targets)),
    external_edges-named merge _ _,
  )
