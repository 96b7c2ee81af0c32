-- ===== src/Query/ServiceMap/External/Merge.antt =====
-- What the map `merge` of `appendExternalDependencyEdges` counts.
use opa_hub.Prelude.{
  ℕ, ◌+◌, String, false, ◌≡◌, sym, Option, none, some, List, [], ◌∷◌, ◌⊎◌, inl, inr, ◌==◌, ◌&&◌,
  not, eq_iff, arith, Bool-cases, if◌then◌else◌,
}
use opa_hub.Prelude.Assoc.{Distinct, lookup, insert, lookup-insert, Distinct-insert}
use opa_hub.Query.Db.{Row}
use opa_hub.Query.Intervals.{invalid_service_name}
use opa_hub.Query.ServiceMap.{Arith}
use opa_hub.Query.ServiceMap.External.{
  Dep, wrapped, dep_key, is_refused, db_dep, http_dep, redis_dep, cache_dep, met, add, add_some,
  add_rows, gather, merged,
}

wrapped_add : (x y z : ℕ) → wrapped x ≡ wrapped y → wrapped (x + z) ≡ wrapped (y + z)
wrapped_add x y z h = omega arith

four_sum :
    (x1 x2 x3 x4 s1 s2 s3 s4 : ℕ)
    → wrapped x1 ≡ wrapped (0 + s1)
    → wrapped x2 ≡ wrapped (x1 + s2)
    → wrapped x3 ≡ wrapped (x2 + s3)
    → wrapped x4 ≡ wrapped (x3 + s4)
    → wrapped x4 ≡ wrapped (s1 + (s2 + (s3 + s4)))
four_sum x1 x2 x3 x4 s1 s2 s3 s4 h1 h2 h3 h4 = omega arith

split_sum :
    (x y m s t : ℕ)
    → wrapped x ≡ wrapped (y + t)
    → wrapped y ≡ wrapped (m + s)
    → wrapped x ≡ wrapped (m + (s + t))
split_sum x y m s t h k = omega arith

module _ {F : Type 0} where
  -- the calls that a map has for a key
  abbrev calls_in : Option (Dep F) → ℕ
  calls_in none = 0
  calls_in (some d) = d.calls

  unfoldable pub calls_at : String → List (String × Dep F) → ℕ
  unfolding lookup
  calls_at key merge = calls_in (lookup key merge)

  -- the calls of a row that count for a key
  abbrev counted : String → Option (Dep F) → ℕ
  counted key none = 0
  counted key (some d) = if not (is_refused d) && dep_key d == key then d.calls else 0

  -- the calls of an answer that count for a key
  abbrev pub seen : (Row F → Option (Dep F)) → String → String ⊎ List (Row F) → ℕ
  seen read key (inl e) = 0
  seen read key (inr []) = 0
  seen read key (inr (row ∷ rows)) = counted key (read row) + seen read key (inr rows)

module _ {F : Type 0} (a : Arith F) where
  calls_in-met :
      (d : Dep F) (o : Option (Dep F))
      → wrapped (calls_in (some (met a d o))) ≡ wrapped (calls_in o + d.calls)
  calls_in-met d none = omega arith
  calls_in-met d (some cur) = omega arith

  calls_at-add :
      (key : String) (d : Dep F) (merge : List (String × Dep F))
      → wrapped (calls_at key (add a d merge)) ≡ wrapped (calls_at key merge + counted key (some d))
  unfolding add calls_at
  calls_at-add key d merge = elim (Bool-cases (is_refused d)) [
    | inl r ↦ rw r (omega arith)
    | inr k ↦ elim (Bool-cases (dep_key d == key)) [
      | inl e ↦
          let same : dep_key d ≡ key = ground (arith, eq_iff (dep_key d) key) in
          rw (k, lookup-insert (dep_key d) key (met a d (lookup (dep_key d) merge)) merge, e)
            (rw (sym same) (calls_in-met d (lookup (dep_key d) merge)))
      | inr n ↦
          rw (k, lookup-insert (dep_key d) key (met a d (lookup (dep_key d) merge)) merge, n)
            (omega arith)
    ]
  ]

  calls_at-add_some :
      (key : String) (o : Option (Dep F)) (merge : List (String × Dep F))
      → wrapped (calls_at key (add_some a o merge)) ≡ wrapped (calls_at key merge + counted key o)
  calls_at-add_some key none merge = omega arith
  calls_at-add_some key (some d) merge = calls_at-add key d merge

  calls_at-gather :
      (read : Row F → Option (Dep F)) (key : String) (r : String ⊎ List (Row F))
      (merge : List (String × Dep F))
      → wrapped (calls_at key (gather a read r merge))
        ≡ wrapped (calls_at key merge + seen read key r)
  unfolding gather add_rows
  calls_at-gather read key (inl e) merge = omega arith
  calls_at-gather read key (inr []) merge = omega arith
  calls_at-gather read key (inr (row ∷ rows)) merge =
      let first = calls_at-add_some key (read row) merge in
      let later = calls_at-gather read key (inr rows) (add_some a (read row) merge) in
      split_sum _ _ (calls_at key merge) (counted key (read row)) (seen read key (inr rows)) later
        first

  Distinct-add_some :
      (o : Option (Dep F)) (merge : List (String × Dep F))
      → Distinct merge
      → Distinct (add_some a o merge)
  unfolding add
  Distinct-add_some none merge h = h
  Distinct-add_some (some d) merge h = elim (Bool-cases (is_refused d)) [
    | inl r ↦ rw r h
    | inr k ↦ rw k (Distinct-insert (dep_key d) (met a d (lookup (dep_key d) merge)) merge h)
  ]

  Distinct-gather :
      (read : Row F → Option (Dep F)) (r : String ⊎ List (Row F)) (merge : List (String × Dep F))
      → Distinct merge
      → Distinct (gather a read r merge)
  unfolding gather add_rows add
  Distinct-gather read (inl e) merge h = h
  Distinct-gather read (inr []) merge h = h
  Distinct-gather read (inr (row ∷ rows)) merge h =
      Distinct-gather read (inr rows) _ (Distinct-add_some (read row) merge h)

  -- The calls that leave the services are neither lost nor counted twice: a key has one entry, and its
  -- calls are, modulo 2^64, those of all the rows of the four reads that have the key, names that the
  -- code does not pass over and at least one call; a read that fails adds none.
  pub merged-calls_at :
      (sql http redis cache : String ⊎ List (Row F))
      → Distinct (merged a sql http redis cache)
        × ((key : String)
            → wrapped (calls_at key (merged a sql http redis cache))
              ≡ wrapped (
                  seen db_dep key sql
                  + (seen http_dep key http
                      + (seen redis_dep key redis + seen cache_dep key cache))))
  unfolding merged calls_at
  merged-calls_at sql http redis cache =
      let m1 = gather a db_dep sql [] in
      let m2 = gather a http_dep http m1 in
      let m3 = gather a redis_dep redis m2 in
      (
        Distinct-gather cache_dep cache m3 (
            Distinct-gather redis_dep redis m2
              (Distinct-gather http_dep http m1 (Distinct-gather db_dep sql [] tt))),
        λ key.
            let k1 = calls_at-gather db_dep key sql [] in
            let k2 = calls_at-gather http_dep key http m1 in
            let k3 = calls_at-gather redis_dep key redis m2 in
            let k4 = calls_at-gather cache_dep key cache m3 in four_sum _ _ _ _ _ _ _ _ k1 k2 k3 k4,
      )

  -- the ends of an edge to a target are names that the code does not pass over
  abbrev pub IsNamed : Dep F → Type 0
  IsNamed d = (invalid_service_name d.from ≡ false) × (invalid_service_name d.target ≡ false)

  abbrev pub AllNamed : List (String × Dep F) → Type 0
  AllNamed [] = Unit
  AllNamed ((key, d) ∷ merge) = IsNamed d × AllNamed merge

  AllNamed-insert :
      (key : String) (d : Dep F) (merge : List (String × Dep F))
      → IsNamed d
      → AllNamed merge
      → AllNamed (insert key d merge)
  unfolding insert
  AllNamed-insert key d [] n h = (n, tt)
  AllNamed-insert key d ((name, old) ∷ merge) n (k, h) = elim (Bool-cases (name == key)) [
    | inl e ↦ rw e (n, h)
    | inr o ↦ rw o (k, AllNamed-insert key d merge n h)
  ]

  IsNamed-met :
      (key : String) (d : Dep F) (merge : List (String × Dep F))
      → IsNamed d
      → AllNamed merge
      → IsNamed (met a d (lookup key merge))
  unfolding lookup
  IsNamed-met key d [] n h = n
  IsNamed-met key d ((name, old) ∷ merge) n (k, h) = elim (Bool-cases (name == key)) [
    | inl e ↦ rw e k
    | inr o ↦ rw o (IsNamed-met key d merge n h)
  ]

  AllNamed-add_some :
      (o : Option (Dep F)) (merge : List (String × Dep F))
      → AllNamed merge
      → AllNamed (add_some a o merge)
  unfolding add
  AllNamed-add_some none merge h = h
  AllNamed-add_some (some d) merge h = elim (Bool-cases (is_refused d)) [
    | inl r ↦ rw r h
    | inr k ↦
        let named : IsNamed d = ground arith in
        rw k (AllNamed-insert (dep_key d) _ merge (IsNamed-met (dep_key d) d merge named h) h)
  ]

  AllNamed-gather :
      (read : Row F → Option (Dep F)) (r : String ⊎ List (Row F)) (merge : List (String × Dep F))
      → AllNamed merge
      → AllNamed (gather a read r merge)
  unfolding gather add_rows
  AllNamed-gather read (inl e) merge h = h
  AllNamed-gather read (inr []) merge h = h
  AllNamed-gather read (inr (row ∷ rows)) merge h =
      AllNamed-gather read (inr rows) _ (AllNamed-add_some (read row) merge h)

  pub merged-AllNamed :
      (sql http redis cache : String ⊎ List (Row F)) → AllNamed (merged a sql http redis cache)
  unfolding merged
  merged-AllNamed sql http redis cache = AllNamed-gather cache_dep cache _ (
      AllNamed-gather redis_dep redis _
        (AllNamed-gather http_dep http _ (AllNamed-gather db_dep sql [] tt)))
