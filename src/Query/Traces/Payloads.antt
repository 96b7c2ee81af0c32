-- ===== src/Query/Traces/Payloads.antt =====
-- What the payloads of a full answer write into the spans of a trace.
use opa_hub.Prelude.{
  String, Bool, true, false, ◌≡◌, refl, Option, none, some, List, [], ◌∷◌, ◌⊎◌, inl, inr, map,
  arith, All, any, is_empty, ap, ◌==◌, ◌∙◌, not, ◌&&◌, ◌||◌, eq_iff, Bool-cases, if◌then◌else◌,
}
use opa_hub.Prelude.Assoc.{lookup, insert, lookup-insert}
use opa_hub.Query.Db.{Row}
use opa_hub.Query.Traces.Handler.{
  Value, text, Span, as_string, span_of, by_id, payload_keys, full_row, written, enriched,
  with_payloads,
}

-- what the payload of a span may hold
abbrev pub payload_names : List String
payload_names =
    "tags" ∷ "http" ∷ "sql" ∷ "net" ∷ "cache" ∷ "redis" ∷ "stack" ∷ "dumps" ∷ "w3c_traceparent"
    ∷ "w3c_tracestate" ∷ []

not-true : (b : Bool) → not b ≡ true → b ≡ false
not-true b h = ground arith

and_left : (a b : Bool) → (a && b) ≡ true → a ≡ true
and_left a b h = ground arith

and_right : (a b : Bool) → (a && b) ≡ true → b ≡ true
and_right a b h = ground arith

-- all of the names are ones that a payload is written to
is_known : List String → Bool
is_known [] = true
is_known (name ∷ names) = any (λ k. k == name) payload_keys && is_known names

module _ {F : Type 0} where
  -- the last of the rows with a span's id
  abbrev pub latest : String → List (Row F) → Option (Row F) → Option (Row F)
  latest id [] last = last
  latest id (row ∷ rows) last = latest id rows (if row.text "span_id" == id then some row else last)

  -- a span has all the values of its row
  abbrev pub Keeps : Span F → Span F → Type 0
  Keeps base sp = All (λ (e : String × Value F). lookup e.0 sp ≡ some e.1) base

  -- a span has the texts of its payload that are not empty, and no other of these keys
  abbrev pub Adds : Option (Row F) → Span F → Type 0
  Adds none sp = All (λ (k : String). lookup k sp ≡ none) payload_names
  Adds (some full) sp =
      All
        (λ (k : String).
          lookup k sp ≡ (if full.text k == "" then none else some (text (full.text k))))
        payload_names

  -- the spans of rows, each with all the values of its row and those of its payload
  abbrev pub ShowsAll : List (Row F) → List (Row F) → List (Span F) → Type 0
  ShowsAll payloads [] [] = Unit {0}
  ShowsAll payloads [] (sp ∷ sps) = ⊥
  ShowsAll payloads (row ∷ rows) [] = ⊥
  ShowsAll payloads (row ∷ rows) (sp ∷ sps) =
      (Keeps (span_of row) sp × Adds (latest (row.text "span_id") payloads none) sp)
      × ShowsAll payloads rows sps

  lookup-by_id :
      (id : String) (rows : List (Row F)) (known : List (String × Row F))
      → lookup id (by_id rows known) ≡ latest id rows (lookup id known)
  unfolding by_id
  lookup-by_id id [] known = refl
  lookup-by_id id (row ∷ rows) known =
      lookup-by_id id rows (insert (row.text "span_id") row known)
      ∙ ap (latest id rows) (lookup-insert (row.text "span_id") id row known)

  lookup-if_insert :
      (b : Bool) (k name : String) (v : Value F) (sp : Span F)
      → lookup name (if b then sp else insert k v sp)
        ≡ (if b then lookup name sp else if k == name then some v else lookup name sp)
  lookup-if_insert true k name v sp = refl
  lookup-if_insert false k name v sp = lookup-insert k name v sp

  both_tests :
      (later b : Bool) (v o : Option (Value F))
      → (if later && not b then v else if b then o else v) ≡ (if not b then v else o)
  both_tests true true v o = refl
  both_tests true false v o = refl
  both_tests false true v o = refl
  both_tests false false v o = refl

  other_tests :
      (later b c : Bool) (v o : Option (Value F))
      → (if later && not b then v else if c then o else o) ≡ (if later && not b then v else o)
  other_tests later b true v o = refl
  other_tests later b false v o = refl

  joined_tests :
      (k name : String) (later : Bool) (row : Row F) (o : Option (Value F))
      → (if later && not (row.text name == "")
          then some (text (row.text name))
          else if row.text k == ""
          then o
          else if k == name
          then some (text (row.text k))
          else o)
        ≡ (if (k == name || later) && not (row.text name == "")
            then some (text (row.text name))
            else o)
  joined_tests k name later row o = elim (Bool-cases (k == name)) [
    | inl e ↦
        let p : k ≡ name = (eq_iff k name).0 e in
        rw (e, p) (both_tests later (row.text name == "") (some (text (row.text name))) o)
    | inr n ↦
        rw n (
          other_tests later (row.text name == "") (row.text k == "") (some (text (row.text name)))
            o)
  ]

  -- what the loop over the keys leaves under a name
  lookup-written :
      (name : String) (ks : List String) (row : Row F) (sp : Span F)
      → lookup name (written ks row sp) ≡ (
          if any (λ k. k == name) ks && not (row.text name == "")
          then some (text (row.text name))
          else lookup name sp)
  unfolding written
  lookup-written name [] row sp = refl
  lookup-written name (k ∷ ks) row sp =
      let next = if row.text k == "" then sp else insert k (text (row.text k)) sp in
      lookup-written name ks row next
      ∙ ap
          (λ o.
            if any (λ j. j == name) ks && not (row.text name == "")
            then some (text (row.text name))
            else o)
          (lookup-if_insert (row.text k == "") k name (text (row.text k)) sp)
      ∙ joined_tests k name (any (λ j. j == name) ks) row (lookup name sp)

  kept :
      (name : String) (full : Row F) (sp : Span F)
      → any (λ k. k == name) payload_keys ≡ false
      → lookup name (written payload_keys full sp) ≡ lookup name sp
  kept name full sp other = lookup-written name payload_keys full sp ∙ rw other refl

  flipped :
      (b : Bool) (o : Option (Value F))
      → (if true && not b then o else none) ≡ (if b then none else o)
  flipped true o = refl
  flipped false o = refl

  added :
      (name : String) (row full : Row F)
      → any (λ k. k == name) payload_keys ≡ true
      → lookup name (span_of row) ≡ none
      → lookup name (written payload_keys full (span_of row))
        ≡ (if full.text name == "" then none else some (text (full.text name)))
  added name row full known fresh =
      lookup-written name payload_keys full (span_of row)
      ∙ rw (known, fresh) (flipped (full.text name == "") (some (text (full.text name))))

  -- none of the names of a map is one that a payload is written to
  is_apart : Span F → Bool
  is_apart [] = true
  is_apart ((name, v) ∷ sp) = not (any (λ k. k == name) payload_keys) && is_apart sp

  written-Keeps :
      (base : Span F) (full : Row F) (sp : Span F)
      → is_apart base ≡ true
      → Keeps base sp
      → Keeps base (written payload_keys full sp)
  unfolding is_apart
  written-Keeps [] full sp h k = tt
  written-Keeps ((name, v) ∷ base) full sp h (k, ks) =
      let other = not-true _ (and_left _ (is_apart base) h) in
      (
        kept name full sp other ∙ k,
        written-Keeps base full sp (and_right (not (any (λ j. j == name) payload_keys)) _ h) ks,
      )

  written-added :
      (names : List String) (row full : Row F)
      → is_known names ≡ true
      → All (λ (k : String). lookup k (span_of row) ≡ none) names
      → All
          (λ (k : String).
            lookup k (written payload_keys full (span_of row))
            ≡ (if full.text k == "" then none else some (text (full.text k))))
          names
  unfolding is_known
  written-added [] row full h k = tt
  written-added (name ∷ names) row full h (k, ks) = (
    added name row full (and_left _ (is_known names) h) k,
    written-added names row full (and_right (any (λ j. j == name) payload_keys) _ h) ks,
  )

  span_of-Keeps : (row : Row F) → Keeps (span_of row) (span_of row)
  unfolding lookup
  span_of-Keeps row = ground arith

  no_payload : (row : Row F) → All (λ (k : String). lookup k (span_of row) ≡ none) payload_names
  unfolding lookup
  no_payload row = ground arith

  enriched-Keeps :
      (row : Row F) (o : Option (Row F)) → Keeps (span_of row) (enriched (span_of row) o)
  unfolding enriched is_apart
  enriched-Keeps row none = span_of-Keeps row
  enriched-Keeps row (some full) =
      written-Keeps (span_of row) full (span_of row) refl (span_of-Keeps row)

  enriched-Adds : (row : Row F) (o : Option (Row F)) → Adds o (enriched (span_of row) o)
  unfolding enriched is_known
  enriched-Adds row none = no_payload row
  enriched-Adds row (some full) = written-added payload_names row full refl (no_payload row)

  enriched_by :
      (row : Row F) (o p : Option (Row F))
      → p ≡ o
      → Keeps (span_of row) (enriched (span_of row) p) × Adds o (enriched (span_of row) p)
  enriched_by row o p e = rw e (enriched-Keeps row o, enriched-Adds row o)

  full_row-latest :
      (sprint : F → String) (payloads : List (Row F)) (row : Row F)
      → full_row sprint (by_id payloads []) (span_of row)
        ≡ latest (row.text "span_id") payloads none
  unfolding as_string lookup
  full_row-latest sprint payloads row = lookup-by_id (row.text "span_id") payloads []

  enriched_all :
      (sprint : F → String) (payloads rows : List (Row F))
      → ShowsAll payloads rows
          (map (λ sp. enriched sp (full_row sprint (by_id payloads []) sp)) (map span_of rows))
  enriched_all sprint payloads [] = tt
  enriched_all sprint payloads (row ∷ rows) = (
    enriched_by row (latest (row.text "span_id") payloads none) _
        (full_row-latest sprint payloads row),
    enriched_all sprint payloads rows,
  )

  pub plain_all : (rows : List (Row F)) → ShowsAll [] rows (map span_of rows)
  unfolding enriched
  plain_all [] = tt
  plain_all (row ∷ rows) = ((enriched-Keeps row none, enriched-Adds row none), plain_all rows)

  -- the rows of an answer, none where the read fails
  abbrev pub payload_rows : String ⊎ List (Row F) → List (Row F)
  payload_rows (inl e) = []
  payload_rows (inr rows) = rows

  pub with_payloads-ShowsAll :
      (sprint : F → String) (rows : List (Row F)) (r : String ⊎ List (Row F))
      → ShowsAll (payload_rows r) rows (with_payloads sprint (map span_of rows) r).0
  unfolding with_payloads
  with_payloads-ShowsAll sprint rows (inl e) = plain_all rows
  with_payloads-ShowsAll sprint rows (inr []) = plain_all rows
  with_payloads-ShowsAll sprint rows (inr (full ∷ fulls)) = enriched_all sprint (full ∷ fulls) rows

  pub with_payloads-full :
      (sprint : F → String) (spans : List (Span F)) (r : String ⊎ List (Row F))
      → (with_payloads sprint spans r).1 ≡ not (is_empty (payload_rows r))
  unfolding with_payloads
  with_payloads-full sprint spans (inl e) = refl
  with_payloads-full sprint spans (inr []) = refl
  with_payloads-full sprint spans (inr (full ∷ fulls)) = refl
