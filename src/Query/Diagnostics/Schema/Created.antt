-- ===== src/Query/Diagnostics/Schema/Created.antt =====
-- The flag says that every table has been created.
use opa_hub.Prelude.{Bool, true, ◌≡◌, refl, List, [], ◌∷◌, ◌⊎◌, inl, inr}
use opa_hub.Query.Sql.{Sql}
use opa_hub.Query.Diagnostics.Schema.{
  release_markers, heap_snapshots, thread_samples, lock_contention, statement,
}

module _ {F : Type 0} where
  Sent : Sql F → List (Sql F) → Type 0
  Sent s [] = ⊥
  Sent s (x ∷ xs) = (x ≡ s) ⊎ Sent s xs

  -- ClickHouse has accepted the statement of every table
  unfoldable pub IsCreated : List (Sql F) → Type 0
  unfolding Sent
  IsCreated t =
      Sent (statement release_markers) t
      × Sent (statement heap_snapshots) t
      × Sent (statement thread_samples) t
      × Sent (statement lock_contention) t

  pub IsCreated-later : (s : Sql F) (t : List (Sql F)) → IsCreated t → IsCreated (s ∷ t)
  unfolding IsCreated Sent
  IsCreated-later s t (a, b, c, d) = (inr a, inr b, inr c, inr d)

  -- the flag is set only where it was set before or the tables have been created
  abbrev pub IsHonest : {A : Type 0} → Bool → List (Sql F) → Bool × A → Type 0
  IsHonest ready t (now, a) = now ≡ true → (ready ≡ true) ⊎ IsCreated t

  pub IsHonest-later :
      (ready now : Bool) (s : Sql F) (t : List (Sql F))
      → (now ≡ true → (ready ≡ true) ⊎ IsCreated t)
      → now ≡ true
      → (ready ≡ true) ⊎ IsCreated (s ∷ t)
  IsHonest-later ready now s t h e = elim (h e) [
    | inl r ↦ inl r
    | inr c ↦ inr (IsCreated-later s t c)
  ]

module _ (F : Type 0) where
  pub IsCreated-all : IsCreated {F = F} (
      statement lock_contention
      ∷ statement thread_samples
      ∷ statement heap_snapshots
      ∷ statement release_markers
      ∷ [])
  unfolding IsCreated Sent
  IsCreated-all = (inr (inr (inr (inl refl))), inr (inr (inl refl)), inr (inl refl), inl refl)
