-- ===== src/Query/Diagnostics/Placed.antt =====
-- The values of the statements of the diagnostics stand in literals of their own.
use opa_hub.Prelude.{ℕ, String, Bool, true, false, ◌≡◌, refl, ◌∷◌, ◌==◌, ◌&&◌, arith, if◌then◌else◌}
use opa_hub.Query.Sql.{Sql, Place, in_code, at_quote, raw, quoted}
use opa_hub.Query.Sql.Literals.{is_placed, place_after}
use opa_hub.Query.Diagnostics.{
  Outside, Release, with_service, release_sql, releases_sql, snapshot_sql, snapshots_sql,
  threads_sql, locks_sql,
}
use opa_hub.Query.Diagnostics.Schema.{
  release_markers, heap_snapshots, thread_samples, lock_contention, statement,
}
use opa_hub.Query.Diagnostics.Suspects.{suspects_sql, share_sql}

module _ (F : Type 0) where
  pub release_placed :
      (o : Outside) (t : String × String) (b : Release)
      → is_placed {F = F} in_code (release_sql o t b) ≡ true
  unfolding is_placed place_after
  release_placed o t b = refl

  -- a condition on a service keeps the values in their places
  service_placed :
      (p : Place) (svc : String) (rest : Sql F)
      → is_placed p rest ≡ true
      → is_placed p (raw " AND service = " ∷ quoted svc ∷ rest) ≡ true
      → is_placed p (with_service svc rest) ≡ true
  service_placed p svc rest h k = placed_if (svc == "")
    where
      placed_if :
          (b : Bool)
          → is_placed p (if b then rest else raw " AND service = " ∷ quoted svc ∷ rest) ≡ true
      placed_if true = h
      placed_if false = k

  both : (a b : Bool) → a ≡ true → b ≡ true → (a && b) ≡ true
  both a b h k = ground arith

  pub snapshot_placed : (id : String) → is_placed {F = F} in_code (snapshot_sql id) ≡ true
  unfolding is_placed place_after
  snapshot_placed id = refl

  pub releases_placed : (svc : String) → is_placed {F = F} in_code (releases_sql svc) ≡ true
  unfolding is_placed place_after
  releases_placed svc =
      both _ _ (service_placed in_code svc _ refl refl) (service_placed at_quote svc _ refl refl)

  pub snapshots_placed : (svc : String) → is_placed {F = F} in_code (snapshots_sql svc) ≡ true
  unfolding is_placed place_after
  snapshots_placed svc =
      both _ _ (service_placed in_code svc _ refl refl) (service_placed at_quote svc _ refl refl)

  pub threads_placed : (svc : String) → is_placed {F = F} in_code (threads_sql svc) ≡ true
  unfolding is_placed place_after
  threads_placed svc =
      both _ _ (service_placed in_code svc _ refl refl) (service_placed at_quote svc _ refl refl)

  pub locks_placed : (svc : String) → is_placed {F = F} in_code (locks_sql svc) ≡ true
  unfolding is_placed place_after
  locks_placed svc =
      both _ _ (service_placed in_code svc _ refl refl) (service_placed at_quote svc _ refl refl)

  pub suspects_placed :
      (t : String × String) (hours : ℕ) (svc : String)
      → is_placed {F = F} in_code (suspects_sql t hours svc) ≡ true
  unfolding is_placed place_after
  suspects_placed t hours svc =
      both _ _ (service_placed in_code svc _ refl refl) (service_placed in_code svc _ refl refl)

  pub share_placed :
      (t : String × String) (svc : String) (after : Bool) (dep : String)
      → is_placed {F = F} in_code (share_sql t svc after dep) ≡ true
  unfolding is_placed place_after
  share_placed t svc true dep = service_placed at_quote svc _ refl refl
  share_placed t svc false dep = service_placed at_quote svc _ refl refl

  pub release_markers_placed : is_placed {F = F} in_code (statement release_markers) ≡ true
  unfolding is_placed place_after
  release_markers_placed = refl

  pub heap_snapshots_placed : is_placed {F = F} in_code (statement heap_snapshots) ≡ true
  unfolding is_placed place_after
  heap_snapshots_placed = refl

  pub thread_samples_placed : is_placed {F = F} in_code (statement thread_samples) ≡ true
  unfolding is_placed place_after
  thread_samples_placed = refl

  pub lock_contention_placed : is_placed {F = F} in_code (statement lock_contention) ≡ true
  unfolding is_placed place_after
  lock_contention_placed = refl
