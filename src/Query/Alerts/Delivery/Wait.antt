-- ===== src/Query/Alerts/Delivery/Wait.antt =====
-- The wait for the delivery of a test ends, and its statements keep their values out of the code.
use Prim.Native.String.{◌++◌}
use opa_hub.Prelude.{
  ℕ, zero, suc, ◌+◌, ◌*◌, ◌≤◌, String, true, ◌≡◌, refl, Option, none, some, List, [], ◌∷◌, ◌⊎◌, inl,
  inr, ltb, arith,
}
use opa_hub.Query.Numbers.{decimal}
use opa_hub.Query.Sql.{ScopeLib, raw, Sql}
use opa_hub.Query.Sql.Literals.{Escapes, place_after}
use opa_hub.Query.Sql.Spelled.{IsSpelled, is_kept, is_kept-IsSpelled}
use opa_hub.Query.Alerts.Handler.Words.{alert_words}
use opa_hub.Query.Db.{Row, Db, Every, Every-if, Results, Results-if}
use opa_hub.Query.Alerts.{Alert}
use opa_hub.Query.Alerts.Delivery.{
  Delivery, delivered, queued, unfinished, alert_test_requests_ddl, millisecond, request_sql,
  requested, poll_sql, wait_from, wait_alert_test_delivery, queue_alert_test, polled, polls,
  timeout,
}

abbrev pub HasEnded : {F : Type 0} → Delivery F → Type 0
HasEnded (delivered row) = Unit
HasEnded queued = Unit
HasEnded unfinished = ⊥

module _ (F : Type 0) where
  request_placed :
      {J : Type 0} (a : Alert J) (req_id : String)
      → is_kept {F = F} alert_words (request_sql a req_id) ≡ true
  unfolding is_kept place_after
  request_placed a req_id = refl

  poll_placed : (id req_id : String) → is_kept {F = F} alert_words (poll_sql id req_id) ≡ true
  unfolding is_kept place_after
  poll_placed id req_id = refl

  ddl_placed : is_kept {F = F} alert_words (raw alert_test_requests_ddl ∷ []) ≡ true
  unfolding is_kept place_after
  ddl_placed = refl

  module _ (l : ScopeLib F) (e : Escapes l) where
    polled-IsSpelled :
        (r : String ⊎ List (Row F)) (again : Db F (Delivery F))
        → Every (IsSpelled l alert_words) again
        → Every (IsSpelled l alert_words) (polled r again)
    polled-IsSpelled (inl m) again h = h
    polled-IsSpelled (inr []) again h = h
    polled-IsSpelled (inr (row ∷ rows)) again h = tt

    wait_from-IsSpelled :
        (fuel k : ℕ) (clock : ℕ → ℕ) (deadline : ℕ) (sql : Sql F)
        → IsSpelled l alert_words sql
        → Every (IsSpelled l alert_words) (wait_from fuel k clock deadline sql)
    unfolding wait_from
    wait_from-IsSpelled zero k clock deadline sql h = tt
    wait_from-IsSpelled (suc fuel) k clock deadline sql h =
        let again = wait_from-IsSpelled fuel (suc k) clock deadline sql h in
        Every-if (IsSpelled l alert_words) (ltb (clock k) deadline) _ _
          (h, λ r. polled-IsSpelled r _ again) tt

    pub wait-IsSpelled :
        (start : ℕ) (clock : ℕ → ℕ) (limit : ℕ) (id req_id : String)
        → Every (IsSpelled l alert_words) (wait_alert_test_delivery start clock limit id req_id)
    unfolding wait_alert_test_delivery
    wait-IsSpelled start clock limit id req_id =
        wait_from-IsSpelled polls 0 clock (start + limit) (poll_sql id req_id)
          (is_kept-IsSpelled l e alert_words (poll_sql id req_id) (poll_placed id req_id))

    requested-IsSpelled :
        {J : Type 0} (a : Alert J) (req_id : String) (r : Option String)
        → Every (IsSpelled l alert_words) (requested a req_id r)
    unfolding requested
    requested-IsSpelled a req_id none = (
      is_kept-IsSpelled l e alert_words (request_sql a req_id) (request_placed a req_id),
      λ r. tt,
    )
    requested-IsSpelled a req_id (some m) = tt

    pub queue_alert_test-IsSpelled :
        {J : Type 0} (now : ℕ) (a : Alert J)
        → Every (IsSpelled l alert_words) (queue_alert_test now a)
    unfolding queue_alert_test
    queue_alert_test-IsSpelled now a = (
      is_kept-IsSpelled l e alert_words (raw alert_test_requests_ddl ∷ []) ddl_placed,
      requested-IsSpelled a ("test-" ++ decimal now),
    )

  polled-HasEnded :
      (r : String ⊎ List (Row F)) (again : Db F (Delivery F))
      → Results HasEnded again
      → Results HasEnded (polled r again)
  polled-HasEnded (inl m) again h = h
  polled-HasEnded (inr []) again h = h
  polled-HasEnded (inr (row ∷ rows)) again h = tt

  -- every turn sleeps 400 ms: fuel for the turns that are left before the deadline is enough
  wait_from-HasEnded :
      (fuel k : ℕ) (clock : ℕ → ℕ) (deadline : ℕ) (sql : Sql F)
      → ((i : ℕ) → clock i + 400 * millisecond ≤ clock (suc i))
      → deadline ≤ clock k + fuel * (400 * millisecond)
      → Results HasEnded (wait_from (suc fuel) k clock deadline sql)
  unfolding wait_from
  wait_from-HasEnded zero k clock deadline sql sleeps enough = ground arith
  wait_from-HasEnded (suc fuel) k clock deadline sql sleeps enough =
      let again =
        wait_from-HasEnded fuel (suc k) clock deadline sql sleeps
          (let s = sleeps k in omega arith) in
      Results-if HasEnded (ltb (clock k) deadline) _ _ (λ r. polled-HasEnded r _ again) tt

  -- The wait for the delivery of a test ends: on a clock that a sleep of 400 ms advances by as much,
  -- the 31 turns of the model are enough for the 12 seconds of the source, whatever ClickHouse answers.
  pub wait-HasEnded :
      (start : ℕ) (clock : ℕ → ℕ) (id req_id : String)
      → start ≤ clock 0
      → ((i : ℕ) → clock i + 400 * millisecond ≤ clock (suc i))
      → Results HasEnded (wait_alert_test_delivery {F = F} start clock timeout id req_id)
  unfolding wait_alert_test_delivery
  wait-HasEnded start clock id req_id begun sleeps =
      wait_from-HasEnded 30 0 clock (start + timeout) (poll_sql id req_id) sleeps (omega arith)
