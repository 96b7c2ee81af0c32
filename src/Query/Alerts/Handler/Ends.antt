-- ===== src/Query/Alerts/Handler/Ends.antt =====
-- The test of a rule is answered.
use opa_hub.Prelude.{
  ℕ, suc, ◌+◌, ◌*◌, ◌≤◌, String, Bool, Option, none, some, List, [], ◌∷◌, ◌⊎◌, inl, inr, ◌==◌, ◌&&◌,
}
use opa_hub.Text.{trim_prefix, trim_slash}
use opa_hub.Text.Split.{split_slash}
use opa_hub.Http.{Request, Response, write_error, write_json}
use opa_hub.Query.Sql.{ScopeLib}
use opa_hub.Query.Db.{Row, Db, done, Results, Results-if, Results-any, Results->>=, ◌>>=◌}
use opa_hub.Query.Alerts.{Codec, Alert, get_alert, persist_alert}
use opa_hub.Query.Alerts.Delivery.{millisecond, timeout, queue_alert_test, wait_alert_test_delivery}
use opa_hub.Query.Alerts.Delivery.Wait.{HasEnded, wait-HasEnded}
use opa_hub.Query.Alerts.Handler.{
  Reply, alerts, alert, history, tested, no_content, told, saved, keeping_owner, resaved, replaced,
  found, recalled, waited, fired, by_method, at_parts, is_history, serve_alerts_subpath,
}

-- an answer that does not stand for a wait without an end
abbrev pub IsAnswer : {F J : Type 0} → Response (Reply F J) → Type 0
IsAnswer (write_error n code m) = Unit
IsAnswer (write_json n (alerts xs)) = Unit
IsAnswer (write_json n (alert a)) = Unit
IsAnswer (write_json n (history xs)) = Unit
IsAnswer (write_json n (tested d req_id id)) = HasEnded d
IsAnswer (write_json n no_content) = Unit

module _ {F J : Type 0} (c : Codec J) (l : ScopeLib F) where
  saved-IsAnswer : (a : Alert J) → Results IsAnswer (saved {F = F} c a)
  unfolding saved persist_alert
  saved-IsAnswer a none = tt
  saved-IsAnswer a (some e) = tt

  found-IsAnswer : (a : String ⊎ Option (Alert J)) → IsAnswer (found {F = F} c a)
  unfolding found
  found-IsAnswer (inl e) = tt
  found-IsAnswer (inr none) = tt
  found-IsAnswer (inr (some a)) = tt

  -- whatever `getAlert` answers
  got-IsAnswer :
      (id : String) (f : String ⊎ Option (Alert J) → Db F (Response (Reply F J)))
      → ((a : String ⊎ Option (Alert J)) → Results IsAnswer (f a))
      → Results IsAnswer (get_alert c id >>= f)
  unfolding get_alert
  got-IsAnswer id f h r = h _

  replaced-IsAnswer : (id : String) (b : Option (Alert J)) → Results IsAnswer (replaced c l id b)
  unfolding replaced resaved
  replaced-IsAnswer id none = tt
  replaced-IsAnswer id (some a) =
      got-IsAnswer id (resaved c l id a)
        (λ old. saved-IsAnswer (keeping_owner c l (record a { id = id }) old))

  told-IsAnswer : (r : Option String) → IsAnswer (told {F = F} c 204 no_content r)
  told-IsAnswer none = tt
  told-IsAnswer (some e) = tt

  recalled-IsAnswer : (r : String ⊎ List (Row F)) → IsAnswer (recalled c r)
  unfolding recalled
  recalled-IsAnswer (inl e) = tt
  recalled-IsAnswer (inr rows) = tt

  queued-Results :
      {A : Type 0} (P : A → Type 0) (now : ℕ) (a : Alert J) (f : String ⊎ String → Db F A)
      → ((r : String ⊎ String) → Results P (f r))
      → Results P (queue_alert_test now a >>= f)
  queued-Results P now a f h =
      Results->>= (λ r. Unit) P (queue_alert_test now a) f (Results-any (queue_alert_test now a))
        (λ r u. h r)

  module _ (start : ℕ) (clock : ℕ → ℕ) (begun : start ≤ clock 0)
      (sleeps : (i : ℕ) → clock i + 400 * millisecond ≤ clock (suc i)) where
    waited-IsAnswer :
        (id : String) (r : String ⊎ String) → Results IsAnswer (waited {F = F} c start clock id r)
    unfolding waited
    waited-IsAnswer id (inl e) = tt
    waited-IsAnswer id (inr req_id) =
        Results->>= HasEnded IsAnswer (wait_alert_test_delivery start clock timeout id req_id) _
          (wait-HasEnded F start clock id req_id begun sleeps) (λ d h. h)

    fired-IsAnswer :
        (now : ℕ) (id : String) (a : String ⊎ Option (Alert J))
        → Results IsAnswer (fired {F = F} c now start clock id a)
    unfolding fired
    fired-IsAnswer now id (inl e) = tt
    fired-IsAnswer now id (inr none) = tt
    fired-IsAnswer now id (inr (some a)) =
        queued-Results IsAnswer now a (waited c start clock id) (waited-IsAnswer id)

    by_method-IsAnswer :
        (now : ℕ) (id : String) (req : Request (Alert J))
        → Results IsAnswer (by_method c l now start clock id req)
    unfolding by_method
    by_method-IsAnswer now id req =
        Results-if IsAnswer (req.method == "GET") _ _
          (got-IsAnswer id (λ a. done (found {F = F} c a)) found-IsAnswer)
          (Results-if IsAnswer (req.method == "PUT") _ _ (replaced-IsAnswer id req.body) (
            Results-if IsAnswer (req.method == "DELETE") _ _ told-IsAnswer (
              Results-if IsAnswer (req.method == "POST") _ _
                (got-IsAnswer id (fired c now start clock id) (fired-IsAnswer now id)) tt)))

    at_parts-IsAnswer :
        (now : ℕ) (parts : List String) (req : Request (Alert J))
        → Results IsAnswer (at_parts c l now start clock parts req)
    unfolding at_parts
    at_parts-IsAnswer now [] req = tt
    at_parts-IsAnswer now (id ∷ rest) req = Results-if IsAnswer (id == "") _ _ tt (
        Results-if IsAnswer (req.method == "GET" && is_history rest) _ _ recalled-IsAnswer
          (by_method-IsAnswer now id req))

    -- `ServeAlertsSubpath` answers every request, whatever ClickHouse answers: on a clock that a sleep of
    -- 400 ms advances by as much, the wait for the delivery of a test does not run out of its 31 turns.
    pub serve_alerts_subpath-IsAnswer :
        (writer : Bool) (now : ℕ) (req : Request (Alert J))
        → Results IsAnswer (serve_alerts_subpath c writer l now start clock req)
    unfolding serve_alerts_subpath
    serve_alerts_subpath-IsAnswer writer now req =
        Results-if IsAnswer writer _ _
          (at_parts-IsAnswer now (split_slash (trim_slash (trim_prefix req.path "/api/alerts/")))
            req)
          tt
