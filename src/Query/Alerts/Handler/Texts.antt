-- ===== src/Query/Alerts/Handler/Texts.antt =====
-- The statements of the alert handlers keep the values of a request out of their code.
use Prim.Native.String.{◌++◌}
use opa_hub.Query.Numbers.{decimal}
use opa_hub.Prelude.{
  ℕ, String, Bool, true, ◌≡◌, refl, Option, none, some, List, [], ◌∷◌, ◌⊎◌, inl, inr, ◌==◌, ◌&&◌,
}
use opa_hub.Text.{trim_prefix, trim_slash}
use opa_hub.Text.Split.{split_slash}
use opa_hub.Http.{Request}
use opa_hub.Query.Sql.{ScopeLib}
use opa_hub.Query.Sql.Literals.{Escapes, place_after}
use opa_hub.Query.Sql.Spelled.{IsSpelled, is_kept, is_kept-IsSpelled}
use opa_hub.Query.Alerts.Handler.Words.{alert_words}
use opa_hub.Query.Db.{done, Every, Every->>=, Every-if}
use opa_hub.Query.Alerts.{Codec, Alert, get_sql, get_alert, persist_sql, persist_alert}
use opa_hub.Query.Alerts.Delivery.{timeout, queue_alert_test, wait_alert_test_delivery}
use opa_hub.Query.Alerts.Delivery.Wait.{wait-IsSpelled, queue_alert_test-IsSpelled}
use opa_hub.Query.Alerts.Handler.{
  list_sql, history_sql, delete_sql, saved, created, owned_by, with_id, keeping_owner, resaved,
  replaced, waited, fired, by_method, found, at_parts, serve_alerts, serve_alerts_subpath,
  is_history,
}

module _ (F : Type 0) where
  get_placed : (id : String) → is_kept {F = F} alert_words (get_sql id) ≡ true
  unfolding is_kept place_after
  get_placed id = refl

  list_placed : is_kept {F = F} alert_words list_sql ≡ true
  unfolding is_kept place_after
  list_placed = refl

  history_placed : (id : String) → is_kept {F = F} alert_words (history_sql id) ≡ true
  unfolding is_kept place_after
  history_placed id = refl

  delete_placed : (id : String) → is_kept {F = F} alert_words (delete_sql id) ≡ true
  unfolding is_kept place_after
  delete_placed id = refl

  persist_placed :
      {J : Type 0} (c : Codec J) (a : Alert J)
      → is_kept {F = F} alert_words (persist_sql c a) ≡ true
  unfolding is_kept place_after
  persist_placed c a = refl

module _ {F J : Type 0} (c : Codec J) (l : ScopeLib F) (e : Escapes l) where
  saved-IsSpelled : (a : Alert J) → Every (IsSpelled l alert_words) (saved c a)
  unfolding saved persist_alert
  saved-IsSpelled a =
      (is_kept-IsSpelled l e alert_words (persist_sql c a) (persist_placed F c a), λ r. tt)

  created-IsSpelled :
      (now : ℕ) (b : Option (Alert J)) → Every (IsSpelled l alert_words) (created c l now b)
  unfolding created
  created-IsSpelled now none = tt
  created-IsSpelled now (some a) =
      saved-IsSpelled (owned_by l.write_tenant (with_id ("alert-" ++ decimal now) a))

  -- Every statement that `ServeAlerts` sends is made of the texts of the handlers' statements for an empty
  -- rule, of numbers, of conditions of the tenant and of values between quotes, which ClickHouse does not
  -- read as code.
  pub serve_alerts-IsSpelled :
      (writer : Bool) (now : ℕ) (req : Request (Alert J))
      → Every (IsSpelled l alert_words) (serve_alerts c writer l now req)
  unfolding serve_alerts
  serve_alerts-IsSpelled writer now req =
      Every-if (IsSpelled l alert_words) writer _ _
        (Every-if (IsSpelled l alert_words) (req.method == "GET") _ _
          (is_kept-IsSpelled l e alert_words list_sql (list_placed F), λ r. tt)
          (Every-if (IsSpelled l alert_words) (req.method == "POST") _ _
            (created-IsSpelled now req.body) tt))
        tt

  get_alert-IsSpelled : (id : String) → Every (IsSpelled l alert_words) (get_alert {F = F} c id)
  unfolding get_alert
  get_alert-IsSpelled id =
      (is_kept-IsSpelled l e alert_words (get_sql id) (get_placed F id), λ r. tt)

  resaved-IsSpelled :
      (id : String) (a : Alert J) (old : String ⊎ Option (Alert J))
      → Every (IsSpelled l alert_words) (resaved c l id a old)
  unfolding resaved
  resaved-IsSpelled id a old = saved-IsSpelled (keeping_owner c l (record a { id = id }) old)

  replaced-IsSpelled :
      (id : String) (b : Option (Alert J)) → Every (IsSpelled l alert_words) (replaced c l id b)
  unfolding replaced
  replaced-IsSpelled id none = tt
  replaced-IsSpelled id (some a) =
      Every->>= (IsSpelled l alert_words) (get_alert c id) (resaved c l id a)
        (get_alert-IsSpelled id) (resaved-IsSpelled id a)

  waited-IsSpelled :
      (start : ℕ) (clock : ℕ → ℕ) (id : String) (r : String ⊎ String)
      → Every (IsSpelled l alert_words) (waited c start clock id r)
  unfolding waited
  waited-IsSpelled start clock id (inl m) = tt
  waited-IsSpelled start clock id (inr req_id) =
      Every->>= (IsSpelled l alert_words) (wait_alert_test_delivery start clock timeout id req_id) _
        (wait-IsSpelled F l e start clock timeout id req_id) (λ d. tt)

  fired-IsSpelled :
      (now start : ℕ) (clock : ℕ → ℕ) (id : String) (a : String ⊎ Option (Alert J))
      → Every (IsSpelled l alert_words) (fired c now start clock id a)
  unfolding fired
  fired-IsSpelled now start clock id (inl m) = tt
  fired-IsSpelled now start clock id (inr none) = tt
  fired-IsSpelled now start clock id (inr (some a)) =
      Every->>= (IsSpelled l alert_words) (queue_alert_test now a) _
        (queue_alert_test-IsSpelled F l e now a) (waited-IsSpelled start clock id)

  by_method-IsSpelled :
      (now start : ℕ) (clock : ℕ → ℕ) (id : String) (req : Request (Alert J))
      → Every (IsSpelled l alert_words) (by_method c l now start clock id req)
  unfolding by_method
  by_method-IsSpelled now start clock id req =
      let got = get_alert-IsSpelled id in
      Every-if (IsSpelled l alert_words) (req.method == "GET") _ _
        (Every->>= (IsSpelled l alert_words) (get_alert c id) (λ a. done (found {F = F} c a)) got
          (λ a. tt))
        (Every-if (IsSpelled l alert_words) (req.method == "PUT") _ _
          (replaced-IsSpelled id req.body)
          (Every-if (IsSpelled l alert_words) (req.method == "DELETE") _ _
            (is_kept-IsSpelled l e alert_words (delete_sql id) (delete_placed F id), λ r. tt)
            (Every-if (IsSpelled l alert_words) (req.method == "POST") _ _
              (Every->>= (IsSpelled l alert_words) (get_alert c id) _ got
                (fired-IsSpelled now start clock id))
              tt)))

  at_parts-IsSpelled :
      (now start : ℕ) (clock : ℕ → ℕ) (parts : List String) (req : Request (Alert J))
      → Every (IsSpelled l alert_words) (at_parts c l now start clock parts req)
  unfolding at_parts
  at_parts-IsSpelled now start clock [] req = tt
  at_parts-IsSpelled now start clock (id ∷ rest) req =
      Every-if (IsSpelled l alert_words) (id == "") _ _ tt (
        Every-if (IsSpelled l alert_words) (req.method == "GET" && is_history rest) _ _
          (is_kept-IsSpelled l e alert_words (history_sql id) (history_placed F id), λ r. tt)
          (by_method-IsSpelled now start clock id req))

  -- Every statement that `ServeAlertsSubpath` sends is made of the texts of the handlers' statements for
  -- an empty rule, of numbers, of conditions of the tenant and of values between quotes, escaped, which
  -- ClickHouse does not read as code, whatever the path, the method, the body and the answers before it
  -- are.
  pub serve_alerts_subpath-IsSpelled :
      (writer : Bool) (now start : ℕ) (clock : ℕ → ℕ) (req : Request (Alert J))
      → Every (IsSpelled l alert_words) (serve_alerts_subpath c writer l now start clock req)
  unfolding serve_alerts_subpath
  serve_alerts_subpath-IsSpelled writer now start clock req =
      Every-if (IsSpelled l alert_words) writer _ _
        (at_parts-IsSpelled now start clock
          (split_slash (trim_slash (trim_prefix req.path "/api/alerts/"))) req)
        tt
