-- ===== src/Query/Alerts/Handler/Scope.antt =====
-- What the alert handlers read and delete is scoped to the tenant of the request.
use opa_hub.Prelude.{ℕ, String, Bool, true, ◌≡◌, refl, List, [], ◌∷◌, ◌⊎◌, inl, inr, ◌==◌, ◌&&◌}
use opa_hub.Text.{trim_prefix, trim_slash}
use opa_hub.Text.Split.{split_slash}
use opa_hub.Http.{Request}
use opa_hub.Query.Sql.{ScopeLib, Sql}
use opa_hub.Query.Sql.Scoped.{is_scoped}
use opa_hub.Query.Db.{done, query, Every, Every-if}
use opa_hub.Query.Alerts.{Codec, Alert, get_alert}
use opa_hub.Query.Alerts.Handler.{
  history_sql, by_method, recalled, at_parts, serve_alerts_subpath, is_history,
}

abbrev pub IsScoped : {F : Type 0} → Sql F → Type 0
IsScoped ps = is_scoped ps ≡ true

module _ {F J : Type 0} (c : Codec J) (l : ScopeLib F) where
  read_or_delete :
      (now start : ℕ) (clock : ℕ → ℕ) (id : String) (req : Request (Alert J))
      → (req.method ≡ "GET") ⊎ (req.method ≡ "DELETE")
      → Every IsScoped (by_method c l now start clock id req)
  unfolding by_method get_alert is_scoped
  read_or_delete now start clock id req (inl m) = rw m (refl, λ r. tt)
  read_or_delete now start clock id req (inr m) = rw m (refl, λ r. tt)

  history-IsScoped :
      (id : String) → Every IsScoped (query (history_sql id) (λ r. done (recalled {F = F} c r)))
  unfolding is_scoped
  history-IsScoped id = (refl, λ r. tt)

  at_parts-IsScoped :
      (now start : ℕ) (clock : ℕ → ℕ) (parts : List String) (req : Request (Alert J))
      → (req.method ≡ "GET") ⊎ (req.method ≡ "DELETE")
      → Every IsScoped (at_parts c l now start clock parts req)
  unfolding at_parts
  at_parts-IsScoped now start clock [] req m = tt
  at_parts-IsScoped now start clock (id ∷ rest) req m = Every-if IsScoped (id == "") _ _ tt (
      Every-if IsScoped (req.method == "GET" && is_history rest)
        (query (history_sql id) (λ r. done (recalled {F = F} c r))) _ (history-IsScoped id)
        (read_or_delete now start clock id req m))

  -- A request that reads or deletes a rule sends no statement without a condition of its tenant, whatever
  -- the path and the answers are.
  pub serve_alerts_subpath-IsScoped :
      (writer : Bool) (now start : ℕ) (clock : ℕ → ℕ) (req : Request (Alert J))
      → (req.method ≡ "GET") ⊎ (req.method ≡ "DELETE")
      → Every IsScoped (serve_alerts_subpath c writer l now start clock req)
  unfolding serve_alerts_subpath
  serve_alerts_subpath-IsScoped writer now start clock req m =
      Every-if IsScoped writer _ _
        (at_parts-IsScoped now start clock
          (split_slash (trim_slash (trim_prefix req.path "/api/alerts/"))) req m)
        tt
