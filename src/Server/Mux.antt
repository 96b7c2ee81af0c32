-- ===== src/Server/Mux.antt =====
-- `Handler` of internal/server/server.go: the CORS preflight, and `http.ServeMux` over the routes. A
-- path is taken to be clean, as the multiplexer redirects any other one first.
pub mod Protection
use Prim.Native.String
use Prim.Native.String.{len}
use mathlib.Core.Bool.{◌&&◌, not}
use opa_hub.Prelude.{
  ℕ, String, Bool, true, false, Option, none, some, List, [], ◌∷◌, ◌==◌, ◌||◌, ltb, any,
  if◌then◌else◌,
}
use opa_hub.Text.{has_prefix, ends_with_slash}
use opa_hub.Http.{Request}
use opa_hub.Auth.{UserClaims, AuthLib, Handler}
use opa_hub.Auth.Gate.{Gate, deny, pass, require, require_read_write, require_user_or_service}
use opa_hub.Server.Routes.{Guard, unguarded, read_write, at_least, user_or_service, Route, routes}

-- a pattern that ends in "/" takes the paths below it
unfoldable pub matches : String → String → Bool
unfolding has_prefix ends_with_slash
matches pattern path = if ends_with_slash pattern then has_prefix path pattern else pattern == path

-- the more specific of two matching routes
abbrev pub longer : Route → Option Route → Option Route
longer r none = some r
longer r (some q) = if ltb (len r.pattern) (len q.pattern) then some q else some r

-- the route that the multiplexer picks
unfoldable pub best : List Route → String → Option Route
unfolding matches
best [] path = none
best (r ∷ rs) path =
    let rest = best rs path in if matches r.pattern path then longer r rest else rest

-- What happens to a request: the preflight answer, a redirect to the same path with a "/", no route,
-- an answer of the wrapper, or the handler of a route.
pub data Served : Type 0 where
  no_content : Served
  redirected : Served
  not_found : Served
  refused : ℕ → Served
  handled : String → Request Unit → Option UserClaims → Served

abbrev pub through : String → Gate Unit → Served
through name (deny n code message) = refused n
through name (pass r claims) = handled name r claims

module _ (l : AuthLib) (env : String) (h : Handler) where
  -- a wrapper and its handler
  unfoldable pub guarded : Guard → String → Request Unit → Served
  guarded unguarded name r = handled name r none
  guarded read_write name r = through name (require_read_write l env h r)
  guarded (at_least role) name r = through name (require l env h role r)
  guarded (user_or_service role scope) name r =
      through name (require_user_or_service l env h role scope r)

  -- the multiplexer: a path that no pattern spells is redirected if a pattern spells it with a "/"
  dispatch : List Route → Request Unit → Served
  dispatch table r =
      let slashed = any (λ t. t.pattern == String.◌++◌ r.path "/") table in
      elim (best table r.path) [
        | none ↦ if slashed then redirected else not_found
        | some t ↦
            if not (t.pattern == r.path) && slashed then redirected else guarded t.guard t.handler r
      ]

  -- `Handler`
  unfoldable pub serve : Request Unit → Served
  unfolding dispatch
  serve r = if r.method == "OPTIONS" then no_content else dispatch routes r
