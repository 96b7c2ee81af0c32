-- ===== src/Directory.antt =====
-- internal/oamdir/oamdir.go: the directory of organizations that the hub reads from OAM and caches.
-- The shared cache (open-cache-go) and the call of OAM are not part of the repository or run on
-- another host: what they return is an argument of each call.
pub mod Cache
pub mod Tests
use mathlib.Core.Bool.{◌&&◌}
use opa_hub.Prelude.{
  ℕ, ◌-◌, ◌*◌, String, Bool, true, false, Option, none, some, List, [], ◌∷◌, ◌==◌, ltb, is_some,
  is_empty, if◌then◌else◌,
}
use opa_hub.Text.{trim_space, trim_right_slash}

-- `Org`
pub record Org : Type 0 where
  pub id : String
  pub name : String
  pub source : String

-- a `[]Org`, which may be nil
abbrev pub Orgs : Type 0
Orgs = Option (List Org)

-- the fields of `Client` that the cache consists of
pub record Client : Type 0 where
  pub cached : Orgs
  pub cached_at : ℕ

-- the environment variables that the package reads
pub record Env : Type 0 where
  pub peer_oam_url : String
  pub service_secret : String

-- What a call meets: the clock, `loadRedisStale` and `fetch`, each none where it fails.
pub record Outside : Type 0 where
  pub now : ℕ
  pub shared : Option Orgs
  pub fetched : Option Orgs

-- the reply of a call, none on an error; the client behind it; a write to the shared cache; and whether
-- `loadRedisStale` and `fetch` were called
pub record Reply : Type 0 where
  pub orgs : Option Orgs
  pub client : Client
  pub stored : Option (Orgs × ℕ)
  pub looked : Bool
  pub asked : Bool

-- `cacheTTL`
abbrev pub cache_ttl : ℕ
cache_ttl = 30 * 1_000_000_000

-- `New`, of the cache
abbrev pub new_client : Client
new_client = record { cached = none; cached_at = 0 }

-- `PeerURL`
unfoldable pub peer_url : Env → String
unfolding trim_space trim_right_slash
peer_url env = trim_right_slash (trim_space env.peer_oam_url)

-- `Configured`
unfoldable pub configured : Env → Bool
unfolding peer_url
configured env = if peer_url env == "" then false else true

-- `append([]Org(nil), l...)`: an empty list becomes nil
abbrev pub copied : Orgs → Orgs
copied none = none
copied (some []) = none
copied (some (o ∷ l)) = some (o ∷ l)

-- `time.Since(c.cachedAt) < cacheTTL && c.cached != nil`
abbrev pub is_fresh : ℕ → Client → Bool
is_fresh now c = ltb (now - c.cached_at) cache_ttl && is_some c.cached

-- a list that was just read
abbrev pub refreshed : ℕ → Orgs → Client
refreshed now orgs = record { cached = orgs; cached_at = now }

-- behind a failed `fetch`
abbrev pub fallback : Client → Reply
fallback c = record {
  orgs = elim (copied c.cached) [ none ↦ none | some l ↦ some (some l) ];
  client = c;
  stored = none;
  looked = true;
  asked = true;
}

-- out of the hub's own list
abbrev pub hit : Client → Reply
hit c = record {
  orgs = some (copied c.cached);
  client = c;
  stored = none;
  looked = false;
  asked = false;
}

-- `Organizations` once the cache is stale
unfoldable pub reload : Outside → Client → Reply
reload o c = elim o.shared [
  | some orgs ↦ record {
    orgs = some orgs;
    client = refreshed o.now orgs;
    stored = none;
    looked = true;
    asked = false;
  }
  | none ↦ elim o.fetched [
    | some orgs ↦ record {
      orgs = some orgs;
      client = refreshed o.now orgs;
      stored = some (orgs, cache_ttl * 10);
      looked = true;
      asked = true;
    }
    | none ↦ fallback c
  ]
]

-- `Organizations`
unfoldable pub organizations : Env → Outside → Client → Reply
unfolding configured reload trim_space
organizations env o c =
    let failed : Reply = record {
      orgs = none;
      client = c;
      stored = none;
      looked = false;
      asked = false;
    } in
    if configured env
    then (if trim_space env.service_secret == ""
        then failed
        else if is_fresh o.now c
        then hit c
        else reload o c)
    else failed
