-- ===== src/Directory/Tests.antt =====
-- The directory's cache at concrete inputs.
use opa_hub.Prelude.{ℕ, ◌≡◌, refl, arith, eq_iff, none, some, List, [], ◌∷◌, All}
use opa_hub.Directory.{Org, Env, Outside, configured, refreshed, organizations}
use opa_hub.Directory.Cache.{
  organizations_all, IsReady, IsOwnList, CacheOutcome, organizations_all-IsWithin,
  organizations_cases,
}

abbrev pub acme_only : List Org
acme_only = record { id = "acme"; name = "Acme"; source = "oam" } ∷ []

abbrev pub oam_env : Env
oam_env = record { peer_oam_url = "http://oam/"; service_secret = "k" }

oam_env-IsReady : IsReady oam_env
unfolding configured
oam_env-IsReady = record { peer = refl; secret = ground (arith, eq_iff "k" "") }

-- a call at a time, when OAM is down
abbrev pub down : ℕ → Outside
down now = record { now = now; shared = none; fetched = none }

-- a call at a time, when OAM has no organizations
abbrev pub emptied : ℕ → Outside
emptied now = record { now = now; shared = none; fetched = some (some []) }

organizations_all-IsWithin_example :
    ((organizations_all oam_env (emptied 5 ∷ down 6 ∷ []) (refreshed 3 (some acme_only))).0
      ≡ refreshed 3 (some acme_only))
    × All
        (IsOwnList acme_only)
        (organizations_all oam_env (emptied 5 ∷ down 6 ∷ []) (refreshed 3 (some acme_only))).1
organizations_all-IsWithin_example =
    organizations_all-IsWithin oam_env 3 acme_only (emptied 5 ∷ down 6 ∷ []) oam_env-IsReady
      ((omega arith, omega arith), ((omega arith, omega arith), tt))

organizations_cases_example :
    CacheOutcome
      (down 50_000_000_000)
      (refreshed 3 (some acme_only))
      (organizations oam_env (down 50_000_000_000) (refreshed 3 (some acme_only)))
organizations_cases_example =
    organizations_cases oam_env (down 50_000_000_000) (refreshed 3 (some acme_only)) oam_env-IsReady
