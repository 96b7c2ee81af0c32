-- ===== src/Directory/Cache.antt =====
-- How long the directory's cache answers, and what it does when OAM cannot be reached (oamdir.go).
use mathlib.Core.Path.{subst}
use opa_hub.Prelude.{
  ℕ, ◌+◌, ◌*◌, ◌<◌, ◌≤◌, ◌≡◌, ◌≢◌, ◌⊎◌, inl, inr, refl, true, false, none, some, List, [], ◌∷◌,
  eq_iff, arith, All, Bool-cases, Option-cases, sym,
}
use opa_hub.Text.{trim_space}
use opa_hub.Directory.{
  Org, Orgs, Client, Env, Outside, Reply, cache_ttl, configured, copied, refreshed, hit, fallback,
  is_fresh, reload, organizations,
}

-- calls one after the other, with their replies
unfoldable pub organizations_all : Env → List Outside → Client → Client × List Reply
organizations_all env [] c = (c, [])
organizations_all env (o ∷ os) c =
    let r = organizations env o c in
    let (last, replies) = organizations_all env os r.client in (last, r ∷ replies)

-- a call within the lifetime of what was read at this time
abbrev pub IsWithin : ℕ → Outside → Type 0
IsWithin t o = (t ≤ o.now) × (o.now < t + cache_ttl)

-- the hub is set up to ask OAM
pub record IsReady (env : Env) : Type 0 where
  pub peer : configured env ≡ true
  pub secret : trim_space env.service_secret ≢ ""

organizations-fresh :
    (env : Env) (o : Outside) (t : ℕ) (l : List Org)
    → IsReady env
    → IsWithin t o
    → organizations env o (refreshed t (some l)) ≡ hit (refreshed t (some l))
unfolding organizations
organizations-fresh env o t l ready (after, before) =
    ground (arith, eq_iff (trim_space env.service_secret) "", ready.peer, ready.secret)

-- an answer with a list for which neither the shared cache nor OAM was called and nothing was stored
abbrev pub IsOwnList : List Org → Reply → Type 0
IsOwnList l r =
    (r.orgs ≡ some (copied (some l))) × (r.stored ≡ none) × (r.looked ≡ false) × (r.asked ≡ false)

-- Once a list was read, every call within 30 seconds is answered with it, whatever the shared cache
-- and OAM hold by then, calls neither of them, and leaves the cache as it is.
pub organizations_all-IsWithin :
    (env : Env) (t : ℕ) (l : List Org) (os : List Outside)
    → IsReady env
    → All (IsWithin t) os
    → ((organizations_all env os (refreshed t (some l))).0 ≡ refreshed t (some l))
      × All (IsOwnList l) (organizations_all env os (refreshed t (some l))).1
unfolding organizations_all
organizations_all-IsWithin env t l [] ready h = (refl, tt)
organizations_all-IsWithin env t l (o ∷ os) ready (w, h) =
    let (same, replies) = organizations_all-IsWithin env t l os ready h in
    rw (organizations-fresh env o t l ready w) (same, ((refl, refl, refl, refl), replies))

-- an answer out of the hub's own list, a list that was just read, or an error that nothing answers
abbrev pub CacheOutcome : Outside → Client → Reply → Type 0
CacheOutcome o c r =
    ((r.client ≡ c)
      × (r.stored ≡ none)
      × (r.orgs ≡ some (copied c.cached))
      × ((is_fresh o.now c ≡ true)
          ⊎ ((o.shared ≡ none) × (o.fetched ≡ none) × (copied c.cached ≢ none))))
    ⊎ ((orgs : Orgs) × (r.orgs ≡ some orgs)
        × (r.client ≡ refreshed o.now orgs)
        × (is_fresh o.now c ≡ false)
        × (((o.shared ≡ some orgs) × (r.stored ≡ none))
            ⊎ ((o.shared ≡ none)
                × (o.fetched ≡ some orgs)
                × (r.stored ≡ some (orgs, cache_ttl * 10)))))
    ⊎ ((r.client ≡ c)
        × (r.stored ≡ none)
        × (r.orgs ≡ none)
        × (o.shared ≡ none)
        × (o.fetched ≡ none)
        × (copied c.cached ≡ none))

organizations-hit :
    (env : Env) (o : Outside) (c : Client)
    → IsReady env
    → is_fresh o.now c ≡ true
    → organizations env o c ≡ hit c
unfolding organizations
organizations-hit env o c ready fresh =
    ground (arith, eq_iff (trim_space env.service_secret) "", ready.peer, ready.secret)

organizations-miss :
    (env : Env) (o : Outside) (c : Client)
    → IsReady env
    → is_fresh o.now c ≡ false
    → organizations env o c ≡ reload o c
unfolding organizations
organizations-miss env o c ready old =
    ground (arith, eq_iff (trim_space env.service_secret) "", ready.peer, ready.secret)

fallback_cases :
    (o : Outside) (c : Client) → o.shared ≡ none → o.fetched ≡ none → CacheOutcome o c (fallback c)
fallback_cases o c shared fetched = elim (Option-cases (copied c.cached)) [
  | inl nothing ↦ inr (inr (ground arith))
  | inr (l, found) ↦ inl (refl, refl, ground arith, inr (ground arith))
]

reload-failed :
    (o : Outside) (c : Client) → o.shared ≡ none → o.fetched ≡ none → reload o c ≡ fallback c
unfolding reload
reload-failed o c shared fetched = rw (shared, fetched, reload) refl

reload_cases : (o : Outside) (c : Client) → is_fresh o.now c ≡ false → CacheOutcome o c (reload o c)
unfolding reload
reload_cases o c old = elim (Option-cases o.shared) [
  | inr (orgs, shared) ↦ rw (shared, reload) (inr (inl (orgs, refl, refl, old, inl (refl, refl))))
  | inl missing ↦ elim (Option-cases o.fetched) [
    | inr (orgs, fetched) ↦
        rw (missing, fetched, reload) (inr (inl (orgs, refl, refl, old, inr (refl, refl, refl))))
    | inl failed ↦
        subst (CacheOutcome o c) (sym (reload-failed o c missing failed))
          (fallback_cases o c missing failed)
  ]
]

-- With OAM set up, a call is answered in one of three ways. Out of the hub's own list, which stays as
-- it is, while that is fresh, or when it is not empty and neither the shared cache nor OAM answers.
-- With a list that was just read, from the shared cache or else from OAM, which becomes the hub's own
-- and in the second case is put into the shared cache for 300 seconds. With an error, where nothing
-- was read and there is no list to fall back to; the cache stays as it is.
pub organizations_cases :
    (env : Env) (o : Outside) (c : Client) → IsReady env → CacheOutcome o c (organizations env o c)
organizations_cases env o c ready = elim (Bool-cases (is_fresh o.now c)) [
  | inl fresh ↦
      subst (CacheOutcome o c) (sym (organizations-hit env o c ready fresh))
        (inl (refl, refl, refl, inl fresh))
  | inr old ↦
      subst (CacheOutcome o c) (sym (organizations-miss env o c ready old)) (reload_cases o c old)
]
