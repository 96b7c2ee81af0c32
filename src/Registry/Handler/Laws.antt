-- ===== src/Registry/Handler/Laws.antt =====
-- What the registry's handlers accept and change.
use opa_hub.Prelude.{
  ℕ, String, Bool, true, ◌≡◌, ◌≢◌, ◌⊎◌, refl, ap, ◌∙◌, Option, none, some, List, [], ◌∷◌, ◌==◌,
  eq_iff, arith, filter, length, Bool-cases, Option-cases, inl, inr, if◌then◌else◌,
}
use opa_hub.Http.{Request, Response, write_error, write_json, status_code}
use opa_hub.Tenant.{Context, TenantLib}
use opa_hub.Sort.Laws.{find_by-of_All}
use opa_hub.Sort.{find_by, IsSorted}
use opa_hub.Prelude.Assoc.{lookup}
use opa_hub.Registry.{
  seen, Agent, Registry, RegisterRequest, agent_id, register, heartbeat, get, list,
}
use opa_hub.Registry.Invariant.{IsWellFormed}
use opa_hub.Registry.Listing.{list-IsSorted, find_by-list}
use opa_hub.Registry.Scope.{list_scoped, agent_in_scope}
use opa_hub.Registry.Scope.Isolation.{list_scoped-filter}
use opa_hub.Registry.Handler.{
  Handler, AgentList, enroll_ok, serve_register, serve_heartbeat, serve_list, serve_get, path_id,
  named,
}

-- Without an enroll token configured, a hub that requires auth enrolls nobody: no request
-- registers an agent or moves its heartbeat, whatever it carries.
pub enroll_closed :
    (h : Handler) (now : ℕ) (random : List ℕ) (req : Request RegisterRequest)
    (beat : Request String) (r : Registry)
    → h.enroll_token ≡ ""
    → h.auth_required ≡ true
    → ((serve_register h now random req r).0 ≡ r)
      × (status_code (serve_register h now random req r).1 ≢ 200)
      × ((serve_heartbeat h now beat r).0 ≡ r)
      × (status_code (serve_heartbeat h now beat r).1 ≢ 200)
unfolding serve_register serve_heartbeat
enroll_closed h now random req beat r token auth = ground (arith, eq_iff h.enroll_token "")

-- what a register request needs
pub record IsAccepted (h : Handler) (req : Request RegisterRequest) (body : RegisterRequest)
    : Type 0 where
  pub posted : req.method ≡ "POST"
  pub enrolled : enroll_ok h req.header ≡ true
  pub decoded : req.body ≡ some body

-- a refusal: the registry is left alone, and the status is an error
abbrev pub IsRefused : Registry → Registry × Response Agent → Type 0
IsRefused r result = (result.0 ≡ r) × (status_code result.1 ≢ 200)

-- the agent is registered and answered, or the request is refused
abbrev pub RegisterOutcome :
    Handler → ℕ → List ℕ → Request RegisterRequest → Registry → Registry × Response Agent → Type 0
RegisterOutcome h now random req r result =
    ((body : RegisterRequest) × IsAccepted h req body
      × (result.0 ≡ (register now random body r).0)
      × (result.1 ≡ write_json 200 (register now random body r).1))
    ⊎ (((body : RegisterRequest) → ¬ IsAccepted h req body) × IsRefused r result)

-- A register request that is a POST with a good enroll token and a body that decodes leaves the
-- registry that `Register` leaves, and is answered 200 with its agent; any other request leaves the
-- registry alone and is answered by another status.
pub serve_register_cases :
    (h : Handler) (now : ℕ) (random : List ℕ) (req : Request RegisterRequest) (r : Registry)
    → RegisterOutcome h now random req r (serve_register h now random req r)
unfolding serve_register
serve_register_cases h now random req r = elim (Bool-cases (req.method == "POST")) [
  | inr other ↦ inr (λ body a. ground (arith, eq_iff req.method "POST", a.posted), ground arith)
  | inl post ↦ elim (Bool-cases (enroll_ok h req.header)) [
    | inr closed ↦ inr (λ body a. ground (arith, a.enrolled), ground arith)
    | inl open_ ↦ elim (Option-cases req.body) [
      | inl garbled ↦ inr (λ body a. ground (arith, a.decoded), ground arith)
      | inr (body, decoded) ↦ inl (
        body,
        record { posted = (eq_iff req.method "POST").0 post; enrolled = open_; decoded = decoded },
        ground arith,
        ground arith,
      )
    ]
  ]
]

named_some : (o : Option String) (id : String) → named o ≡ some id → o ≡ some id
named_some none id e = absurd (cc)
named_some (some j) id e = ground arith

heartbeat_unknown :
    (now : ℕ) (id : String) (r : Registry)
    → lookup id r.agents ≡ none
    → heartbeat now id r ≡ (r, none)
unfolding heartbeat
heartbeat_unknown now id r e = rw (e, heartbeat)

heartbeat_known :
    (now : ℕ) (id : String) (r : Registry) (a : Agent)
    → lookup id r.agents ≡ some a
    → heartbeat now id r ≡ ((heartbeat now id r).0, some (seen now a))
unfolding heartbeat
heartbeat_known now id r a e = rw (e, heartbeat)

-- the agent is known, seen now and answered, or nothing changes
abbrev pub HeartbeatOutcome : ℕ → Request String → Registry → Registry × Response Agent → Type 0
HeartbeatOutcome now req r result =
    ((id : String) × (a : Agent) × (req.body ≡ some id)
      × (lookup id r.agents ≡ some a)
      × (result ≡ ((heartbeat now id r).0, write_json 200 (seen now a))))
    ⊎ IsRefused r result

-- An agent that is not registered cannot be kept alive: a heartbeat that is answered 200 carries the
-- id of a registered agent, and the answer is that agent, seen now and online. Any other heartbeat
-- changes nothing.
pub serve_heartbeat_cases :
    (h : Handler) (now : ℕ) (req : Request String) (r : Registry)
    → HeartbeatOutcome now req r (serve_heartbeat h now req r)
unfolding serve_heartbeat
serve_heartbeat_cases h now req r = elim (Bool-cases (req.method == "POST")) [
  | inr other ↦ inr (ground arith)
  | inl post ↦ elim (Bool-cases (enroll_ok h req.header)) [
    | inr closed ↦ inr (ground arith)
    | inl open_ ↦ elim (Option-cases (named req.body)) [
      | inl garbled ↦ inr (ground arith)
      | inr (id, given) ↦ elim (Option-cases (lookup id r.agents)) [
        | inl unknown ↦ inr (ground (arith, heartbeat_unknown now id r unknown))
        | inr (a, known) ↦ inl (
          id,
          a,
          named_some req.body id given,
          known,
          ground (arith, heartbeat_known now id r a known),
        )
      ]
    ]
  ]
]

abbrev pub kept : (Agent → Bool) → Option Agent → Option Agent
kept p none = none
kept p (some a) = if p a then some a else none

find_by-filter :
    (p : Agent → Bool) (k : String) (l : List Agent)
    → IsSorted agent_id l
    → find_by agent_id k (filter p l) ≡ kept p (find_by agent_id k l)
unfolding find_by
find_by-filter p k [] s = refl
find_by-filter p k (a ∷ l) (below, s) = ground (
  arith,
  find_by-filter p k l s,
  find_by-of_All agent_id (agent_id a) l below,
  eq_iff (agent_id a) k,
)

-- the answer for a listed agent, and for one that is not
abbrev pub shown : Option Agent → Response Agent
shown none = write_error 404 "not_found" "agent not found"
shown (some a) = write_json 200 a

find_by-list_scoped :
    (t : TenantLib) (now : ℕ) (ctx : Context) (r : Registry) (id : String)
    → IsWellFormed r
    → find_by agent_id id (list_scoped t now ctx r)
      ≡ kept (λ a. agent_in_scope t (some a) ctx) (get now id r)
find_by-list_scoped t now ctx r id w =
    ap (find_by agent_id id) (list_scoped-filter t now ctx r)
    ∙ find_by-filter (λ a. agent_in_scope t (some a) ctx) id (list now r) (list-IsSorted now r w)
    ∙ ap (kept (λ a. agent_in_scope t (some a) ctx)) (find_by-list now r id w)

serve_get-list_scoped :
    (t : TenantLib) (now : ℕ) (req : Request Unit) (r : Registry)
    → IsWellFormed r
    → req.method ≡ "GET"
    → path_id req.path ≢ ""
    → path_id req.path ≢ "register"
    → path_id req.path ≢ "heartbeat"
    → serve_get t now req r
      ≡ shown
          (find_by agent_id (path_id req.path) (list_scoped t now (t.from_request req.header) r))
unfolding serve_get
serve_get-list_scoped t now req r w method a b c =
    rw find_by-list_scoped (elim (Option-cases (get now (path_id req.path) r)) [
      | inl unknown ↦ ground (
        arith,
        eq_iff req.method "GET",
        eq_iff (path_id req.path) "",
        eq_iff (path_id req.path) "register",
        eq_iff (path_id req.path) "heartbeat",
      )
      | inr (agent, known) ↦ ground (
        arith,
        eq_iff req.method "GET",
        eq_iff (path_id req.path) "",
        eq_iff (path_id req.path) "register",
        eq_iff (path_id req.path) "heartbeat",
      )
    ])

-- `GET /api/agents` with the same headers is answered 200 with a list and its length, and
-- `GET /api/agents/{id}` then shows the agent that the list has under the id, with the same content,
-- and answers 404 where the list has none, for every id that is not blank, "register" or "heartbeat".
pub serve_get-serve_list :
    (t : TenantLib) (now : ℕ) (req all : Request Unit) (r : Registry)
    → IsWellFormed r
    → req.method ≡ "GET"
    → all.method ≡ "GET"
    → all.header ≡ req.header
    → path_id req.path ≢ ""
    → path_id req.path ≢ "register"
    → path_id req.path ≢ "heartbeat"
    → (l : AgentList) × (serve_list t now all r ≡ write_json 200 l)
      × (l.count ≡ length l.agents)
      × (serve_get t now req r ≡ shown (find_by agent_id (path_id req.path) l.agents))
unfolding serve_list
serve_get-serve_list t now req all r w method listed same a b c =
    let agents = list_scoped t now (t.from_request req.header) r in
    (
      record { agents = agents; count = length agents },
      rw (listed, same) refl,
      refl,
      serve_get-list_scoped t now req r w method a b c,
    )
