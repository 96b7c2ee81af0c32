-- ===== src/Registry/History.antt =====
-- Sequences of registry calls (registry.go): what the hub's handlers do to the registry over time.
use opa_hub.Prelude.{
  ℕ, ◌+◌, ◌%◌, ◌<◌, String, ◌≡◌, ◌∙◌, some, List, [], ◌∷◌, ◌==◌, eq_iff, arith, u64, if◌then◌else◌,
  ℤ,
}
use opa_hub.Prelude.Assoc.{lookup}
use opa_hub.Registry.{
  Agent, Registry, RegisterRequest, refreshed, seen, counted, new, register, register_id, heartbeat,
  mark_push,
}
use opa_hub.Registry.Effects.{lookup-register, lookup-heartbeat, lookup-mark_push}
use opa_hub.Registry.Invariant.{
  IsWellFormed, new-IsWellFormed, register-IsWellFormed, heartbeat-IsWellFormed,
  mark_push-IsWellFormed,
}

-- A call that changes the registry, with the clock and the random bytes that it reads.
pub data Call : Type 0 where
  registered : ℕ → List ℕ → RegisterRequest → Call
  beat : ℕ → String → Call
  pushed : ℕ → String → Call

unfoldable pub apply : Call → Registry → Registry
unfolding register heartbeat mark_push
apply (registered now random req) r = (register now random req r).0
apply (beat now id) r = (heartbeat now id r).0
apply (pushed now id) r = mark_push now id r

unfoldable pub replay : List Call → Registry → Registry
unfolding apply
replay [] r = r
replay (c ∷ cs) r = replay cs (apply c r)

-- the registries that a hub can be in
pub data Reachable : Registry → Type 0 where
  started : (stale_after : ℤ) → Reachable (new stale_after)
  stepped : {r : Registry} → Reachable r → (c : Call) → Reachable (apply c r)

apply-IsWellFormed : (c : Call) (r : Registry) → IsWellFormed r → IsWellFormed (apply c r)
unfolding apply
apply-IsWellFormed (registered now random req) r w = register-IsWellFormed now random req r w
apply-IsWellFormed (beat now id) r w = heartbeat-IsWellFormed now id r w
apply-IsWellFormed (pushed now id) r w = mark_push-IsWellFormed now id r w

-- Every registry that a hub can reach files each agent once, under its own id.
pub Reachable-IsWellFormed : {r : Registry} → Reachable r → IsWellFormed r
Reachable-IsWellFormed (started stale_after) = new-IsWellFormed stale_after
Reachable-IsWellFormed (stepped {r} h c) = apply-IsWellFormed c r (Reachable-IsWellFormed h)

-- the number of pushes of an agent in a sequence
abbrev pub pushes : String → List Call → ℕ
pushes id [] = 0
pushes id (pushed now j ∷ cs) = (if j == id then 1 else 0) + pushes id cs
pushes id (_ ∷ cs) = pushes id cs

-- What no call changes of an agent, and what only pushes change.
pub record Continues (before after : Agent) (n : ℕ) : Type 0 where
  pub same_id : after.id ≡ before.id
  pub same_registered_at : after.registered_at ≡ before.registered_at
  pub counted : after.push_count ≡ (before.push_count + n) % u64

-- what a call makes of a known agent
touched : Call → String → Agent → Agent
touched (registered now random req) id a =
    if register_id random req == id then refreshed now req a else a
touched (beat now j) id a = if j == id then seen now a else a
touched (pushed now j) id a = if j == id then counted now a else a

register-refreshed :
    (now : ℕ) (random : List ℕ) (req : RegisterRequest) (r : Registry) (a : Agent)
    → lookup (register_id random req) r.agents ≡ some a
    → (register now random req r).1 ≡ refreshed now req a
unfolding register
register-refreshed now random req r a known = rw (known, register)

heartbeat-seen :
    (now : ℕ) (id : String) (r : Registry) (a : Agent)
    → lookup id r.agents ≡ some a
    → (heartbeat now id r).1 ≡ some (seen now a)
unfolding heartbeat
heartbeat-seen now id r a known = rw (known, heartbeat)

lookup-apply :
    (c : Call) (r : Registry) (id : String) (a : Agent)
    → lookup id r.agents ≡ some a
    → lookup id (apply c r).agents ≡ some (touched c id a)
lookup-apply (registered now random req) r id a known =
    unfold apply touched in
    ground (
      arith,
      lookup-register now random req r id,
      eq_iff (register_id random req) id,
      register-refreshed now random req r a,
    )
lookup-apply (beat now j) r id a known =
    unfold apply touched in
    ground (arith, lookup-heartbeat now j r id, eq_iff j id, heartbeat-seen now j r a)
lookup-apply (pushed now j) r id a known =
    unfold apply touched in ground (arith, lookup-mark_push now j r id, eq_iff j id)

touched-Continues :
    (c : Call) (id : String) (a : Agent)
    → a.push_count < u64
    → Continues a (touched c id a) (pushes id (c ∷ []))
unfolding touched
touched-Continues (registered now random req) id a b = ground arith
touched-Continues (beat now j) id a b = ground arith
touched-Continues (pushed now j) id a b = ground arith

Continues-trans :
    (a b c : Agent) (m n : ℕ) → Continues a b m → Continues b c n → Continues a c (m + n)
Continues-trans a b c m n p q = record {
  same_id = q.same_id ∙ p.same_id;
  same_registered_at = q.same_registered_at ∙ p.same_registered_at;
  counted = omega (arith, p.counted, q.counted);
}

pushes-cons :
    (id : String) (c : Call) (cs : List Call)
    → pushes id (c ∷ cs) ≡ pushes id (c ∷ []) + pushes id cs
pushes-cons id (registered now random req) cs = omega arith
pushes-cons id (beat now j) cs = omega arith
pushes-cons id (pushed now j) cs = omega arith

-- A registered agent is never forgotten: after any further calls it is still filed under its id,
-- with its id and its registration time, and its push count has grown, modulo 2^64, by exactly the
-- number of pushes under that id.
pub replay-Continues :
    (cs : List Call) (r : Registry) (id : String) (a : Agent)
    → a.push_count < u64
    → lookup id r.agents ≡ some a
    → (b : Agent) × (lookup id (replay cs r).agents ≡ some b) × Continues a b (pushes id cs)
unfolding replay
replay-Continues [] r id a b known = (a, known, ground arith)
replay-Continues (c ∷ cs) r id a b known =
    let step = touched-Continues c id a b in
    let (d, found, rest) =
      replay-Continues cs (apply c r) id (touched c id a) (omega (arith, step.counted))
        (lookup-apply c r id a known) in
    (d, found, rw (pushes-cons id c cs) (Continues-trans a (touched c id a) d _ _ step rest))
