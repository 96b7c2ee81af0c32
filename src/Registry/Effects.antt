-- ===== src/Registry/Effects.antt =====
-- What `Register`, `Heartbeat` and `MarkPush` of registry.go do to the entry of each id.
use mathlib.Core.Option
use opa_hub.Prelude.{
  ℕ, String, ◌≡◌, some, List, ◌==◌, eq_iff, arith, Option-cases, inl, inr, if◌then◌else◌,
}
use opa_hub.Prelude.Assoc.{lookup, lookup-insert}
use opa_hub.Registry.{
  Registry, RegisterRequest, register, register_id, heartbeat, mark_push, counted,
}

-- `Register` writes the agent that it returns under the id of the request, and no other entry.
pub lookup-register :
    (now : ℕ) (random : List ℕ) (req : RegisterRequest) (r : Registry) (j : String)
    → lookup j (register now random req r).0.agents ≡ (
        if register_id random req == j
        then some (register now random req r).1
        else lookup j r.agents)
unfolding register
lookup-register now random req r j = lookup-insert (register_id random req) j _ r.agents

-- `Heartbeat` of a known agent writes the agent that it returns, and no other entry; of an unknown
-- id it writes nothing.
pub lookup-heartbeat :
    (now : ℕ) (id : String) (r : Registry) (j : String)
    → lookup j (heartbeat now id r).0.agents
      ≡ (if id == j then (heartbeat now id r).1 else lookup j r.agents)
unfolding heartbeat
lookup-heartbeat now id r j = elim (Option-cases (lookup id r.agents)) [
  | inl unknown ↦ rw (unknown, heartbeat) (ground (arith, eq_iff id j))
  | inr (a, known) ↦ rw (known, heartbeat) (lookup-insert id j _ r.agents)
]

pub lookup-mark_push :
    (now : ℕ) (id : String) (r : Registry) (j : String)
    → lookup j (mark_push now id r).agents
      ≡ (if id == j then Option.map (counted now) (lookup j r.agents) else lookup j r.agents)
unfolding mark_push
lookup-mark_push now id r j = elim (Option-cases (lookup id r.agents)) [
  | inl unknown ↦ rw (unknown, mark_push) (ground (arith, eq_iff id j))
  | inr (a, known) ↦
      rw (known, mark_push)
        (ground (arith, lookup-insert id j (counted now a) r.agents, eq_iff id j))
]
