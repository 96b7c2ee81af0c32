-- ===== src/Registry/Invariant.antt =====
-- The invariant of the registry (registry.go): every agent is filed once, under its own id.
use opa_hub.Prelude.{
  ℕ, String, ◌≡◌, refl, inl, inr, some, List, [], ◌∷◌, eq_iff, arith, All, ℤ, Option-cases,
}
use opa_hub.Prelude.Assoc.{lookup, insert, Distinct, Distinct-insert}
use opa_hub.Registry.{
  Agent, Registry, RegisterRequest, new, register, register_id, heartbeat, mark_push,
}

-- the entry stands under the id of its agent
abbrev pub Keyed : String × Agent → Type 0
Keyed e = e.0 ≡ e.1.id

pub record IsWellFormed (r : Registry) : Type 0 where
  pub distinct : Distinct r.agents
  pub keyed : All Keyed r.agents

Keyed-insert :
    (k : String) (a : Agent) (m : List (String × Agent))
    → k ≡ a.id
    → All Keyed m
    → All Keyed (insert k a m)
unfolding insert
Keyed-insert k a [] e h = (e, tt)
Keyed-insert k a ((j, b) ∷ m) e h = ground (arith, Keyed-insert k a m)

Keyed-lookup :
    (k : String) (m : List (String × Agent)) {a : Agent}
    → All Keyed m
    → lookup k m ≡ some a
    → k ≡ a.id
unfolding lookup
Keyed-lookup k [] h f = absurd (cc)
Keyed-lookup k ((j, b) ∷ m) {a} (e, h) f = ground (arith, eq_iff j k, Keyed-lookup k m {a = a} h)

IsWellFormed-put :
    (k : String) (a : Agent) (r : Registry)
    → k ≡ a.id
    → IsWellFormed r
    → IsWellFormed (record r { agents = insert k a r.agents })
IsWellFormed-put k a r e w = record {
  distinct = Distinct-insert k a r.agents w.distinct;
  keyed = Keyed-insert k a r.agents e w.keyed;
}

pub new-IsWellFormed : (stale_after : ℤ) → IsWellFormed (new stale_after)
unfolding new
new-IsWellFormed stale_after = record { distinct = tt; keyed = tt }

pub register-IsWellFormed :
    (now : ℕ) (random : List ℕ) (req : RegisterRequest) (r : Registry)
    → IsWellFormed r
    → IsWellFormed (register now random req r).0
unfolding register
register-IsWellFormed now random req r w =
    elim (Option-cases (lookup (register_id random req) r.agents)) [
      | inl fresh ↦ rw (fresh, register) (IsWellFormed-put (register_id random req) _ r refl w)
      | inr (a, known) ↦
          rw (known, register)
            (IsWellFormed-put (register_id random req) _ r
              (Keyed-lookup (register_id random req) r.agents {a = a} w.keyed known) w)
    ]

pub heartbeat-IsWellFormed :
    (now : ℕ) (id : String) (r : Registry) → IsWellFormed r → IsWellFormed (heartbeat now id r).0
unfolding heartbeat
heartbeat-IsWellFormed now id r w = elim (Option-cases (lookup id r.agents)) [
  | inl unknown ↦ rw (unknown, heartbeat) w
  | inr (a, known) ↦
      rw (known, heartbeat)
        (IsWellFormed-put id _ r (Keyed-lookup id r.agents {a = a} w.keyed known) w)
]

pub mark_push-IsWellFormed :
    (now : ℕ) (id : String) (r : Registry) → IsWellFormed r → IsWellFormed (mark_push now id r)
unfolding mark_push
mark_push-IsWellFormed now id r w = elim (Option-cases (lookup id r.agents)) [
  | inl unknown ↦ rw (unknown, mark_push) w
  | inr (a, known) ↦
      rw (known, mark_push)
        (IsWellFormed-put id _ r (Keyed-lookup id r.agents {a = a} w.keyed known) w)
]
