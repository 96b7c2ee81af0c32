-- ===== src/Query/Sql/Scoped.antt =====
-- Whether a statement carries a condition of the tenant.
use opa_hub.Prelude.{Bool, true, false, [], ◌∷◌}
use opa_hub.Query.Sql.{raw, quoted, number, real, cents, tenant_and, tenant_where, owned_row, Sql}

unfoldable pub is_scoped : {F : Type 0} → Sql F → Bool
is_scoped [] = false
is_scoped (tenant_and a ∷ ps) = true
is_scoped (tenant_where a ∷ ps) = true
is_scoped (owned_row a ∷ ps) = true
is_scoped (raw t ∷ ps) = is_scoped ps
is_scoped (quoted s ∷ ps) = is_scoped ps
is_scoped (number n ∷ ps) = is_scoped ps
is_scoped (real x ∷ ps) = is_scoped ps
is_scoped (cents x ∷ ps) = is_scoped ps
