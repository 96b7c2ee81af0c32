-- ===== src/Config/Tests.antt =====
-- The settings of an empty environment.
use opa_hub.Prelude.{true, ◌≡◌, refl}
use opa_hub.Config.{Environment, truthy}

abbrev unset : Environment
unset k = ""

yes_is_truthy : truthy " Yes " ≡ true
unfolding truthy
yes_is_truthy = refl
