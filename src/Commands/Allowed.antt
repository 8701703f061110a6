-- ===== src/Commands/Allowed.antt =====
-- The three lists of command names agree.
use hive_agent.Prelude.{String, ◌≡◌, refl, true, List, [], ◌∷◌, map, ◌==◌, any, arith}
use hive_agent.Prelude.GoMap.{lookup}
use hive_agent.Capabilities as Capabilities
use hive_agent.Commands.Run.{is_allowed, or_false}

lookup-any :
    (l : List String) (c : String)
    → or_false (lookup c (map (λ k. (k, true)) l)) ≡ any l (λ item. item == c)
unfolding lookup
lookup-any [] c = refl
lookup-any (x ∷ l) c = ground (arith, lookup-any l c)

-- For every text, the executor's map allows it exactly when it is one of the capabilities that the
-- agent registers.
pub is_allowed-contains : (c : String) → is_allowed c ≡ Capabilities.contains c
unfolding is_allowed Capabilities.contains
is_allowed-contains c = lookup-any Capabilities.all c
