-- ===== src/Holmes/Catalogue.antt =====
-- The tools that internal/holmesprovider/tools.go offers and the capabilities of
-- internal/capabilities/capabilities.go.
use hive_agent.Prelude.{
  String, ◌≡◌, refl, Bool, true, false, Option, none, some, [], ◌∷◌, map, ◌==◌, arith, any,
}
use hive_agent.Prelude.GoMap.{GoMap, lookup, insert}
use hive_agent.Capabilities.{contains}
use hive_agent.Holmes.Registry.{new_tool_registry, add_tools, tool_of}
use hive_agent.Holmes.Provider.{Dispatcher, new_provider}
use hive_agent.Holmes.Tools.{kubernetes_tool_definitions}

abbrev pub is_some {ℓ} : {A : Type ℓ} → Option A → Bool
is_some none = false
is_some (some a) = true

lookup-keys {ℓ} :
    {V : Type ℓ} (k : String) (m : GoMap V)
    → is_some (lookup k m) ≡ any (map (λ entry. entry.0) m) (λ j. j == k)
unfolding lookup
lookup-keys k [] = refl
lookup-keys k ((j, v) ∷ m) = ground (arith, lookup-keys k m)

-- A provider that is made without a registry offers a tool under a name exactly when the name is one
-- of the agents' capabilities.
pub default_tool_iff_capability :
    (dispatcher : Option Dispatcher) (audit : Bool) (name : String)
    → is_some (tool_of (new_provider none dispatcher audit).registry name) ≡ contains name
unfolding tool_of new_tool_registry contains insert new_provider
default_tool_iff_capability dispatcher audit name =
    lookup-keys name (add_tools kubernetes_tool_definitions [])
