-- ===== src/Prelude/Sets.antt =====
-- Texts form a set.
use mathlib.Core.HLevel.{hedberg}
use Prim.Native.String.{String}
use mathlib.Core.Path.{◌≡◌}
use mathlib.Core.Logic.{inl, inr}
use text.Mathlib.Text.{◌==◌}
use text.Mathlib.TextEquality.{eq_iff}
use hive_agent.Prelude.Tests.{Bool-cases}

String-discrete : (s t : String) → Dec (s ≡ t)
String-discrete s t = elim (Bool-cases (s == t)) [
  | inl e ↦ yes ((eq_iff s t).0 e)
  | inr e ↦ no (λ p. cc ((eq_iff s t).1 p))
]

pub String-set : IsSet String
String-set = hedberg String-discrete
