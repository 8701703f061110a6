-- ===== src/Commands/Arguments.antt =====
-- The parameters that `run` of internal/commands/commands.go reads.
use hive_agent.Prelude.{
  String, ◌≡◌, refl, sym, inl, inr, Option, none, some, Bool-cases, ◌==◌, if◌then◌else◌,
}
use hive_agent.Prelude.Int.{ℤ, pos}
use hive_agent.Prelude.Result.{Result-cases}
use hive_agent.Value.{Value, Object, empty, field, Float64}
use hive_agent.Value.Fields.{get_field, set_field, get_field-set_field}
use hive_agent.Kube.Api.{Clientset}
use hive_agent.Commands.Params.{str, as_string, integer, as_integer}
use hive_agent.Commands.Run.{Request, Clock, is_allowed, run, execute}

-- Two maps of parameters say the same to every command.
pub record SameArguments (wild : Float64 → ℤ) (p q : Option Object) : Type 0 where
  pub namespaces : str p "namespace" "*" ≡ str q "namespace" "*"
  pub namespace : str p "namespace" "" ≡ str q "namespace" ""
  pub name : str p "name" "" ≡ str q "name" ""
  pub container : str p "container" "" ≡ str q "container" ""
  pub tail_lines : integer wild p "tailLines" (pos 200) ≡ integer wild q "tailLines" (pos 200)

module _ (wild : Float64 → ℤ) (kube : Clientset) (req : Request) (q : Option Object) where
  -- A response depends on the parameters only by what `run` says.
  pub execute-run :
      run wild kube req ≡ run wild kube (record req { parameters = q })
      → (cluster : String) (clock : Clock)
      → execute wild cluster kube clock (record req { parameters = q })
        ≡ execute wild cluster kube clock req
  unfolding execute
  execute-run same cluster clock =
      let q_run = sym same in
      elim (Bool-cases (is_allowed req.command)) [
        | inr other ↦ rw (execute, other) refl
        | inl listed ↦ elim (Result-cases (run wild kube req)) [
          | inl (v, e) ↦ rw (execute, listed, q_run, e) refl
          | inr (t, e) ↦ rw (execute, listed, q_run, e) refl
        ]
      ]

  pub run-SameArguments :
      SameArguments wild req.parameters q
      → run wild kube req ≡ run wild kube (record req { parameters = q })
  unfolding run
  run-SameArguments same =
      rw (same.namespaces, same.namespace, same.name, same.container, same.tail_lines) refl

-- `v, ok := m[k]`, also of the nil map
abbrev pub parameter : Option Object → String → Option Value
parameter none key = none
parameter (some m) key = get_field m key

-- `m[k] = v`, where a nil map becomes a map
abbrev pub set_parameter : Option Object → String → Value → Option Object
set_parameter none key v = some (field key v empty)
set_parameter (some m) key v = some (set_field m key v)

pub str-parameter :
    (p : Option Object) (key def : String) → str p key def ≡ as_string (parameter p key) def
unfolding str
str-parameter none key def = refl
str-parameter (some m) key def = refl

pub integer-parameter :
    (wild : Float64 → ℤ) (p : Option Object) (key : String) (def : ℤ)
    → integer wild p key def ≡ as_integer wild (parameter p key) def
unfolding integer as_integer
integer-parameter wild none key def = refl
integer-parameter wild (some m) key def = refl

pub parameter-set_parameter :
    (p : Option Object) (key other : String) (v : Value)
    → parameter (set_parameter p key v) other ≡ (if key == other then some v else parameter p other)
unfolding get_field
parameter-set_parameter none key other v = refl
parameter-set_parameter (some m) key other v = get_field-set_field m key other v
