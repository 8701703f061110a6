-- ===== src/Holmes/Contract.antt =====
-- What the schemas of internal/holmesprovider/tools.go declare holds of internal/commands/commands.go.
use hive_agent.Prelude.{
  String, ◌≡◌, ◌≢◌, refl, sym, subst, ◌∙◌, Bool, true, false, inl, inr, Option, none, some, List,
  [], ◌==◌, eq_iff, if◌then◌else◌, Bool-cases,
}
use hive_agent.Prelude.Int.{ℤ, pos}
use hive_agent.Value.{Value, Object, empty, object, strings, string, int, Float64}
use hive_agent.Value.Fields.{get_field}
use hive_agent.Commands.Params.{str, integer, as_integer}
use hive_agent.Commands.Arguments.{
  parameter, set_parameter, str-parameter, integer-parameter, parameter-set_parameter,
}
use hive_agent.Holmes.Tools.{namespace_params, pod_params, logs_params}
use hive_agent.Holmes.Shapes.{
  Shape, nothing, any_namespace, one_pod, one_log, schema, SameFor, same_nothing, same_namespace,
  same_pod, same_log,
}

-- the value of the key "properties"
abbrev pub as_object : Option Value → Object
as_object (some (object o)) = o
as_object _ = empty

-- What the schema declares of a parameter.
unfoldable pub declared : Object → String → Option Value
unfolding get_field
declared schema key = get_field (as_object (get_field schema "properties")) key

-- Its default, if it has one.
unfoldable pub default_of : Object → String → Option Value
unfolding declared
default_of schema key = get_field (as_object (declared schema key)) "default"

abbrev pub as_strings : Option Value → List String
as_strings (some (strings l)) = l
as_strings _ = []

-- The names of the parameters that must be given.
unfoldable pub required_of : Object → List String
unfolding get_field
required_of schema = as_strings (get_field schema "required")

module _ (wild : Float64 → ℤ) (p q : Option Object) where
  str_same : (key def : String) → parameter p key ≡ parameter q key → str p key def ≡ str q key def
  str_same key def h = rw (str-parameter p key def, str-parameter q key def, h) refl

  integer_same :
      (key : String) (def : ℤ)
      → parameter p key ≡ parameter q key
      → integer wild p key def ≡ integer wild q key def
  integer_same key def h =
      rw (integer-parameter wild p key def, integer-parameter wild q key def, h) refl

  pub declared-SameFor :
      (s : Shape)
      → ((key : String) → declared (schema s) key ≢ none → parameter p key ≡ parameter q key)
      → SameFor wild p q s
  unfolding declared
  declared-SameFor nothing h = same_nothing
  declared-SameFor any_namespace h =
      same_namespace (str_same "namespace" "*" (h "namespace" (λ e. cc)))
  declared-SameFor one_pod h =
      same_pod (str_same "namespace" "" (h "namespace" (λ e. cc)))
        (str_same "name" "" (h "name" (λ e. cc)))
  declared-SameFor one_log h =
      same_log (str_same "namespace" "" (h "namespace" (λ e. cc)))
        (str_same "name" "" (h "name" (λ e. cc)))
        (str_same "container" "" (h "container" (λ e. cc)))
        (integer_same "tailLines" (pos 200) (h "tailLines" (λ e. cc)))

namespace_default :
    (key : String)
    → default_of namespace_params key ≡ (if "namespace" == key then some (string "*") else none)
unfolding default_of
namespace_default key = elim (Bool-cases ("namespace" == key)) [
  | inl e ↦ rw (default_of, e) refl
  | inr e ↦ rw (default_of, e) refl
]

pod_default : (key : String) → default_of pod_params key ≡ none
unfolding default_of
pod_default key = elim (Bool-cases ("namespace" == key)) [
  | inl e ↦ rw (default_of, e) refl
  | inr e ↦ elim (Bool-cases ("name" == key)) [
    | inl f ↦ rw (default_of, e, f) refl
    | inr f ↦ rw (default_of, e, f) refl
  ]
]

LogsDefault : String → Type 0
LogsDefault key =
    default_of logs_params key ≡ (if "tailLines" == key then some (int (pos 200)) else none)

at_name : (name key : String) → LogsDefault name → (name == key) ≡ true → LogsDefault key
at_name name key h e = subst LogsDefault ((eq_iff name key).0 e) h

logs_default : (key : String) → LogsDefault key
unfolding default_of LogsDefault
logs_default key = elim (Bool-cases ("namespace" == key)) [
  | inl e ↦ at_name "namespace" key refl e
  | inr e ↦ elim (Bool-cases ("name" == key)) [
    | inl f ↦ at_name "name" key refl f
    | inr f ↦ elim (Bool-cases ("container" == key)) [
      | inl g ↦ at_name "container" key refl g
      | inr g ↦ elim (Bool-cases ("tailLines" == key)) [
        | inl h ↦ at_name "tailLines" key refl h
        | inr h ↦ rw (default_of, e, f, g, h) refl
      ]
    ]
  ]
]

chosen_some :
    (b : Bool) (w v : Value) → (if b then some w else none) ≡ some v → (b ≡ true) × (v ≡ w)
chosen_some true w v h = (refl, cc)
chosen_some false w v h = absurd (cc)

module _ (wild : Float64 → ℤ) (p : Option Object) (key : String) (v : Value)
    (absent : parameter p key ≡ none) where
  set_here : (other : String) → key ≡ other → parameter (set_parameter p key v) other ≡ some v
  set_here other e =
      let hit : (key == other) ≡ true = (eq_iff key other).1 e in
      rw (parameter-set_parameter p key other v, hit) refl

  absent_here : (other : String) → key ≡ other → parameter p other ≡ none
  absent_here other e = subst (λ (k : String). parameter p k ≡ none) e absent

  str_set :
      (other def : String)
      → key ≡ other
      → v ≡ string def
      → str p other def ≡ str (set_parameter p key v) other def
  str_set other def e same =
      rw
        (
          str-parameter p other def,
          str-parameter (set_parameter p key v) other def,
          set_here other e,
          absent_here other e,
          same,
        )
        refl

  integer_set :
      (other : String) (def : ℤ)
      → key ≡ other
      → v ≡ int def
      → integer wild p other def ≡ integer wild (set_parameter p key v) other def
  unfolding as_integer
  integer_set other def e same =
      rw
        (
          integer-parameter wild p other def,
          integer-parameter wild (set_parameter p key v) other def,
          set_here other e,
          absent_here other e,
          same,
        )
        refl

  str_other :
      (other def : String)
      → (key == other) ≡ false
      → str p other def ≡ str (set_parameter p key v) other def
  str_other other def e =
      let kept : parameter (set_parameter p key v) other ≡ parameter p other =
        rw (parameter-set_parameter p key other v, e) refl in
      rw (str-parameter p other def, str-parameter (set_parameter p key v) other def, kept) refl

  pub default-SameFor :
      (s : Shape) → default_of (schema s) key ≡ some v → SameFor wild p (set_parameter p key v) s
  unfolding default_of LogsDefault
  default-SameFor nothing h = same_nothing
  default-SameFor any_namespace h =
      let (hit, star) = chosen_some _ _ _ (sym (namespace_default key) ∙ h) in
      same_namespace (str_set "namespace" "*" (sym ((eq_iff "namespace" key).0 hit)) star)
  default-SameFor one_pod h = absurd (cc (pod_default key))
  default-SameFor one_log h =
      let (hit, two_hundred) = chosen_some _ _ _ (sym (logs_default key) ∙ h) in
      let here : key ≡ "tailLines" = sym ((eq_iff "tailLines" key).0 hit) in
      same_log (str_other "namespace" "" (rw here refl)) (str_other "name" "" (rw here refl))
        (str_other "container" "" (rw here refl))
        (integer_set "tailLines" (pos 200) here two_hundred)
