-- ===== src/Wire/Parameters.antt =====
-- What the parameters of a command say to the agent of internal/commands/commands.go once they have
-- crossed the wire.
use hive_agent.Prelude.{
  suc, ◌*◌, ◌/◌, ◌^◌, ◌≤◌, ◌<◌, String, ◌≡◌, refl, inl, inr, true, false, Option, none, some, ◌==◌,
  arith, ltb, leb, Bool-cases,
}
use hive_agent.Prelude.Int.{ℤ, pos, negsuc}
use hive_agent.Value.{Value, Object, empty, field, string, int, float64, Float64, finite}
use hive_agent.Value.Fields.{get_field}
use hive_agent.Kube.Api.{Clientset}
use hive_agent.Commands.Params.{str, integer, as_string, as_integer, float_to_int64}
use hive_agent.Commands.Arguments.{
  SameArguments, parameter, str-parameter, integer-parameter, run-SameArguments, execute-run,
}
use hive_agent.Commands.Run as Commands
use hive_agent.Holmes.Types.{AgentCommand}
use hive_agent.Wire.{Codec}
use hive_agent.Wire.RoundTrip.{carried, carried_entries, carried_parameters, received}

-- The numbers that a float64 holds exactly, one by one from zero on.
abbrev pub IsExact : ℤ → Type 0
IsExact (pos n) = n ≤ 2 ^ 53
IsExact (negsuc n) = n < 2 ^ 53

abbrev pub float_of : ℤ → Float64
float_of (pos n) = finite false n 0 0
float_of (negsuc n) = finite true (suc n) 0 0

-- What encoding/json says of a text and of a number that it decodes into an `any`.
pub record IsPlain (c : Codec) : Type 0 where
  pub texts : (s : String) → carried c (string s) ≡ string s
  pub numbers : (n : ℤ) → IsExact n → carried c (int n) ≡ float64 (float_of n)

-- A text, or nothing.
pub data IsText : Option Value → Type 0 where
  no_text : IsText none
  a_text : (s : String) → IsText (some (string s))

-- An exact number, or nothing.
pub data IsWhole : Option Value → Type 0 where
  no_number : IsWhole none
  a_number : (n : ℤ) → IsExact n → IsWhole (some (int n))

abbrev carried_option : Codec → Option Value → Option Value
carried_option c none = none
carried_option c (some v) = some (carried c v)

get_field-carried_entries :
    (c : Codec) (m : Object) (key : String)
    → get_field (carried_entries c m) key ≡ carried_option c (get_field m key)
unfolding get_field carried_entries
get_field-carried_entries c empty key = refl
get_field-carried_entries c (field k v m) key = elim (Bool-cases (k == key)) [
  | inl e ↦ rw (get_field, e) refl
  | inr e ↦ rw (get_field, e, get_field-carried_entries c m key) refl
]

parameter-carried_parameters :
    (c : Codec) (p : Option Object) (key : String)
    → parameter (carried_parameters c p) key ≡ carried_option c (parameter p key)
unfolding carried_parameters get_field
parameter-carried_parameters c none key = refl
parameter-carried_parameters c (some empty) key = refl
parameter-carried_parameters c (some (field k v m)) key =
    get_field-carried_entries c (field k v m) key

-- The parameters that a command reads are of the types that its tool declares, where they are given.
pub record IsTyped (p : Option Object) : Type 0 where
  pub namespace : IsText (parameter p "namespace")
  pub name : IsText (parameter p "name")
  pub container : IsText (parameter p "container")
  pub tail_lines : IsWhole (parameter p "tailLines")

module _ (c : Codec) (plain : IsPlain c) (wild : Float64 → ℤ) where
  text_kept :
      (v : Option Value) (def : String)
      → IsText v
      → as_string (carried_option c v) def ≡ as_string v def
  text_kept none def no_text = refl
  text_kept _ def (a_text s) = rw (plain.texts s) refl

  float_to_int64-float_of : (n : ℤ) → IsExact n → float_to_int64 wild (float_of n) ≡ n
  unfolding float_to_int64
  float_to_int64-float_of (pos n) h =
      let same : n * 1 / 1 ≡ n = omega arith in
      let small : leb (2 ^ 63) n ≡ false = ground arith in rw (same, small) refl
  float_to_int64-float_of (negsuc n) h =
      let same : (suc n) * 1 / 1 ≡ suc n = omega arith in
      let small : ltb (2 ^ 63) (suc n) ≡ false = ground arith in rw (same, small) refl

  number_kept :
      (v : Option Value) (def : ℤ)
      → IsWhole v
      → as_integer wild (carried_option c v) def ≡ as_integer wild v def
  unfolding as_integer
  number_kept none def no_number = refl
  number_kept _ def (a_number n h) = rw (plain.numbers n h) (float_to_int64-float_of n h)

  str_kept :
      (p : Option Object) (key def : String)
      → IsText (parameter p key)
      → str p key def ≡ str (carried_parameters c p) key def
  str_kept p key def h =
      rw
        (
          str-parameter,
          str-parameter,
          parameter-carried_parameters,
          text_kept (parameter p key) def h,
        )
        refl

  integer_kept :
      (p : Option Object) (key : String) (def : ℤ)
      → IsWhole (parameter p key)
      → integer wild p key def ≡ integer wild (carried_parameters c p) key def
  integer_kept p key def h =
      rw
        (
          integer-parameter,
          integer-parameter,
          parameter-carried_parameters,
          number_kept (parameter p key) def h,
        )
        refl

  pub carried_parameters-SameArguments :
      (p : Option Object) → IsTyped p → SameArguments wild p (carried_parameters c p)
  carried_parameters-SameArguments p h = record {
    namespaces = str_kept p "namespace" "*" h.namespace;
    namespace = str_kept p "namespace" "" h.namespace;
    name = str_kept p "name" "" h.name;
    container = str_kept p "container" "" h.container;
    tail_lines = integer_kept p "tailLines" (pos 200) h.tail_lines;
  }

abbrev pub sent : AgentCommand → Commands.Request
sent cmd = record {
  request_id = cmd.request_id;
  command = cmd.command;
  parameters = cmd.parameters;
}

-- Over a codec that keeps texts and exact numbers, a command whose namespace, name, container and
-- tailLines are of the declared types, or missing, is executed as if its parameters had not been
-- encoded and decoded, though a number arrives as a float64.
pub execute-received :
    (c : Codec) (plain : IsPlain c) (wild : Float64 → ℤ) (cluster : String) (kube : Clientset)
    (clock : Commands.Clock) (cmd : AgentCommand)
    → IsTyped cmd.parameters
    → Commands.execute wild cluster kube clock (received c cmd)
      ≡ Commands.execute wild cluster kube clock (sent cmd)
execute-received c plain wild cluster kube clock cmd h =
    let seen = carried_parameters c cmd.parameters in
    let same = carried_parameters-SameArguments c plain wild cmd.parameters h in
    execute-run wild kube (sent cmd) seen (run-SameArguments wild kube (sent cmd) seen same) cluster
      clock
