-- ===== src/Value.antt =====
-- Go's `any` and `map[string]any`, as far as values of these types occur in the program: command
-- parameters, results of commands and inventory objects.
pub mod Fields
use hive_agent.Prelude.{ℕ, String, Bool, Option, List, [], ◌∷◌}
use hive_agent.Prelude.GoMap.{GoMap}
use hive_agent.Prelude.Int.{ℤ}
use hive_agent.Kube.Api.{NodeCondition, ContainerStatus, Foreign}

-- `finite negative m up down` is m * 2^up / 2^down, with its sign.
pub data Float64 : Type 0 where
  finite : Bool → ℕ → ℕ → ℕ → Float64
  infinite : Bool → Float64
  nan : Float64

mutual
  pub data Value : Type 0 where
    nil : Value
    string : String → Value
    boolean : Bool → Value
    int : ℤ → Value
    int32 : ℤ → Value
    int64 : ℤ → Value
    float64 : Float64 → Value
    json_number : String → Value
    string_pointer : Option String → Value
    strings : List String → Value
    labels : GoMap String → Value
    counts : GoMap ℤ → Value
    statuses : List ContainerStatus → Value
    conditions : List NodeCondition → Value
    foreign : Foreign → Value
    object : Object → Value
    objects : Objects → Value

  -- `map[string]any`, one entry for each key
  pub data Object : Type 0 where
    empty : Object
    field : String → Value → Object → Object

  -- `[]map[string]any`
  pub data Objects : Type 0 where
    no_objects : Objects
    object_cons : Object → Objects → Objects
