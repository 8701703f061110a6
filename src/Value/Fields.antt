-- ===== src/Value/Fields.antt =====
-- Reading and writing the entries of a `map[string]any`.
use hive_agent.Prelude.{
  String, ◌≡◌, refl, Option, none, some, List, [], ◌∷◌, arith, ◌==◌, eq_iff, if◌then◌else◌,
}
use hive_agent.Value.{Value, Object, empty, field, Objects, no_objects, object_cons}

-- `v, ok := m[k]`
unfoldable pub get_field : Object → String → Option Value
get_field empty k = none
get_field (field j v m) k = if j == k then some v else get_field m k

-- `m[k] = v`
unfoldable pub set_field : Object → String → Value → Object
set_field empty k v = field k v empty
set_field (field j w m) k v = if j == k then field j v m else field j w (set_field m k v)

-- A slice of maps as a value.
unfoldable pub to_objects : List Object → Objects
to_objects [] = no_objects
to_objects (m ∷ ms) = object_cons m (to_objects ms)

pub get_field-set_field :
    (m : Object) (k j : String) (v : Value)
    → get_field (set_field m k v) j ≡ (if k == j then some v else get_field m j)
unfolding get_field set_field
get_field-set_field empty k j v = refl
get_field-set_field (field i w m) k j v =
    ground (arith, eq_iff k j, eq_iff i k, eq_iff i j, get_field-set_field m k j v)

-- A map literal, whose keys are different.
abbrev pub literal : List (String × Value) → Object
literal [] = empty
literal ((k, v) ∷ rest) = field k v (literal rest)
