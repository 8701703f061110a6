-- ===== src/Commands/Params.antt =====
-- Reading the parameters of a command: `str` and `integer` of internal/commands/commands.go, with what
-- they use of package strconv.
use hive_agent.Prelude.{
  ℕ, ◌+◌, ◌-◌, ◌*◌, ◌/◌, ◌^◌, String, Bool, true, false, Option, none, some, List, [], ◌∷◌, ◌&&◌,
  if◌then◌else◌, ltb, leb, eqb,
}
use hive_agent.Prelude.Text.{codes}
use hive_agent.Prelude.Int.{ℤ, pos, minus}
use hive_agent.Value.{Value, Object, string, int, int64, float64, json_number, Float64, finite}
use hive_agent.Value.Fields.{get_field}

-- What `strconv.ParseUint(s, 10, 64)` finds in the digits.
pub data Parsed : Type 0 where
  number : ℕ → Parsed
  out_of_range : Parsed
  bad_syntax : Parsed

abbrev pub is_digit : ℕ → Bool
is_digit c = leb b'0' c && leb c b'9'

abbrev pub max_uint64 : ℕ
max_uint64 = 2 ^ 64 - 1

-- the loop over the digits; the first step past 64 bits ends it
unfoldable pub parse_digits : List ℕ → ℕ → Parsed
parse_digits [] n = number n
parse_digits (c ∷ rest) n =
    let next = n * 10 + (c - b'0') in
    let later = parse_digits rest next in
    if is_digit c then (if ltb max_uint64 next then out_of_range else later) else bad_syntax

unfoldable pub parse_uint : List ℕ → Parsed
unfolding parse_digits
parse_uint [] = bad_syntax
parse_uint (c ∷ rest) = parse_digits (c ∷ rest) 0

-- The value that `strconv.ParseInt` returns beside its error, for the digits behind the sign.
unfoldable pub clamp : Bool → Parsed → ℤ
clamp negative bad_syntax = pos 0
clamp true out_of_range = minus (2 ^ 63)
clamp false out_of_range = pos (2 ^ 63 - 1)
clamp true (number n) = minus (if ltb (2 ^ 63) n then 2 ^ 63 else n)
clamp false (number n) = pos (if leb (2 ^ 63) n then 2 ^ 63 - 1 else n)

-- `i, _ := strconv.ParseInt(s, 10, 64)`
unfoldable pub parse_int : List ℕ → ℤ
unfolding parse_uint clamp
parse_int [] = pos 0
parse_int (c ∷ rest) =
    if eqb c b'-'
    then clamp true (parse_uint rest)
    else if eqb c b'+'
    then clamp false (parse_uint rest)
    else clamp false (parse_uint (c ∷ rest))

-- `int64(v)` of a `float64` truncates; where the result does not fit, Go leaves it to the machine,
-- which is `wild`.
unfoldable pub float_to_int64 : (Float64 → ℤ) → Float64 → ℤ
float_to_int64 wild (finite negative m up down) =
    let n = m * 2 ^ up / 2 ^ down in
    if negative
    then (if ltb (2 ^ 63) n then wild (finite negative m up down) else minus n)
    else (if leb (2 ^ 63) n then wild (finite negative m up down) else pos n)
float_to_int64 wild v = wild v

-- the type assertion to `string`, whether the key is there or not
abbrev pub as_string : Option Value → String → String
as_string (some (string v)) def = v
as_string _ def = def

-- A nil map is `none`.
unfoldable pub str : Option Object → String → String → String
str none key def = def
str (some m) key def = as_string (get_field m key) def

-- the type switch of `integer`
unfoldable pub as_integer : (Float64 → ℤ) → Option Value → ℤ → ℤ
unfolding parse_int float_to_int64
as_integer wild (some (int64 v)) def = v
as_integer wild (some (int v)) def = v
as_integer wild (some (float64 v)) def = float_to_int64 wild v
as_integer wild (some (json_number v)) def = parse_int (codes v)
as_integer wild _ def = def

unfoldable pub integer : (Float64 → ℤ) → Option Object → String → ℤ → ℤ
unfolding as_integer
integer wild none key def = def
integer wild (some m) key def = as_integer wild (get_field m key) def
