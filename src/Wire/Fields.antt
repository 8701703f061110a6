-- ===== src/Wire/Fields.antt =====
-- How encoding/json writes and reads a field of a struct. A missing member and a `null` leave the field
-- at its zero value; a member of another type is an error.
use hive_agent.Prelude.{ℕ, ◌^◌, String, Bool, Option, none, some, ◌==◌, if◌then◌else◌, ltb}
use hive_agent.Prelude.Int.{ℤ, pos, negsuc}
use hive_agent.Value.{Value, Object, empty, field, nil}
use hive_agent.Wire.{Json, null, integer, text, Members, no_members, member, members, Codec}

-- `omitempty` on a string
unfoldable pub omit_empty : String → String → Members → Members
omit_empty key s rest = if s == "" then rest else member key (text s) rest

module _ (c : Codec) where
  -- a `map[string]any`, entry by entry; the order of the members carries nothing
  unfoldable pub encode_entries : Object → Members
  encode_entries empty = no_members
  encode_entries (field k v rest) = member k (c.encode_any v) (encode_entries rest)

  -- `omitempty` on a `map[string]any`, which leaves out the nil map and the empty one
  unfoldable pub omit_empty_map : String → Option Object → Members → Members
  unfolding encode_entries
  omit_empty_map key none rest = rest
  omit_empty_map key (some empty) rest = rest
  omit_empty_map key (some (field k v m)) rest =
      member key (members (encode_entries (field k v m))) rest

  unfoldable pub decode_entries : Members → Object
  decode_entries no_members = empty
  decode_entries (member k j rest) = field k (c.decode_any j) (decode_entries rest)

  -- a field of type `map[string]any`
  unfoldable pub read_map : Option Json → Option (Option Object)
  unfolding decode_entries
  read_map none = some none
  read_map (some null) = some none
  read_map (some (members m)) = some (some (decode_entries m))
  read_map (some _) = none

  -- a field of type `any`
  unfoldable pub read_any : Option Json → Value
  read_any none = nil
  read_any (some j) = c.decode_any j

  -- a field of type `time.Time`
  unfoldable pub read_time : Option Json → Option ℕ
  read_time none = some 0
  read_time (some null) = some 0
  read_time (some (text s)) = c.parse_time s
  read_time (some _) = none

-- a field of type `string`
unfoldable pub read_string : Option Json → Option String
read_string none = some ""
read_string (some null) = some ""
read_string (some (text s)) = some s
read_string (some _) = none

abbrev pub fits_int64 : ℤ → Bool
fits_int64 (pos n) = ltb n (2 ^ 63)
fits_int64 (negsuc n) = ltb n (2 ^ 63)

-- a field of type `int64`
unfoldable pub read_int64 : Option Json → Option ℤ
read_int64 none = some (pos 0)
read_int64 (some null) = some (pos 0)
read_int64 (some (integer n)) = if fits_int64 n then some n else none
read_int64 (some _) = none
