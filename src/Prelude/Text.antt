-- ===== src/Prelude/Text.antt =====
-- What the program uses of Go's package strings, and the order of Go's `<` on strings.
use Prim.Native.Nat.{ℕ, ◌+◌}
use Prim.Native.Char.{code}
use Prim.Native.String.{String, len, slice, compare}
use Prim.Native.String.compare
use Prim.Native.String as Text
use mathlib.Core.Path.{◌≡◌, refl}
use mathlib.Core.Bool.{Bool, true, false, ◌&&◌, ◌||◌}
use mathlib.Core.Option.{none, some}
use mathlib.Core.List.{List, [], ◌∷◌, map}
use text.Mathlib.Text.{◌==◌, is_lt, find?}
use hive_agent.Prelude.Tests.{leb, eqb, if◌then◌else◌}

-- The code points of a text.
abbrev pub codes : String → List ℕ
codes String.[] = []
codes (String.◌∷◌ c s) = code c ∷ codes s

-- `strings.ToLower` on one code point, for the letters A to Z; no other code point becomes a letter
-- of "crash", the one text that is searched for.
abbrev pub lower : ℕ → ℕ
lower c = if leb b'A' c && leb c b'Z' then c + 32 else c

-- `strings.HasPrefix`, over code points.
abbrev pub starts : List ℕ → List ℕ → Bool
starts text [] = true
starts [] (p ∷ ps) = false
starts (c ∷ cs) (p ∷ ps) = eqb c p && starts cs ps

-- `strings.Contains`, over code points.
unfoldable pub contains : List ℕ → List ℕ → Bool
contains [] part = starts [] part
contains (c ∷ cs) part = starts (c ∷ cs) part || contains cs part

-- `strings.TrimRight(s, "/")`
unfoldable pub trim_right_slash : String → String
trim_right_slash String.[] = ""
trim_right_slash (String.◌∷◌ c s) =
    let rest = trim_right_slash s in
    if eqb (code c) b'/' && rest == "" then "" else String.◌∷◌ c rest

-- `strings.Replace(s, old, new, 1)`
unfoldable pub replace_first : String → String → String → String
replace_first s old new = elim (find? s old) [
  | none ↦ s
  | some i ↦ Text.◌++◌ (slice s 0 i) (Text.◌++◌ new (slice s (i + len old) (len s)))
]

-- `a < b` on strings: by code points, which is the order of the bytes of UTF-8.
abbrev pub str_lt : String → String → Bool
str_lt a b = is_lt (compare a b)

lower_test : map lower (codes "CrashLoop") ≡ codes "crashloop"
lower_test = refl

trim_test : trim_right_slash "https://x//" ≡ "https://x"
unfolding trim_right_slash
trim_test = refl

replace_test : replace_first "https://x" "https://" "wss://" ≡ "wss://x"
unfolding replace_first
replace_test = refl
