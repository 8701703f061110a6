-- ===== src/Commands/Numbers.antt =====
-- The range of the numbers that `integer` reads from texts and floats.
use hive_agent.Prelude.{
  ℕ, zero, suc, ◌+◌, ◌-◌, ◌*◌, ◌^◌, ◌≤◌, ◌<◌, ◌≡◌, refl, Bool, true, false, Option, some, List, [],
  ◌∷◌, arith, leb, if◌then◌else◌, All, ◌⊎◌, inl, inr, Bool-cases, ◌/◌,
}
use hive_agent.Prelude.Text.{codes}
use hive_agent.Prelude.Int.{ℤ, pos, negsuc, minus}
use hive_agent.Value.{Value, int, int64, float64, json_number, Float64, finite, infinite, nan}
use hive_agent.Commands.Params.{
  Parsed, number, out_of_range, bad_syntax, is_digit, max_uint64, parse_digits, parse_uint, clamp,
  parse_int, as_integer, float_to_int64,
}

-- The integer fits `int64`.
abbrev pub IsInt64 : ℤ → Type 0
IsInt64 (pos n) = n < 2 ^ 63
IsInt64 (negsuc n) = n < 2 ^ 63

minus-IsInt64 : (n : ℕ) → n ≤ 2 ^ 63 → IsInt64 (minus n)
minus-IsInt64 zero h = omega arith
minus-IsInt64 (suc n) h = h

clamp-IsInt64 : (negative : Bool) (p : Parsed) → IsInt64 (clamp negative p)
unfolding clamp
clamp-IsInt64 true (number n) = minus-IsInt64 _ (ground arith)
clamp-IsInt64 false (number n) = ground arith
clamp-IsInt64 true out_of_range = ground arith
clamp-IsInt64 false out_of_range = ground arith
clamp-IsInt64 true bad_syntax = ground arith
clamp-IsInt64 false bad_syntax = ground arith

-- Whatever the text, what `ParseInt` returns fits `int64`.
parse_int-IsInt64 : (s : List ℕ) → IsInt64 (parse_int s)
unfolding parse_int
parse_int-IsInt64 [] = ground arith
parse_int-IsInt64 (c ∷ s) = ground (
  arith,
  clamp-IsInt64 true (parse_uint s),
  clamp-IsInt64 false (parse_uint s),
  clamp-IsInt64 false (parse_uint (c ∷ s)),
)

-- The number that decimal digits spell.
unfoldable pub spelled : List ℕ → ℕ → ℕ
spelled [] n = n
spelled (c ∷ rest) n = spelled rest (n * 10 + (c - b'0'))

spelled_grows : (l : List ℕ) (n : ℕ) → n ≤ spelled l n
unfolding spelled
spelled_grows [] n = omega arith
spelled_grows (c ∷ l) n = omega (arith, spelled_grows l (n * 10 + (c - b'0')))

parse_digits-spelled :
    (l : List ℕ) (n : ℕ)
    → All (λ c. is_digit c ≡ true) l
    → spelled l n ≤ max_uint64
    → parse_digits l n ≡ number (spelled l n)
unfolding parse_digits spelled
parse_digits-spelled [] n d h = refl
parse_digits-spelled (c ∷ l) n d h =
    ground (
      arith,
      spelled_grows l (n * 10 + (c - b'0')),
      parse_digits-spelled l (n * 10 + (c - b'0')) d.1,
    )

parse_digits-large :
    (l : List ℕ) (n : ℕ)
    → All (λ c. is_digit c ≡ true) l
    → max_uint64 < spelled l n
    → n ≤ max_uint64
    → parse_digits l n ≡ out_of_range
unfolding parse_digits spelled
parse_digits-large [] n d h k = absurd (omega arith)
parse_digits-large (c ∷ l) n d h k = ground (arith, parse_digits-large l (n * 10 + (c - b'0')) d.1)

parse_digits-cases :
    (l : List ℕ)
    → All (λ c. is_digit c ≡ true) l
    → ((spelled l 0 ≤ max_uint64) × (parse_digits l 0 ≡ number (spelled l 0)))
      ⊎ ((max_uint64 < spelled l 0) × (parse_digits l 0 ≡ out_of_range))
parse_digits-cases l d = elim (Bool-cases (leb (spelled l 0) max_uint64)) [
  | inl fits ↦ inl (ground arith, parse_digits-spelled l 0 d (ground arith))
  | inr large ↦ inr (ground arith, parse_digits-large l 0 d (ground arith) (omega arith))
]

clamp-digits :
    (l : List ℕ)
    → All (λ c. is_digit c ≡ true) l
    → clamp false (parse_digits l 0)
      ≡ pos (if leb (2 ^ 63) (spelled l 0) then 2 ^ 63 - 1 else spelled l 0)
unfolding clamp
clamp-digits l d = ground (arith, parse_digits-cases l d)

-- Of a text of decimal digits `ParseInt` returns the number that they spell, cut off at 2^63 - 1.
pub parse_int-digits :
    (c : ℕ) (l : List ℕ)
    → All (λ d. is_digit d ≡ true) (c ∷ l)
    → parse_int (c ∷ l)
      ≡ pos (if leb (2 ^ 63) (spelled (c ∷ l) 0) then 2 ^ 63 - 1 else spelled (c ∷ l) 0)
unfolding parse_int
parse_int-digits c l d = ground (arith, clamp-digits (c ∷ l) d)

-- The numbers in a map fit `int64`, as Go's types make them, and so do those that the machine makes
-- of floats that do not fit.
pub record FitsInt64 (wild : Float64 → ℤ) (v : Option Value) : Type 0 where
  pub machine : (f : Float64) → IsInt64 (wild f)
  pub int64_fits : (n : ℤ) → v ≡ some (int64 n) → IsInt64 n
  pub int_fits : (n : ℤ) → v ≡ some (int n) → IsInt64 n

float-IsInt64 :
    (wild : Float64 → ℤ) (f : Float64)
    → ((g : Float64) → IsInt64 (wild g))
    → IsInt64 (float_to_int64 wild f)
unfolding float_to_int64
float-IsInt64 wild (finite true m up down) h =
    ground (arith, minus-IsInt64 (m * 2 ^ up / 2 ^ down), h (finite true m up down))
float-IsInt64 wild (finite false m up down) h = ground (arith, h (finite false m up down))
float-IsInt64 wild (infinite s) h = h (infinite s)
float-IsInt64 wild nan h = h nan

-- Whatever the parameter is, a text, a float, another value or missing, the number that `integer`
-- returns fits `int64`, if the default does.
pub as_integer-IsInt64 :
    (wild : Float64 → ℤ) (v : Option Value) (def : ℤ)
    → FitsInt64 wild v
    → IsInt64 def
    → IsInt64 (as_integer wild v def)
unfolding as_integer
as_integer-IsInt64 wild (some (int64 n)) def f h = f.int64_fits n refl
as_integer-IsInt64 wild (some (int n)) def f h = f.int_fits n refl
as_integer-IsInt64 wild (some (float64 x)) def f h = float-IsInt64 wild x f.machine
as_integer-IsInt64 wild (some (json_number s)) def f h = parse_int-IsInt64 (codes s)
as_integer-IsInt64 wild _ def f h = h
