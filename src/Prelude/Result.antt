-- ===== src/Prelude/Result.antt =====
-- Go's `(T, error)`: a value, or the text of an error.
use Prim.Native.String.{String}
use mathlib.Core.Path.{◌≡◌, refl}
use mathlib.Core.Logic.{◌⊎◌, inl, inr}

pub data Result {ℓ} (T : Type ℓ) : Type ℓ where
  err : String → Result T
  ok : T → Result T

-- `t, err := r; if err != nil { return …, err }; …`
infixl 10 ◌>>=◌
abbrev pub ◌>>=◌ {ℓ κ} : {T : Type ℓ} {S : Type κ} → Result T → (T → Result S) → Result S
err text >>= next = err text
ok t >>= next = next t

-- A chain without an error has none at its first step, and goes on from its value.
pub >>=-ok :
    {T S : Type 0} {done : S} (r : Result T) (next : T → Result S)
    → r >>= next ≡ ok done
    → (t : T) × (next t ≡ ok done) × (r ≡ ok t)
>>=-ok (err text) next done_ok = cc
>>=-ok (ok t) next done_ok = (t, done_ok, refl)

pub Result-cases {ℓ} :
    {T : Type ℓ} (r : Result T) → ((t : T) × (r ≡ ok t)) ⊎ ((text : String) × (r ≡ err text))
Result-cases (err text) = inr (text, refl)
Result-cases (ok t) = inl (t, refl)
