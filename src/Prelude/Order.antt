-- ===== src/Prelude/Order.antt =====
-- The order of Go's `<` on strings is a strict total order.
use Prim.Native.Nat.{Ordering}
use Prim.Native.Nat as Num
use Prim.Native.Char.{code}
use Prim.Native.String.{String, compare, then}
use Prim.Native.String.compare as clauses
use mathlib.Core.Path.{◌≡◌, refl, sym, ap, ◌∙◌}
use mathlib.Core.Logic.{◌⊎◌, inl, inr}
use mathlib.Core.Bool.{true, false, false≢true}
use native.Mathlib.Omega.{arith}
use text.Mathlib.Text.{is_lt}
use text.Mathlib.TextEquality.{path_by_compare}
use text.Mathlib.TextPositions.{compare_refl}
use hive_agent.Prelude.Text.{str_lt}

pub str_lt_irrefl : (s : String) → str_lt s s ≡ false
str_lt_irrefl s = rw compare_refl

abbrev flip : Ordering → Ordering
flip Ordering.lt = Ordering.gt
flip Ordering.eq = Ordering.eq
flip Ordering.gt = Ordering.lt

then-flip : (a b : Ordering) → then (flip a) (flip b) ≡ flip (then a b)
then-flip a b = ground arith

nat_flip : (m n : Num.ℕ) → Num.compare n m ≡ flip (Num.compare m n)
nat_flip m n = ground arith

compare-flip : (s t : String) → compare t s ≡ flip (compare s t)
compare-flip String.[] String.[] = refl
compare-flip String.[] (String.◌∷◌ d t) = rw (clauses.cons-nil, clauses.nil-cons)
compare-flip (String.◌∷◌ c s) String.[] = rw (clauses.cons-nil, clauses.nil-cons)
compare-flip (String.◌∷◌ c s) (String.◌∷◌ d t) =
    rw (clauses.cons-cons, clauses.cons-cons, nat_flip (code c) (code d), compare-flip s t)
      (then-flip _ _)

-- Two texts are equal, or in one order or the other.
pub str_lt_total : (s t : String) → (str_lt s t ≡ true) ⊎ (s ≡ t) ⊎ (str_lt t s ≡ true)
str_lt_total s t = cases_of (compare s t) refl
  where
    cases_of :
        (o : Ordering) → compare s t ≡ o → (str_lt s t ≡ true) ⊎ (s ≡ t) ⊎ (str_lt t s ≡ true)
    cases_of Ordering.lt e = inl (ap is_lt e)
    cases_of Ordering.eq e = inr (inl (path_by_compare s t e))
    cases_of Ordering.gt e = inr (inr (ap is_lt (compare-flip s t ∙ ap flip e)))

then_trans :
    (p q r : Num.ℕ) (x y z : Ordering)
    → (is_lt x ≡ true → is_lt y ≡ true → is_lt z ≡ true)
    → is_lt (then (Num.compare p q) x) ≡ true
    → is_lt (then (Num.compare q r) y) ≡ true
    → is_lt (then (Num.compare p r) z) ≡ true
then_trans p q r x y z h a b = ground arith

pub str_lt_trans : (s t u : String) → str_lt s t ≡ true → str_lt t u ≡ true → str_lt s u ≡ true
str_lt_trans String.[] String.[] u a b = b
str_lt_trans s (String.◌∷◌ d t) String.[] a b =
    absurd (false≢true (sym (ap is_lt (clauses.cons-nil d t)) ∙ b))
str_lt_trans String.[] (String.◌∷◌ d t) (String.◌∷◌ e u) a b = ap is_lt (clauses.nil-cons e u)
str_lt_trans (String.◌∷◌ c s) String.[] u a b =
    absurd (false≢true (sym (ap is_lt (clauses.cons-nil c s)) ∙ a))
str_lt_trans (String.◌∷◌ c s) (String.◌∷◌ d t) (String.◌∷◌ e u) a b = rw clauses.cons-cons (
    then_trans (code c) (code d) (code e) (compare s t) (compare t u) (compare s u)
      (str_lt_trans s t u) (rw clauses.cons-cons at a) (rw clauses.cons-cons at b))
