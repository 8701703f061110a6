-- ===== src/Prelude/Lists.antt =====
-- Lists measured by native numbers, and the loops of Go that select by a Boolean test.
use Prim.Native.Nat.{ℕ, zero, suc, ◌+◌, ◌≤◌, ◌<◌}
use mathlib.Core.Path.{◌≡◌, refl, sym, ap, subst}
use mathlib.Core.Logic.{◌⊎◌, inl, inr}
use mathlib.Core.Bool.{Bool, true, false, ◌||◌}
use mathlib.Core.List.{List, [], ◌∷◌, ◌++◌}
use mathlib.Core.Option.{Option, none, some}
use native.Mathlib.Omega.{arith}
use hive_agent.Prelude.Tests.{if◌then◌else◌, Bool-cases, ltb, eqb}

-- Nothing stands in the empty list.
pub record Never {ℓ} : Type ℓ where
  pub never : ⊥

module _ {ℓ} {A : Type ℓ} where
  abbrev pub length : List A → ℕ
  length [] = 0
  length (x ∷ xs) = suc (length xs)

  -- `for _, x := range xs { if p(x) { out = append(out, x) } }`
  abbrev pub filter_by : (A → Bool) → List A → List A
  filter_by p [] = []
  filter_by p (x ∷ xs) = let rest = filter_by p xs in if p x then x ∷ rest else rest

  -- `for _, x := range xs { if p(x) { return true } }; return false`
  abbrev pub any : List A → (A → Bool) → Bool
  any [] p = false
  any (x ∷ xs) p = p x || any xs p

  abbrev pub All {κ} : (A → Type κ) → List A → Type κ
  All P [] = Unit
  All P (x ∷ xs) = P x × All P xs

  -- `x` stands in the list.
  abbrev pub In : A → List A → Type ℓ
  In x [] = Never
  In x (y ∷ ys) = (x ≡ y) ⊎ In x ys

  pub All-append {κ} : (P : A → Type κ) (k l : List A) → All P k → All P l → All P (k ++ l)
  All-append P [] l h i = i
  All-append P (x ∷ k) l h i = (h.0, All-append P k l h.1 i)

  pub All-In {κ} : (P : A → Type κ) (l : List A) → All P l → (x : A) → In x l → P x
  All-In P [] h x m = absurd m.never
  All-In P (y ∷ l) h x (inl e) = subst P (sym e) h.0
  All-In P (y ∷ l) h x (inr m) = All-In P l h.1 x m

  pub length-append : (xs ys : List A) → length (xs ++ ys) ≡ length xs + length ys
  length-append [] ys = omega arith
  length-append (x ∷ xs) ys = omega (arith, length-append xs ys)

  pub length-filter_by-le : (p : A → Bool) (xs : List A) → length (filter_by p xs) ≤ length xs
  length-filter_by-le p [] = omega arith
  length-filter_by-le p (x ∷ xs) = ground (arith, length-filter_by-le p xs)

  -- What passes the filter stands in the list and passes the test.
  pub mem_of-filter_by :
      (p : A → Bool) (x : A) (xs : List A) → In x (filter_by p xs) → In x xs × (p x ≡ true)
  mem_of-filter_by p x [] m = absurd m.never
  mem_of-filter_by p x (y ∷ xs) m = ground (arith, mem_of-filter_by p x xs)

  -- What stands in the list and passes the test passes the filter.
  pub mem-filter_by :
      (p : A → Bool) (x : A) (xs : List A) → In x xs → p x ≡ true → In x (filter_by p xs)
  mem-filter_by p x [] m h = absurd m.never
  mem-filter_by p x (y ∷ xs) m h = ground (arith, mem-filter_by p x xs)

  pub any_of-mem : (p : A → Bool) (x : A) (xs : List A) → In x xs → p x ≡ true → any xs p ≡ true
  any_of-mem p x [] m h = absurd m.never
  any_of-mem p x (y ∷ xs) m h = ground (arith, any_of-mem p x xs)

  pub mem_of-any : (p : A → Bool) (xs : List A) → any xs p ≡ true → (x : A) × In x xs × (p x ≡ true)
  mem_of-any p [] h = cc
  mem_of-any p (y ∷ xs) h = elim (Bool-cases (p y)) [
    | inl here ↦ (y, inl refl, here)
    | inr not_here ↦ let (x, m, t) = mem_of-any p xs (ground arith) in (x, inr m, t)
  ]

  -- A test that implies another one finds less.
  pub filter_by-ext :
      (p q : A → Bool) (xs : List A) → ((x : A) → p x ≡ q x) → filter_by p xs ≡ filter_by q xs
  filter_by-ext p q [] h = refl
  filter_by-ext p q (x ∷ xs) h = ground (arith, h x, filter_by-ext p q xs h)

  pub filter_by-All : (p : A → Bool) (xs : List A) → All (λ x. p x ≡ true) xs → filter_by p xs ≡ xs
  filter_by-All p [] h = refl
  filter_by-All p (x ∷ xs) h = ground (arith, filter_by-All p xs h.1)

  abbrev pub sum_by : (A → ℕ) → List A → ℕ
  sum_by f [] = 0
  sum_by f (x ∷ xs) = f x + sum_by f xs

  abbrev pub get_elem? : List A → ℕ → Option A
  get_elem? [] i = none
  get_elem? (x ∷ xs) zero = some x
  get_elem? (x ∷ xs) (suc i) = get_elem? xs i

  -- `xs[i] = v`; out of range, where Go panics, nothing changes.
  abbrev pub set : List A → ℕ → A → List A
  set [] i v = []
  set (x ∷ xs) zero v = v ∷ xs
  set (x ∷ xs) (suc i) v = x ∷ set xs i v

  abbrev pub replicate : ℕ → A → List A
  replicate zero a = []
  replicate (suc n) a = a ∷ replicate n a

  pub get_elem?-set :
      (l : List A) (i j : ℕ) (v : A)
      → i < length l
      → get_elem? (set l i v) j ≡ (if eqb i j then some v else get_elem? l j)
  get_elem?-set [] i j v h = absurd (omega arith)
  get_elem?-set (x ∷ l) zero zero v h = refl
  get_elem?-set (x ∷ l) zero (suc j) v h = ground arith
  get_elem?-set (x ∷ l) (suc i) zero v h = ground arith
  get_elem?-set (x ∷ l) (suc i) (suc j) v h = ground (arith, get_elem?-set l i j v (omega arith))

  pub length-set : (l : List A) (i : ℕ) (v : A) → length (set l i v) ≡ length l
  length-set [] i v = refl
  length-set (x ∷ l) zero v = refl
  length-set (x ∷ l) (suc i) v = ap suc (length-set l i v)

  pub length-replicate : (n : ℕ) (a : A) → length (replicate n a) ≡ n
  length-replicate zero a = refl
  length-replicate (suc n) a = ap suc (length-replicate n a)

  pub get_elem?-some_lt : (l : List A) (i : ℕ) (a : A) → get_elem? l i ≡ some a → i < length l
  get_elem?-some_lt [] i a e = absurd (cc)
  get_elem?-some_lt (x ∷ l) zero a e = omega arith
  get_elem?-some_lt (x ∷ l) (suc i) a e = omega (arith, get_elem?-some_lt l i a e)

  -- A sum after an element has been replaced.
  pub sum_by-set :
      (f : A → ℕ) (l : List A) (i : ℕ) (old v : A)
      → get_elem? l i ≡ some old
      → sum_by f (set l i v) + f old ≡ sum_by f l + f v
  sum_by-set f [] i old v e = absurd (cc)
  sum_by-set f (x ∷ l) zero old v e = ground (arith, e)
  sum_by-set f (x ∷ l) (suc i) old v e = omega (arith, sum_by-set f l i old v e)

  pub sum_by-append : (f : A → ℕ) (xs ys : List A) → sum_by f (xs ++ ys) ≡ sum_by f xs + sum_by f ys
  sum_by-append f [] ys = omega arith
  sum_by-append f (x ∷ xs) ys = omega (arith, sum_by-append f xs ys)

  -- An element that is appended.
  pub get_elem?-append :
      (l : List A) (v : A) (i : ℕ)
      → get_elem? (l ++ v ∷ []) i
        ≡ (if ltb i (length l) then get_elem? l i else if eqb i (length l) then some v else none)
  get_elem?-append [] v zero = refl
  get_elem?-append [] v (suc i) = ground arith
  get_elem?-append (x ∷ l) v zero = ground arith
  get_elem?-append (x ∷ l) v (suc i) = ground (arith, get_elem?-append l v i)

  pub get_elem?-none : (l : List A) (i : ℕ) → ltb i (length l) ≡ false → get_elem? l i ≡ none
  get_elem?-none [] i h = refl
  get_elem?-none (x ∷ l) zero h = absurd (ground (arith, h))
  get_elem?-none (x ∷ l) (suc i) h = get_elem?-none l i (ground (arith, h))
