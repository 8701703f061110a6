-- ===== src/Prelude/Sorting.antt =====
-- `sort.Slice` by a string key, `less(i, j) = key(i) < key(j)`, as an insertion sort. Go's sort is not
-- stable: the two agree where the keys are different, which the laws assume.
use hive_agent.Prelude.Tests.{if◌then◌else◌, Bool-cases}
use hive_agent.Prelude.Lists.{In, All, All-In, filter_by}
use hive_agent.Prelude.Text.{str_lt}
use hive_agent.Prelude.Order.{str_lt_irrefl, str_lt_trans, str_lt_total}
use Prim.Native.String.{String}
use mathlib.Core.Path.{◌≡◌, refl, sym, ap, ap₂, subst, ◌∙◌}
use mathlib.Core.Logic.{◌≢◌, ◌↔◌, ◌⊎◌, inl, inr}
use mathlib.Core.Bool.{Bool, true, false}
use mathlib.Core.List.{List, [], ◌∷◌, Permᴰ}
use native.Mathlib.Omega.{arith}

module _ {ℓ} {A : Type ℓ} where
  pub All-imp {κ μ} :
      (P : A → Type κ) (Q : A → Type μ) (l : List A) → ((x : A) → P x → Q x) → All P l → All Q l
  All-imp P Q [] f h = tt
  All-imp P Q (x ∷ l) f h = (f x h.0, All-imp P Q l f h.1)

  pub All-perm {κ} : (P : A → Type κ) {l m : List A} → Permᴰ l m → All P l → All P m
  All-perm P Permᴰ.nil h = tt
  All-perm P (Permᴰ.cons e p) h = (subst P e h.0, All-perm P p h.1)
  All-perm P (Permᴰ.swap e f) h = (subst P f h.1.0, (subst P e h.0, h.1.1))
  All-perm P (Permᴰ.trans p q) h = All-perm P q (All-perm P p h)

  pub All-filter_by : (P : A → Type 0) (p : A → Bool) (l : List A) → All P l → All P (filter_by p l)
  All-filter_by P p [] h = tt
  All-filter_by P p (x ∷ l) h = ground (arith, All-filter_by P p l h.1)

module _ {ℓ} {A : Type ℓ} (key : A → String) where
  unfoldable pub insert_by : A → List A → List A
  insert_by x [] = x ∷ []
  insert_by x (y ∷ ys) =
      let later = insert_by x ys in if str_lt (key y) (key x) then y ∷ later else x ∷ y ∷ ys

  unfoldable pub sort_by : List A → List A
  unfolding insert_by
  sort_by [] = []
  sort_by (x ∷ xs) = insert_by x (sort_by xs)

  -- Each key is smaller than all later ones.
  abbrev pub Ascending : List A → Type ℓ
  Ascending [] = Unit
  Ascending (x ∷ xs) = All (λ y. str_lt (key x) (key y) ≡ true) xs × Ascending xs

  -- No two keys are equal.
  abbrev pub Distinct : List A → Type ℓ
  Distinct [] = Unit
  Distinct (x ∷ xs) = All (λ y. key x ≢ key y) xs × Distinct xs

  -- Inserting puts in the new element, and only it.
  pub mem-insert_by : (a x : A) (l : List A) → In a (insert_by x l) ↔ ((a ≡ x) ⊎ In a l)
  unfolding insert_by
  mem-insert_by a x [] = (λ m. m, λ m. m)
  mem-insert_by a x (y ∷ l) =
      let (to, from) = mem-insert_by a x l in (λ m. ground (arith, to), λ m. ground (arith, from))

  -- Sorting keeps the elements.
  pub mem-sort_by : (a : A) (l : List A) → In a (sort_by l) ↔ In a l
  unfolding sort_by
  mem-sort_by a [] = (λ m. m, λ m. m)
  mem-sort_by a (x ∷ l) =
      let (to, from) = mem-insert_by a x (sort_by l) in
      let (to', from') = mem-sort_by a l in
      (λ m. ground (arith, to m, to'), λ m. from (ground (arith, from')))

  insert_by_swap :
      (x y : A) (l : List A)
      → key x ≢ key y
      → insert_by x (insert_by y l) ≡ insert_by y (insert_by x l)
  unfolding insert_by
  insert_by_swap x y [] h = ground (
    arith,
    str_lt_total (key x) (key y),
    str_lt_trans (key x) (key y) (key x),
    str_lt_irrefl (key x),
  )
  insert_by_swap x y (z ∷ l) h = ground (
    arith,
    insert_by_swap x y l h,
    str_lt_total (key x) (key y),
    str_lt_trans (key x) (key y) (key x),
    str_lt_irrefl (key x),
    str_lt_trans (key z) (key x) (key y),
    str_lt_trans (key z) (key y) (key x),
  )

  All-insert_by : (P : A → Type 0) (x : A) (l : List A) → P x → All P l → All P (insert_by x l)
  unfolding insert_by
  All-insert_by P x [] h a = (h, tt)
  All-insert_by P x (y ∷ l) h a = ground (arith, All-insert_by P x l h a.1)

  All-sort_by : (P : A → Type 0) (l : List A) → All P l → All P (sort_by l)
  unfolding sort_by
  All-sort_by P [] h = tt
  All-sort_by P (x ∷ l) h = All-insert_by P x (sort_by l) h.0 (All-sort_by P l h.1)

  above_of :
      (x y : A) → key x ≢ key y → str_lt (key y) (key x) ≡ false → str_lt (key x) (key y) ≡ true
  above_of x y h e = elim (str_lt_total (key x) (key y)) [
    | inl less ↦ less
    | inr (inl same) ↦ absurd (h same)
    | inr (inr more) ↦ cc
  ]

  insert_by-Ascending :
      (x : A) (l : List A) → All (λ y. key x ≢ key y) l → Ascending l → Ascending (insert_by x l)
  unfolding insert_by
  insert_by-Ascending x [] h a = (tt, tt)
  insert_by-Ascending x (y ∷ l) h a = elim (Bool-cases (str_lt (key y) (key x))) [
    | inl below ↦ rw below (
      All-insert_by (λ z. str_lt (key y) (key z) ≡ true) x l below a.0,
      insert_by-Ascending x l h.1 a.1,
    )
    | inr above ↦
        let less = above_of x y h.0 above in
        rw above ((less, All-imp _ _ l (λ z q. str_lt_trans (key x) (key y) (key z) less q) a.0), a)
  ]

  -- A list with different keys is sorted strictly.
  pub sort_by-Ascending : (l : List A) → Distinct l → Ascending (sort_by l)
  unfolding sort_by
  sort_by-Ascending [] d = tt
  sort_by-Ascending (x ∷ l) d =
      insert_by-Ascending x (sort_by l) (All-sort_by (λ y. key x ≢ key y) l d.0)
        (sort_by-Ascending l d.1)

  Distinct-perm : {l m : List A} → Permᴰ l m → Distinct l → Distinct m
  Distinct-perm Permᴰ.nil d = tt
  Distinct-perm (Permᴰ.cons {a} {b} {l₁} {l₂} e p) d = (
    subst (λ c. All (λ y. key c ≢ key y) l₂) e (All-perm (λ y. key a ≢ key y) p d.0),
    Distinct-perm p d.1,
  )
  Distinct-perm (Permᴰ.swap {a} {b} {a'} {b'} {l} e f) d = (
    (
      λ q. d.0.0 (ap key e ∙ sym q ∙ ap key (sym f)),
      subst (λ c. All (λ y. key c ≢ key y) l) f d.1.0,
    ),
    (subst (λ c. All (λ y. key c ≢ key y) l) e d.0.1, d.1.1),
  )
  Distinct-perm (Permᴰ.trans p q) d = Distinct-perm q (Distinct-perm p d)

  -- With different keys the result does not depend on the order of the input.
  pub sort_by-perm : {l m : List A} → Permᴰ l m → Distinct l → sort_by l ≡ sort_by m
  unfolding sort_by
  sort_by-perm Permᴰ.nil d = refl
  sort_by-perm (Permᴰ.cons e p) d = ap₂ insert_by e (sort_by-perm p d.1)
  sort_by-perm (Permᴰ.swap {a} {b} {l} e f) d =
      insert_by_swap a b (sort_by l) d.0.0 ∙ ap₂ (λ x y. insert_by x (insert_by y (sort_by l))) f e
  sort_by-perm (Permᴰ.trans p q) d = sort_by-perm p d ∙ sort_by-perm q (Distinct-perm p d)

  insert_by_below :
      (x : A) (l : List A) → All (λ y. str_lt (key x) (key y) ≡ true) l → insert_by x l ≡ x ∷ l
  unfolding insert_by
  insert_by_below x [] h = refl
  insert_by_below x (y ∷ l) h =
      ground (arith, str_lt_trans (key x) (key y) (key x), str_lt_irrefl (key x))

  filter_by-insert_by :
      (p : A → Bool) (x : A) (l : List A)
      → All (λ y. key x ≢ key y) l
      → Ascending l
      → filter_by p (insert_by x l) ≡ (if p x then insert_by x (filter_by p l) else filter_by p l)
  unfolding insert_by
  filter_by-insert_by p x [] h a = ground arith
  filter_by-insert_by p x (y ∷ l) h a = elim (Bool-cases (str_lt (key y) (key x))) [
    | inl below ↦ ground (arith, filter_by-insert_by p x l h.1 a.1)
    | inr above ↦
        let less = above_of x y h.0 above in
        let rest = All-imp _ _ l (λ z q. str_lt_trans (key x) (key y) (key z) less q) a.0 in
        let first =
          insert_by_below x (filter_by p (y ∷ l))
            (All-filter_by (λ z. str_lt (key x) (key z) ≡ true) p (y ∷ l) (less, rest)) in
        rw (above, first) (ground arith)
  ]

  -- A filter may be applied before or after the sort.
  pub filter_by-sort_by :
      (p : A → Bool) (l : List A) → Distinct l → filter_by p (sort_by l) ≡ sort_by (filter_by p l)
  unfolding sort_by
  filter_by-sort_by p [] d = refl
  filter_by-sort_by p (x ∷ l) d = ground (
    arith,
    filter_by-sort_by p l d.1,
    filter_by-insert_by p x (sort_by l) (All-sort_by (λ y. key x ≢ key y) l d.0)
        (sort_by-Ascending l d.1),
  )

  Below : A → A → Type 0
  Below x y = str_lt (key x) (key y) ≡ true

  Below-irrefl : (x : A) → ¬ Below x x
  unfolding Below
  Below-irrefl x b = cc (b, str_lt_irrefl (key x))

  heads_equal :
      (x y : A) (xs ys : List A)
      → All (Below x) xs
      → All (Below y) ys
      → In x (y ∷ ys)
      → In y (x ∷ xs)
      → x ≡ y
  unfolding Below
  heads_equal x y xs ys bx by (inl e) m = e
  heads_equal x y xs ys bx by (inr n) (inl e) = sym e
  heads_equal x y xs ys bx by (inr n) (inr m) =
      let down = All-In (Below y) ys by x n in
      let up = All-In (Below x) xs bx y m in
      absurd (Below-irrefl x (str_lt_trans (key x) (key y) (key x) up down))

  tail_of :
      (x y : A) (xs ys : List A)
      → x ≡ y
      → All (Below x) xs
      → ((a : A) → In a (x ∷ xs) → In a (y ∷ ys))
      → (a : A) → In a xs
      → In a ys
  tail_of x y xs ys e bx to a m = elim (to a (inr m)) [
    | inl f ↦
        let again : In x xs = subst (λ (z : A). In z xs) (f ∙ sym e) m in
        absurd (Below-irrefl x (All-In (Below x) xs bx x again))
    | inr n ↦ n
  ]

  -- Two strictly ascending lists with the same elements are equal.
  pub Ascending-ext :
      (xs ys : List A) → Ascending xs → Ascending ys → ((a : A) → In a xs ↔ In a ys) → xs ≡ ys
  unfolding Below
  Ascending-ext [] [] ax ay same = refl
  Ascending-ext [] (y ∷ ys) ax ay same = absurd (((same y).1 (inl refl)).never)
  Ascending-ext (x ∷ xs) [] ax ay same = absurd (((same x).0 (inl refl)).never)
  Ascending-ext (x ∷ xs) (y ∷ ys) ax ay same =
      let to : (a : A) → In a (x ∷ xs) → In a (y ∷ ys) = λ a. (same a).0 in
      let from : (a : A) → In a (y ∷ ys) → In a (x ∷ xs) = λ a. (same a).1 in
      let e = heads_equal x y xs ys ax.0 ay.0 (to x (inl refl)) (from y (inl refl)) in
      let tails =
        Ascending-ext xs ys ax.1 ay.1
          (λ a. (tail_of x y xs ys e ax.0 to a, tail_of y x ys xs (sym e) ay.0 from a)) in
      ap₂ (λ (a : A) (l : List A). a ∷ l) e tails
