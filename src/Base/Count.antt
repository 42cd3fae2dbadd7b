-- ===== src/Base/Count.antt =====
-- Counting by a key: how often the identifiers of a list occur among the elements of another.
use Prim.Native.Nat.{ℕ, ◌+◌, ◌≤◌}
use Prim.Native.String.{String}
use mathlib.Core.Path.{◌≡◌, refl, sym, ap, ◌∙◌, subst}
use mathlib.Core.Logic.{inl, inr}
use mathlib.Core.Bool.{Bool, true, false, ◌||◌}
use mathlib.Core.List.{List, [], ◌∷◌}
use native.Mathlib.Omega.{arith}
use text.Mathlib.Text.{◌==◌}
use text.Mathlib.TextEquality.{eq_iff}
use ot_engineering_demonstra.Base.Tests.{Bool-cases}
use ot_engineering_demonstra.Base.Lists.{
  All, All-contains, contains, dedup, distinct, filter, is_empty, length, sum_of,
}

module _ {ℓ} {A : Type ℓ} where
  pub length-filter_le : (p : A → Bool) (xs : List A) → length (filter p xs) ≤ length xs
  length-filter_le p [] = omega arith
  length-filter_le p (x ∷ xs) = ground (arith, length-filter_le p xs)

  -- A test that keeps the length keeps every element.
  pub length-filter-All :
      (p : A → Bool) (xs : List A) → length (filter p xs) ≡ length xs → All (λ x. p x ≡ true) xs
  length-filter-All p [] h = tt
  length-filter-All p (x ∷ xs) h = elim (Bool-cases (p x)) [
    | inl e ↦ (e, length-filter-All p xs (ground arith))
    | inr e ↦ let le = length-filter_le p xs in ground arith
  ]

  pub All-length-filter :
      (p : A → Bool) (xs : List A) → All (λ x. p x ≡ true) xs → length (filter p xs) ≡ length xs
  All-length-filter p [] h = refl
  All-length-filter p (x ∷ xs) h = let (px, hx) = h in ground (arith, All-length-filter p xs hx)

  pub is_empty-filter :
      (p : A → Bool) (xs : List A) → is_empty (filter p xs) ≡ true → All (λ x. p x ≡ false) xs
  is_empty-filter p [] h = tt
  is_empty-filter p (x ∷ xs) h = elim (Bool-cases (p x)) [
    | inl e ↦ ground arith
    | inr e ↦ (e, is_empty-filter p xs (rw e at h))
  ]

  pub All-is_empty-filter :
      (p : A → Bool) (xs : List A) → All (λ x. p x ≡ false) xs → is_empty (filter p xs) ≡ true
  All-is_empty-filter p [] h = refl
  All-is_empty-filter p (x ∷ xs) h = let (px, hx) = h in ground (arith, All-is_empty-filter p xs hx)

  pub sum_of-ones : (f : A → ℕ) (xs : List A) → All (λ x. f x ≡ 1) xs → sum_of f xs ≡ length xs
  sum_of-ones f [] h = refl
  sum_of-ones f (x ∷ xs) h = let (fx, hx) = h in omega (arith, fx, sum_of-ones f xs hx)

module _ {ℓ} {A : Type ℓ} (key : A → String) where
  abbrev pub count : String → List A → ℕ
  count i xs = length (filter (λ x. key x == i) xs)

  abbrev pub covered : List String → List A → ℕ
  covered ids xs = length (filter (λ x. contains ids (key x)) xs)

  covered-cons :
      (i : String) (ids : List String) (xs : List A)
      → contains ids i ≡ false
      → covered (i ∷ ids) xs ≡ count i xs + covered ids xs
  covered-cons i ids [] h = omega arith
  covered-cons i ids (x ∷ xs) h = elim (Bool-cases (i == key x)) [
    | inl e ↦
        let p = (eq_iff i (key x)).0 e in
        let q = (eq_iff (key x) i).1 (sym p) in
        let c = subst (λ k. contains ids k ≡ false) p h in ground (arith, covered-cons i ids xs h)
    | inr e ↦ ground (arith, eq_iff i (key x), eq_iff (key x) i, covered-cons i ids xs h)
  ]

  covered-none : (xs : List A) → covered [] xs ≡ 0
  covered-none [] = refl
  covered-none (x ∷ xs) = covered-none xs

  -- Distinct identifiers occur together as often as elements have one of them.
  pub sum_of-count :
      (ids : List String) (xs : List A)
      → distinct ids ≡ true
      → sum_of (λ i. count i xs) ids ≡ covered ids xs
  sum_of-count [] xs h = sym (covered-none xs)
  sum_of-count (i ∷ ids) xs h =
      let c : contains ids i ≡ false = ground arith in
      let d : distinct ids ≡ true = ground arith in
      omega (arith, covered-cons i ids xs c, sum_of-count ids xs d)

pub contains-dedup : (xs : List String) (a : String) → contains (dedup xs) a ≡ contains xs a
contains-dedup [] a = refl
contains-dedup (x ∷ xs) a = elim (Bool-cases (contains xs x)) [
  | inl e ↦ elim (Bool-cases (x == a)) [
    | inl p ↦
        let c = subst (λ k. contains xs k ≡ true) ((eq_iff x a).0 p) e in
        rw (e, p) (contains-dedup xs a ∙ c)
    | inr p ↦ rw (e, p) (contains-dedup xs a)
  ]
  | inr e ↦ rw e (ap (λ b. x == a || b) (contains-dedup xs a))
]

pub distinct-dedup : (xs : List String) → distinct (dedup xs) ≡ true
distinct-dedup [] = refl
distinct-dedup (x ∷ xs) = elim (Bool-cases (contains xs x)) [
  | inl e ↦ rw e (distinct-dedup xs)
  | inr e ↦ rw e (rw (contains-dedup xs x ∙ e, distinct-dedup xs))
]

module _ {κ} (P : String → Type κ) where
  pub All-dedup : (xs : List String) → All P xs → All P (dedup xs)
  All-dedup [] h = tt
  All-dedup (x ∷ xs) h = elim (Bool-cases (contains xs x)) [
    | inl e ↦ rw e (All-dedup xs h.1)
    | inr e ↦ rw e (h.0, All-dedup xs h.1)
  ]

  pub All-of_dedup : (xs : List String) → All P (dedup xs) → All P xs
  All-of_dedup [] h = tt
  All-of_dedup (x ∷ xs) h = elim (Bool-cases (contains xs x)) [
    | inl e ↦ let rest = All-of_dedup xs (rw e at h) in (All-contains P xs x rest e, rest)
    | inr e ↦ let h' = rw e at h in (h'.0, All-of_dedup xs h'.1)
  ]
