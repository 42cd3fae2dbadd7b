-- ===== src/Base/Totals.antt =====
-- The total of the elements of a list that have a property, and lists of which one has it.
use mathlib.Core.Bool.{Bool, true, or-true}
use mathlib.Core.Logic.{◌↔◌, ◌⊎◌, inl, inr}
use mathlib.Core.List.{List, [], ◌∷◌, map}
use mathlib.Core.Path.{◌≡◌, refl, ap, ◌∙◌, sym}
use native.Mathlib.Omega.{arith}
use Prim.Native.Nat.{ℕ, ◌+◌}
use ot_engineering_demonstra.Base.Tests.{Bool-cases, if◌then◌else◌}
use ot_engineering_demonstra.Base.Lists.{any, filter, sum_of}
use ot_engineering_demonstra.Base.Sort.{sort_by, sum_of-sort_by}

-- The total of the elements that have the property.
pub data Counts {ℓ κ} {A : Type ℓ} (P : A → Type κ) (f : A → ℕ) : List A → ℕ → Type (ℓ ⊔ κ) where
  none_left : Counts P f [] 0
  counted : {x : A} {xs : List A} {n : ℕ} → P x → Counts P f xs n → Counts P f (x ∷ xs) (f x + n)
  passed_over : {x : A} {xs : List A} {n : ℕ} → (¬ P x) → Counts P f xs n → Counts P f (x ∷ xs) n

pub Counts-filter {ℓ κ} :
    {A : Type ℓ} (P : A → Type κ) (f : A → ℕ) (q : A → Bool) (same : (x : A) → (q x ≡ true) ↔ P x)
    (xs : List A)
    → Counts P f xs (sum_of f (filter q xs))
Counts-filter P f q same [] = none_left
Counts-filter P f q same (x ∷ xs) = elim (Bool-cases (q x)) [
  | inl e ↦ rw e (counted ((same x).0 e) (Counts-filter P f q same xs))
  | inr e ↦ rw e (
      passed_over (λ p. let t = (same x).1 p in let w = rw e at t in cc)
        (Counts-filter P f q same xs))
]

-- One of the elements, at least, has the property.
abbrev pub SomeOf {ℓ} : {A : Type ℓ} → (A → Type 0) → List A → Type 0
SomeOf P [] = ⊥
SomeOf P (x ∷ xs) = P x ⊎ SomeOf P xs

pub any-SomeOf {ℓ} :
    {A : Type ℓ} (q : A → Bool) (P : A → Type 0) (same : (x : A) → (q x ≡ true) ↔ P x) (xs : List A)
    → (any q xs ≡ true) ↔ SomeOf P xs
any-SomeOf q P same [] = (λ h. ground arith, λ h. absurd h)
any-SomeOf q P same (x ∷ xs) =
    let (to, from) = any-SomeOf q P same xs in
    (
      λ h. elim (Bool-cases (q x)) [ inl e ↦ inl ((same x).0 e) | inr e ↦ inr (to (rw e at h)) ],
      λ h. elim h [ inl p ↦ rw ((same x).1 p) refl | inr r ↦ rw (from r) (or-true (q x)) ],
    )

pub sum_of-map {ℓ κ} :
    {A : Type ℓ} {B : Type κ} (f : A → B) (g : B → ℕ) (xs : List A)
    → sum_of g (map f xs) ≡ sum_of (λ x. g (f x)) xs
sum_of-map f g [] = refl
sum_of-map f g (x ∷ xs) = ap (g (f x) +◌) (sum_of-map f g xs)

sum_of-filter_if {ℓ} :
    {A : Type ℓ} (f : A → ℕ) (p : A → Bool) (xs : List A)
    → sum_of f (filter p xs) ≡ sum_of (λ x. if p x then f x else 0) xs
sum_of-filter_if f p [] = refl
sum_of-filter_if f p (x ∷ xs) = ground (arith, sum_of-filter_if f p xs)

pub sum_of-filter_sort {ℓ} :
    {A : Type ℓ} (f : A → ℕ) (p : A → Bool) (le : A → A → Bool) (xs : List A)
    → sum_of f (filter p (sort_by le xs)) ≡ sum_of f (filter p xs)
sum_of-filter_sort f p le xs =
    sum_of-filter_if f p (sort_by le xs)
    ∙ sum_of-sort_by (λ x. if p x then f x else 0) le xs
    ∙ sym (sum_of-filter_if f p xs)
