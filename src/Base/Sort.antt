-- ===== src/Base/Sort.antt =====
-- `sorted` is stable: insertion sort by a Boolean order, which keeps equal keys in their order.
use ot_engineering_demonstra.Base.Text.{str_leb, str_leb_total, str_leb_trans, str_leb_antisym}
use ot_engineering_demonstra.Base.Tests.{if◌then◌else◌, Bool-cases}
use ot_engineering_demonstra.Base.Lists.{
  All, All-contains, All-mono, any, contains, distinct, sum_of,
}
use Prim.Native.Nat.{ℕ, ◌+◌}
use Prim.Native.String.{String}
use mathlib.Core.Path.{◌≡◌, refl, sym, ap, ap₂, ◌∙◌, subst}
use mathlib.Core.Logic.{inl, inr}
use mathlib.Core.Bool.{Bool, true, false, ◌||◌}
use mathlib.Core.List.{List, [], ◌∷◌, map}
use native.Mathlib.Omega.{arith}
use text.Mathlib.Text.{◌==◌}
use text.Mathlib.TextEquality.{eq_iff}

module _ {ℓ} {A : Type ℓ} where
  unfoldable pub insert_by : (A → A → Bool) → A → List A → List A
  insert_by le x [] = x ∷ []
  insert_by le x (y ∷ ys) = if le x y then x ∷ y ∷ ys else y ∷ insert_by le x ys

  -- `sorted(xs, key=...)`, the comparison of the keys given as `le`
  unfoldable pub sort_by : (A → A → Bool) → List A → List A
  unfolding insert_by
  sort_by le [] = []
  sort_by le (x ∷ xs) = insert_by le x (sort_by le xs)

  All-insert_by {κ} :
      (P : A → Type κ) (le : A → A → Bool) (x : A) (xs : List A)
      → P x
      → All P xs
      → All P (insert_by le x xs)
  unfolding insert_by
  All-insert_by P le x [] p h = (p, tt)
  All-insert_by P le x (y ∷ ys) p h = elim (Bool-cases (le x y)) [
    | inl e ↦ rw e (p, h)
    | inr e ↦ rw e (h.0, All-insert_by P le x ys p h.1)
  ]

  pub All-sort_by {κ} :
      (P : A → Type κ) (le : A → A → Bool) (xs : List A) → All P xs → All P (sort_by le xs)
  unfolding sort_by
  All-sort_by P le [] h = tt
  All-sort_by P le (x ∷ xs) h = All-insert_by P le x (sort_by le xs) h.0 (All-sort_by P le xs h.1)

  any-insert_by :
      (p : A → Bool) (le : A → A → Bool) (x : A) (xs : List A)
      → any p (insert_by le x xs) ≡ (p x || any p xs)
  unfolding insert_by
  any-insert_by p le x [] = refl
  any-insert_by p le x (y ∷ ys) = ground (arith, any-insert_by p le x ys)

  -- Sorting neither adds nor drops an element.
  pub any-sort_by :
      (p : A → Bool) (le : A → A → Bool) (xs : List A) → any p (sort_by le xs) ≡ any p xs
  unfolding sort_by
  any-sort_by p le [] = refl
  any-sort_by p le (x ∷ xs) =
      any-insert_by p le x (sort_by le xs) ∙ ap (λ b. p x || b) (any-sort_by p le xs)

  sum_of-insert_by :
      (f : A → ℕ) (le : A → A → Bool) (x : A) (xs : List A)
      → sum_of f (insert_by le x xs) ≡ f x + sum_of f xs
  unfolding insert_by
  sum_of-insert_by f le x [] = refl
  sum_of-insert_by f le x (y ∷ ys) = ground (arith, sum_of-insert_by f le x ys)

  pub sum_of-sort_by :
      (f : A → ℕ) (le : A → A → Bool) (xs : List A) → sum_of f (sort_by le xs) ≡ sum_of f xs
  unfolding sort_by
  sum_of-sort_by f le [] = refl
  sum_of-sort_by f le (x ∷ xs) =
      omega (arith, sum_of-insert_by f le x (sort_by le xs), sum_of-sort_by f le xs)

module _ {ℓ κ} {A : Type ℓ} {B : Type κ} where
  map-insert_by :
      (key : A → B) (le : B → B → Bool) (x : A) (xs : List A)
      → map key (insert_by (λ a b. le (key a) (key b)) x xs) ≡ insert_by le (key x) (map key xs)
  unfolding insert_by
  map-insert_by key le x [] = refl
  map-insert_by key le x (y ∷ ys) = elim (Bool-cases (le (key x) (key y))) [
    | inl e ↦ rw e
    | inr e ↦ rw e (ap (◌∷◌ (key y)) (map-insert_by key le x ys))
  ]

  -- The keys of the sorted list are the sorted keys.
  pub map-sort_by :
      (key : A → B) (le : B → B → Bool) (xs : List A)
      → map key (sort_by (λ a b. le (key a) (key b)) xs) ≡ sort_by le (map key xs)
  unfolding sort_by
  map-sort_by key le [] = refl
  map-sort_by key le (x ∷ xs) =
      map-insert_by key le x (sort_by (λ a b. le (key a) (key b)) xs)
      ∙ ap (insert_by le (key x)) (map-sort_by key le xs)

-- `sorted` of identifiers, and `sorted(items, key=lambda item: item.<identifier>)`
abbrev pub sort : List String → List String
sort = sort_by str_leb

abbrev pub sort_on {ℓ} : {A : Type ℓ} → (A → String) → List A → List A
sort_on key = sort_by (λ a b. str_leb (key a) (key b))

-- Ascending without repetition: each identifier is below all that follow.
abbrev pub Ascends : List String → Type 0
Ascends [] = Unit
Ascends (x ∷ xs) = All (λ y. str_leb x y ≡ true) xs × (contains xs x ≡ false) × Ascends xs

contains-false :
    (xs : List String) (x y : String)
    → contains xs x ≡ false
    → contains xs y ≡ true
    → (x == y) ≡ false
contains-false xs x y absent has = elim (Bool-cases (x == y)) [
  | inl e ↦ let h = subst (λ z. contains xs z ≡ true) (sym ((eq_iff x y).0 e)) has in cc
  | inr e ↦ e
]

insert_by-Ascends :
    (x : String) (xs : List String)
    → contains xs x ≡ false
    → Ascends xs
    → Ascends (insert_by str_leb x xs)
unfolding insert_by
insert_by-Ascends x [] new a = (tt, refl, tt)
insert_by-Ascends x (y ∷ ys) new a = elim (Bool-cases (str_leb x y)) [
  | inl e ↦ rw e ((e, All-mono _ _ ys (λ z h. str_leb_trans x y z e h) a.0), new, a)
  | inr e ↦ rw e (
    All-insert_by (λ z. str_leb y z ≡ true) str_leb x ys (ground (arith, str_leb_total x y)) a.0,
    any-insert_by (λ z. z == y) str_leb x ys ∙ ground (arith, eq_iff x y, eq_iff y x),
    insert_by-Ascends x ys (ground arith) a.2,
  )
]

-- Sorting distinct identifiers gives a strictly ascending list.
pub sort-Ascends : (xs : List String) → distinct xs ≡ true → Ascends (sort xs)
unfolding sort_by
sort-Ascends [] h = tt
sort-Ascends (x ∷ xs) h =
    insert_by-Ascends x (sort xs) (any-sort_by (λ y. y == x) str_leb xs ∙ ground arith)
      (sort-Ascends xs (ground arith))

head_eq :
    (x y : String) (xs ys : List String)
    → Ascends (x ∷ xs)
    → Ascends (y ∷ ys)
    → contains (y ∷ ys) x ≡ true
    → contains (x ∷ xs) y ≡ true
    → x ≡ y
head_eq x y xs ys a b hx hy = elim (Bool-cases (y == x)) [
  | inl e ↦ sym ((eq_iff y x).0 e)
  | inr e ↦
      str_leb_antisym x y
        (All-contains (λ z. str_leb x z ≡ true) xs y a.0 (ground (arith, eq_iff x y, eq_iff y x)))
        (All-contains (λ z. str_leb y z ≡ true) ys x b.0 (ground arith))
]

-- A strictly ascending list is determined by its members.
pub Ascends-eq :
    (xs ys : List String)
    → Ascends xs
    → Ascends ys
    → ((a : String) → contains xs a ≡ contains ys a)
    → xs ≡ ys
Ascends-eq [] [] a b h = refl
Ascends-eq [] (y ∷ ys) a b h = ground (arith, h y, eq_iff y y)
Ascends-eq (x ∷ xs) [] a b h = ground (arith, h x, eq_iff x x)
Ascends-eq (x ∷ xs) (y ∷ ys) a b h =
    let e : x ≡ y =
      head_eq x y xs ys a b (ground (arith, h x, eq_iff x x)) (ground (arith, h y, eq_iff y y)) in
    ap₂ ◌∷◌ e (Ascends-eq xs ys a.2 b.2 λ z. tails z e)
  where
    tails : (z : String) → x ≡ y → contains xs z ≡ contains ys z
    tails z e = elim (Bool-cases (x == z)) [
      | inl t ↦
          let absent = subst (λ w. contains ys w ≡ false) (sym e) b.1 in
          subst (λ w. contains xs w ≡ contains ys w) ((eq_iff x z).0 t) (a.1 ∙ sym absent)
      | inr t ↦ let u = subst (λ w. (w == z) ≡ false) e t in ground (arith, h z)
    ]

-- Tuples of identifiers compare as Python's do: by the first difference, then by length.
unfoldable pub tuple_leb : List String → List String → Bool
tuple_leb [] ys = true
tuple_leb (x ∷ xs) [] = false
tuple_leb (x ∷ xs) (y ∷ ys) = let rest = tuple_leb xs ys in if x == y then rest else str_leb x y
