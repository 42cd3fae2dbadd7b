-- ===== src/Base/Lists.antt =====
-- Lists under native numbers and Boolean tests; sets of identifiers are lists that are tested by
-- membership.
use mathlib.Core.List.{Mem, mem-cons_self, mem-cons_of_mem}
use Prim.Native.Nat.{ℕ, suc, ◌+◌}
use Prim.Native.String.{String}
use mathlib.Core.Path.{◌≡◌, refl, subst}
use mathlib.Core.Bool.{Bool, true, false, not, ◌&&◌, ◌||◌}
use mathlib.Core.Option.{Option, none, some}
use mathlib.Core.List.{List, [], ◌∷◌, ◌++◌, map}
use native.Mathlib.Omega.{arith}
use ot_engineering_demonstra.Base.Tests.{if◌then◌else◌, Bool-cases}
use mathlib.Core.Logic.{inl, inr}
use text.Mathlib.Text.{◌==◌}
use text.Mathlib.TextEquality.{eq_iff}

module _ {ℓ} {A : Type ℓ} where
  abbrev pub length : List A → ℕ
  length [] = 0
  length (x ∷ xs) = suc (length xs)

  abbrev pub filter : (A → Bool) → List A → List A
  filter p [] = []
  filter p (x ∷ xs) = if p x then x ∷ filter p xs else filter p xs

  -- `next(x for x in xs if p(x))`, with `none` where Python has nothing to return.
  abbrev pub find : (A → Bool) → List A → Option A
  find p [] = none
  find p (x ∷ xs) = if p x then some x else find p xs

  abbrev pub any : (A → Bool) → List A → Bool
  any p [] = false
  any p (x ∷ xs) = p x || any p xs

  abbrev pub all : (A → Bool) → List A → Bool
  all p [] = true
  all p (x ∷ xs) = p x && all p xs

  abbrev pub sum_of : (A → ℕ) → List A → ℕ
  sum_of f [] = 0
  sum_of f (x ∷ xs) = f x + sum_of f xs

  -- `xs[-1] if xs else None`
  abbrev pub get_last? : List A → Option A
  get_last? [] = none
  get_last? (x ∷ []) = some x
  get_last? (x ∷ y ∷ xs) = get_last? (y ∷ xs)

  abbrev pub is_empty : List A → Bool
  is_empty [] = true
  is_empty (x ∷ xs) = false

  abbrev pub All {κ} : (A → Type κ) → List A → Type κ
  All P [] = Unit
  All P (x ∷ xs) = P x × All P xs

abbrev pub concat_map {ℓ κ} : {A : Type ℓ} {B : Type κ} → (A → List B) → List A → List B
concat_map f [] = []
concat_map f (x ∷ xs) = f x ++ concat_map f xs

abbrev pub equal_lists {ℓ} : {A : Type ℓ} → (A → A → Bool) → List A → List A → Bool
equal_lists eq [] [] = true
equal_lists eq [] (y ∷ ys) = false
equal_lists eq (x ∷ xs) [] = false
equal_lists eq (x ∷ xs) (y ∷ ys) = eq x y && equal_lists eq xs ys

-- No element is listed twice.
abbrev pub unrepeated {ℓ} : {A : Type ℓ} → (A → A → Bool) → List A → Bool
unrepeated eq [] = true
unrepeated eq (x ∷ xs) = not (any (eq x) xs) && unrepeated eq xs

abbrev pub contains : List String → String → Bool
contains xs a = any (λ x. x == a) xs

-- No identifier is listed twice.
abbrev pub distinct : List String → Bool
distinct [] = true
distinct (x ∷ xs) = not (contains xs x) && distinct xs

-- `set(xs) <= set(ys)` and `set(xs) == set(ys)`
abbrev pub subset : List String → List String → Bool
subset xs ys = all (contains ys) xs

abbrev pub same_set : List String → List String → Bool
same_set xs ys = subset xs ys && subset ys xs

-- The elements of `set(xs)`, each once.
abbrev pub dedup : List String → List String
dedup [] = []
dedup (x ∷ xs) = let rest = dedup xs in if contains xs x then rest else x ∷ rest

-- A dict is an association list: the first entry of a key counts.
abbrev pub Dict {ℓ} : Type ℓ → Type ℓ
Dict V = List (String × V)

module _ {ℓ} {V : Type ℓ} where
  abbrev pub lookup : String → Dict V → Option V
  lookup k [] = none
  lookup k ((j, v) ∷ d) = if j == k then some v else lookup k d

  abbrev pub keys : Dict V → List String
  keys [] = []
  keys ((j, v) ∷ d) = j ∷ keys d

  -- `d[k] = v`
  abbrev pub insert : String → V → Dict V → Dict V
  insert k v [] = (k, v) ∷ []
  insert k v ((j, w) ∷ d) = if j == k then (j, v) ∷ d else (j, w) ∷ insert k v d

  pub lookup-insert :
      (k j : String) (v : V) (d : Dict V)
      → lookup j (insert k v d) ≡ (if k == j then some v else lookup j d)
  lookup-insert k j v [] = refl
  lookup-insert k j v ((i, w) ∷ d) =
      ground (arith, eq_iff k j, eq_iff i k, eq_iff i j, lookup-insert k j v d)

  pub lookup-contains :
      (k : String) (d : Dict V) → contains (keys d) k ≡ true → (v : V) × (lookup k d ≡ some v)
  lookup-contains k [] h = ground arith
  lookup-contains k ((j, w) ∷ d) h = elim (Bool-cases (j == k)) [
    | inl e ↦ (w, rw e)
    | inr e ↦ rw e (lookup-contains k d (rw e at h))
  ]

module _ {ℓ} {A : Type ℓ} where
  pub length-append : (xs ys : List A) → length (xs ++ ys) ≡ length xs + length ys
  length-append [] ys = omega arith
  length-append (x ∷ xs) ys = omega (arith, length-append xs ys)

  pub sum_of-append : (f : A → ℕ) (xs ys : List A) → sum_of f (xs ++ ys) ≡ sum_of f xs + sum_of f ys
  sum_of-append f [] ys = omega arith
  sum_of-append f (x ∷ xs) ys = omega (arith, sum_of-append f xs ys)

  -- A test splits a sum in two.
  pub sum_of-filter :
      (f : A → ℕ) (p : A → Bool) (xs : List A)
      → sum_of f (filter p xs) + sum_of f (filter (λ x. not (p x)) xs) ≡ sum_of f xs
  sum_of-filter f p [] = omega arith
  sum_of-filter f p (x ∷ xs) = ground (arith, sum_of-filter f p xs)

  pub All-filter {κ} :
      (P : A → Type κ) (p : A → Bool) (xs : List A) → All P xs → All P (filter p xs)
  All-filter P p [] h = tt
  All-filter P p (x ∷ xs) h = elim (Bool-cases (p x)) [
    | inl e ↦ rw e (h.0, All-filter P p xs h.1)
    | inr e ↦ rw e (All-filter P p xs h.1)
  ]

  pub All-filter_test : (p : A → Bool) (xs : List A) → All (λ x. p x ≡ true) (filter p xs)
  All-filter_test p [] = tt
  All-filter_test p (x ∷ xs) = elim (Bool-cases (p x)) [
    | inl e ↦ rw e (e, All-filter_test p xs)
    | inr e ↦ rw e (All-filter_test p xs)
  ]

  pub All-append {κ} : (P : A → Type κ) (xs ys : List A) → All P xs → All P ys → All P (xs ++ ys)
  All-append P [] ys hx hy = hy
  All-append P (x ∷ xs) ys hx hy = (hx.0, All-append P xs ys hx.1 hy)

  pub All-mono {κ μ} :
      (P : A → Type κ) (Q : A → Type μ) (xs : List A) → ((x : A) → P x → Q x) → All P xs → All Q xs
  All-mono P Q [] f h = tt
  All-mono P Q (x ∷ xs) f h = (f x h.0, All-mono P Q xs f h.1)

  -- What `find` returns passes the test, and has what every element has.
  pub find-test : (p : A → Bool) (xs : List A) (x : A) → find p xs ≡ some x → p x ≡ true
  find-test p [] x h = ground arith
  find-test p (y ∷ xs) x h = elim (Bool-cases (p y)) [
    | inl e ↦ ground arith
    | inr e ↦ find-test p xs x (rw e at h)
  ]

  pub All-find {κ} :
      (P : A → Type κ) (p : A → Bool) (xs : List A) (x : A) → All P xs → find p xs ≡ some x → P x
  All-find P p [] x h e = ground arith
  All-find P p (y ∷ xs) x h e = elim (Bool-cases (p y)) [
    | inl t ↦ let e' = rw t at e in subst P (cc) h.0
    | inr t ↦ All-find P p xs x h.1 (rw t at e)
  ]

  pub find-any : (p : A → Bool) (xs : List A) → any p xs ≡ true → (x : A) × (find p xs ≡ some x)
  find-any p [] h = ground arith
  find-any p (y ∷ xs) h = elim (Bool-cases (p y)) [
    | inl e ↦ (y, rw e)
    | inr e ↦ rw e (find-any p xs (rw e at h))
  ]

  pub any-map {κ} :
      {B : Type κ} (f : B → A) (p : A → Bool) (xs : List B)
      → any p (map f xs) ≡ any (λ x. p (f x)) xs
  any-map f p [] = refl
  any-map f p (x ∷ xs) = rw (any-map f p xs)

  -- A test that no element passes fails on each.
  pub any-false : (p : A → Bool) (xs : List A) → any p xs ≡ false → All (λ x. p x ≡ false) xs
  any-false p [] h = tt
  any-false p (x ∷ xs) h = (ground arith, any-false p xs (ground arith))

  pub all-true : (p : A → Bool) (xs : List A) → all p xs ≡ true → All (λ x. p x ≡ true) xs
  all-true p [] h = tt
  all-true p (x ∷ xs) h = (ground arith, all-true p xs (ground arith))

-- Facts on all identifiers of a list hold of a member.
pub All-contains {κ} :
    (P : String → Type κ) (xs : List String) (a : String) → All P xs → contains xs a ≡ true → P a
All-contains P [] a h m = ground arith
All-contains P (x ∷ xs) a h m = elim (Bool-cases (x == a)) [
  | inl e ↦ subst P ((eq_iff x a).0 e) h.0
  | inr e ↦ All-contains P xs a h.1 (rw e at m)
]

pub contains-append :
    (xs ys : List String) (a : String) → contains (xs ++ ys) a ≡ (contains xs a || contains ys a)
contains-append [] ys a = refl
contains-append (x ∷ xs) ys a = ground (arith, contains-append xs ys a)

pub subset-contains :
    (xs ys : List String) (a : String)
    → subset xs ys ≡ true
    → contains xs a ≡ true
    → contains ys a ≡ true
subset-contains xs ys a h m = All-contains (λ x. contains ys x ≡ true) xs a (all-true _ xs h) m

module _ {ℓ κ μ} {A : Type ℓ} {B : Type κ} (Q : B → Type μ) where
  pub All-map : (f : A → B) (xs : List A) → All (λ x. Q (f x)) xs → All Q (map f xs)
  All-map f [] h = tt
  All-map f (x ∷ xs) h = (h.0, All-map f xs h.1)

  pub All-concat_map :
      (f : A → List B) (xs : List A) → All (λ x. All Q (f x)) xs → All Q (concat_map f xs)
  All-concat_map f [] h = tt
  All-concat_map f (x ∷ xs) h = All-append Q (f x) (concat_map f xs) h.0 (All-concat_map f xs h.1)

pub All-Mem {ℓ} : {A : Type ℓ} (xs : List A) → All (λ x. Mem x xs) xs
All-Mem [] = tt
All-Mem (x ∷ xs) = (mem-cons_self, All-mono _ _ xs (λ y h. mem-cons_of_mem x h) (All-Mem xs))

pub All-of {ℓ κ} : {A : Type ℓ} (P : A → Type κ) (xs : List A) → ((x : A) → P x) → All P xs
All-of P [] f = tt
All-of P (x ∷ xs) f = (f x, All-of P xs f)

pub any_mono {ℓ} :
    {A : Type ℓ} (p q : A → Bool) (xs : List A)
    → ((x : A) → p x ≡ true → q x ≡ true)
    → any p xs ≡ true
    → any q xs ≡ true
any_mono p q [] f h = h
any_mono p q (x ∷ xs) f h = elim (Bool-cases (p x)) [
  | inl e ↦ rw (f x e)
  | inr e ↦ let rest = any_mono p q xs f (rw e at h) in ground arith
]

module _ {ℓ κ μ} {A : Type ℓ} (P : A → Type κ) (Q : A → Type μ) where
  pub All-both : (xs : List A) → All P xs → All Q xs → All (λ x. P x × Q x) xs
  All-both [] p q = tt
  All-both (x ∷ xs) p q = ((p.0, q.0), All-both xs p.1 q.1)

-- What holds of all elements holds of one that passes the test.
pub All-any {ℓ κ} :
    {A : Type ℓ} (P : A → Type κ) (p : A → Bool) (xs : List A)
    → All P xs
    → any p xs ≡ true
    → (x : A) × P x × (p x ≡ true)
All-any P p xs h t = let (x, e) = find-any p xs t in (x, All-find P p xs x h e, find-test p xs x e)

abbrev enter {ℓ} : {V : Type ℓ} → Dict V → List (String × V) → Dict V
enter d [] = d
enter d ((k, v) ∷ rest) = enter (insert k v d) rest

-- `{key(x): x for x in xs}` and other dicts built from pairs: the last pair of a key counts.
abbrev pub dict_of {ℓ} : {V : Type ℓ} → List (String × V) → Dict V
dict_of pairs = enter [] pairs

abbrev pub by_id {ℓ} : {A : Type ℓ} → (A → String) → List A → Dict A
by_id key xs = dict_of (map (λ x. (key x, x)) xs)
