-- ===== src/Outage/Order.antt =====
-- Filtering and ordering lists of identifiers, for the comparison of sections with mappings.
use ot_engineering_demonstra.Base.{
  String, ◌==◌, Bool, true, false, ◌&&◌, List, [], ◌∷◌, ◌++◌, map, filter, contains, distinct,
  same_set, subset-contains, All, Bool-cases, Bool-ext, inl, inr, and_true, ◌≡◌, refl, sym, ap,
  subst, ◌∙◌, arith, eq_iff, eq_refl, contains-append,
}
use ot_engineering_demonstra.Base.Sort.{sort, Ascends, sort-Ascends, Ascends-eq, any-sort_by}
use ot_engineering_demonstra.Outage.{same_list}

pub same_list_refl : (xs : List String) → same_list xs xs ≡ true
same_list_refl [] = refl
same_list_refl (x ∷ xs) = rw (eq_refl, same_list_refl xs)

module _ {ℓ} {A : Type ℓ} (key : A → String) (p : A → Bool) where
  pub contains-filter_sub :
      (xs : List A) (a : String)
      → contains (map key (filter p xs)) a ≡ true
      → contains (map key xs) a ≡ true
  contains-filter_sub [] a h = h
  contains-filter_sub (x ∷ xs) a h = ground (arith, contains-filter_sub xs a)

  All-map-filter {κ} :
      (P : String → Type κ) (xs : List A) → All P (map key xs) → All P (map key (filter p xs))
  All-map-filter P [] h = tt
  All-map-filter P (x ∷ xs) h = elim (Bool-cases (p x)) [
    | inl e ↦ rw e (h.0, All-map-filter P xs h.1)
    | inr e ↦ rw e (All-map-filter P xs h.1)
  ]

  -- What a filter keeps of an ascending list ascends.
  pub Ascends-filter : (xs : List A) → Ascends (map key xs) → Ascends (map key (filter p xs))
  Ascends-filter [] h = tt
  Ascends-filter (x ∷ xs) h =
      let rest = Ascends-filter xs h.2 in
      elim (Bool-cases (p x)) [
        | inl e ↦ rw e (
          All-map-filter _ xs h.0,
          Bool-ext _ false (λ c. let c' = contains-filter_sub xs (key x) c in cc) (λ f. cc),
          rest,
        )
        | inr e ↦ rw e rest
      ]

pub contains-filter :
    (q : String → Bool) (xs : List String) (a : String)
    → contains (filter q xs) a ≡ (contains xs a && q a)
contains-filter q [] a = refl
contains-filter q (x ∷ xs) a = elim (Bool-cases (x == a)) [
  | inl e ↦ let s = (eq_iff x a).0 e in ground (arith, contains-filter q xs a, ap q s)
  | inr e ↦ ground (arith, contains-filter q xs a)
]

pub map_id_filter {ℓ} :
    {A : Type ℓ} (key : A → String) (q : String → Bool) (xs : List A)
    → map key (filter (λ x. q (key x)) xs) ≡ filter q (map key xs)
map_id_filter key q [] = refl
map_id_filter key q (x ∷ xs) = ground (arith, map_id_filter key q xs)

distinct-append :
    (xs ys : List String) → distinct (xs ++ ys) ≡ true → (distinct xs ≡ true) × (distinct ys ≡ true)
distinct-append [] ys h = (refl, h)
distinct-append (x ∷ xs) ys h = ground (arith, distinct-append xs ys, contains-append xs ys x)

pub distinct-left : (xs ys : List String) → distinct (xs ++ ys) ≡ true → distinct xs ≡ true
distinct-left xs ys h = (distinct-append xs ys h).0

pub distinct-right : (xs ys : List String) → distinct (xs ++ ys) ≡ true → distinct ys ≡ true
distinct-right xs ys h = (distinct-append xs ys h).1

-- Two lists of distinct identifiers with the same members are sorted into the same list.
pub sort-same_set :
    (xs ys : List String)
    → distinct xs ≡ true
    → distinct ys ≡ true
    → same_set xs ys ≡ true
    → sort xs ≡ sort ys
sort-same_set xs ys dx dy h =
    let (left, right) = and_true _ _ h in
    Ascends-eq (sort xs) (sort ys) (sort-Ascends xs dx) (sort-Ascends ys dy) λ a.
      any-sort_by (λ x. x == a) _ xs
      ∙ Bool-ext _ _ (subset-contains xs ys a left) (subset-contains ys xs a right)
      ∙ sym (any-sort_by (λ x. x == a) _ ys)

map_same : (xs : List String) → map (λ x. x) xs ≡ xs
map_same [] = refl
map_same (x ∷ xs) = ap (x ∷◌) (map_same xs)

Ascends-filter_ids : (q : String → Bool) (xs : List String) → Ascends xs → Ascends (filter q xs)
Ascends-filter_ids q xs h =
    subst Ascends (map_same (filter q xs))
      (Ascends-filter (λ x. x) q xs (subst Ascends (sym (map_same xs)) h))

-- Of an ascending list, the keys that a test keeps are the keys that are listed among them.
pub filter-listed {ℓ} :
    {A : Type ℓ} (key : A → String) (p : A → Bool) (xs : List A)
    → Ascends (map key xs)
    → filter (contains (map key (filter p xs))) (map key xs) ≡ map key (filter p xs)
filter-listed key p xs h =
    let kept = map key (filter p xs) in
    Ascends-eq _ _ (Ascends-filter_ids (contains kept) (map key xs) h) (Ascends-filter key p xs h)
      λ a.
        contains-filter (contains kept) (map key xs) a
        ∙ Bool-ext _ _ (λ c. (and_true _ _ c).1)
            (λ c. let s = contains-filter_sub key p xs a c in ground arith)
