-- ===== src/Base/Outcome.antt =====
-- Python's exceptions as values, and loops whose body may raise.
use mathlib.Core.List.{Mem}
use mathlib.Core.Path.{◌≡◌, refl, sym, ap, ◌∙◌, subst}
use mathlib.Core.Bool.{Bool, true, false, or-true}
use mathlib.Core.Logic.{◌⊎◌, inl, inr}
use native.Mathlib.Omega.{arith}
use text.Mathlib.Text.{◌==◌}
use text.Mathlib.TextEquality.{eq_iff}
use text.Mathlib.TextPositions.{eq_refl}
use mathlib.Core.Option.{Option, none, some}
use mathlib.Core.List.{List, [], ◌∷◌, ◌++◌, map}
use Prim.Native.String.{String}
use Prim.Native.Nat.{ℕ, ◌+◌}
use ot_engineering_demonstra.Base.Tests.{if◌then◌else◌, Bool-cases}
use ot_engineering_demonstra.Base.Lists.{
  All, All-Mem, All-append, All-both, All-mono, contains, distinct, filter,
}

-- The classes of exception that the modelled code can raise.
pub data Failure : Type 0 where
  key_error stop_iteration division_error invalid_operation overflow_error validation_error :
      Failure
  topology_input_error outage_configuration_mismatch : Failure
  boundary_error command_conflict record_not_found integrity_error : Failure
  hook_failure index_error : Failure
  catalogue_error determination_error source_adapter_error normalisation_error : Failure
  type_error validation_conflict validation_not_found assurance_error validation_error_boundary :
      Failure
  suspension_provenance_error assertion_error : Failure

pub data Result {ℓ} (A : Type ℓ) : Type ℓ where
  ok : A → Result A
  err : Failure → Result A

abbrev pub or_raise {ℓ} : {A : Type ℓ} → Option A → Failure → Result A
or_raise none e = err e
or_raise (some a) e = ok a

abbrev pub succeeds {ℓ} : {A : Type ℓ} → Result A → Bool
succeeds (ok a) = true
succeeds (err e) = false

-- `if not passed: raise failure`
abbrev pub guard : Bool → Failure → Result (Unit {0})
guard false failure = err failure
guard true failure = ok tt

infixl 5 ◌>>=◌
infixl 5 ◌>>◌
-- The rest of a body runs on what its first part returns.
abbrev pub ◌>>=◌ {ℓ κ} :
    {A : Type ℓ} {B : Type κ} (first : Result A) (rest : A → Result B) → Result B
err failure >>= rest = err failure
ok value >>= rest = rest value

abbrev pub ◌>>◌ {κ} : {B : Type κ} → Result (Unit {0}) → Result B → Result B
first >> rest = first >>= λ done. rest

module _ {ℓ} {A : Type ℓ} where
  -- A comprehension whose condition may raise.
  abbrev pub filter_m : (A → Result Bool) → List A → Result (List A)
  filter_m p [] = ok []
  filter_m p (x ∷ xs) = do keep ← p x; rest ← filter_m p xs; ok (if keep then x ∷ rest else rest)

  -- A comprehension whose element may raise.
  abbrev pub map_m {κ} : {B : Type κ} → (A → Result B) → List A → Result (List B)
  map_m f [] = ok []
  map_m f (x ∷ xs) = do y ← f x; ys ← map_m f xs; ok (y ∷ ys)

  -- `sum` over elements that may raise
  abbrev pub sum_m : (A → Result ℕ) → List A → Result ℕ
  sum_m f [] = ok 0
  sum_m f (x ∷ xs) = do n ← f x; m ← sum_m f xs; ok (n + m)

  -- A nested loop that appends to one list.
  abbrev pub concat_m {κ} : {B : Type κ} → (A → Result (List B)) → List A → Result (List B)
  concat_m f [] = ok []
  concat_m f (x ∷ xs) = do ys ← f x; zs ← concat_m f xs; ok (ys ++ zs)

  pub >>=-eq-ok {κ} :
      {B : Type κ} (first : Result A) (rest : A → Result B) {b : B}
      → (first >>= rest) ≡ ok b
      → (value : A) × (first ≡ ok value) × (rest value ≡ ok b)
  >>=-eq-ok (err failure) rest h = cc
  >>=-eq-ok (ok value) rest h = (value, refl, h)

  pub guard-eq-ok :
      (t : Bool) (e : Failure) (k : Result A) {a : A}
      → (guard t e >> k) ≡ ok a
      → (t ≡ true) × (k ≡ ok a)
  guard-eq-ok true e k h = (refl, h)
  guard-eq-ok false e k h = cc

  -- Where the condition never raises, `filter_m` is `filter`.
  pub filter_m-filter :
      (p : A → Result Bool) (q : A → Bool) (xs : List A)
      → All (λ x. p x ≡ ok (q x)) xs
      → filter_m p xs ≡ ok (filter q xs)
  filter_m-filter p q [] h = refl
  filter_m-filter p q (x ∷ xs) h = rw (h.0, filter_m-filter p q xs h.1)

module _ {ℓ κ} {A : Type ℓ} {B : Type κ} where
  -- Every element that `map_m` returns came from an element of the input.
  pub All-map_m {μ} :
      (P : A → Type μ) (Q : B → Type μ) (f : A → Result B) (xs : List A)
      → ((x : A) (y : B) → P x → f x ≡ ok y → Q y)
      → All P xs
      → {ys : List B} → map_m f xs ≡ ok ys
      → All Q ys
  All-map_m P Q f [] step h {ys} e = subst (All Q) {x = []} (cc) tt
  All-map_m P Q f (x ∷ xs) step h {ys} e =
      let (y, ey, r) = >>=-eq-ok (f x) (λ y. map_m f xs >>= λ ys. ok (y ∷ ys)) e in
      let (zs, ez, q) = >>=-eq-ok (map_m f xs) (λ ys. ok (y ∷ ys)) r in
      subst (All Q) {x = y ∷ zs} (cc) (step x y h.0 ey, All-map_m P Q f xs step h.1 ez)

  -- The same for `concat_m`, by what each round returns.
  pub All-concat_m {μ} :
      (P : A → Type μ) (Q : B → Type μ) (f : A → Result (List B)) (xs : List A)
      → ((x : A) (ys : List B) → P x → f x ≡ ok ys → All Q ys)
      → All P xs
      → {ys : List B} → concat_m f xs ≡ ok ys
      → All Q ys
  All-concat_m P Q f [] step h {ys} e = subst (All Q) {x = []} (cc) tt
  All-concat_m P Q f (x ∷ xs) step h {ys} e =
      let (us, eu, r) = >>=-eq-ok (f x) (λ us. concat_m f xs >>= λ vs. ok (us ++ vs)) e in
      let (vs, ev, q) = >>=-eq-ok (concat_m f xs) (λ vs. ok (us ++ vs)) r in
      subst (All Q) {x = us ++ vs} (cc)
        (All-append Q us vs (step x us h.0 eu) (All-concat_m P Q f xs step h.1 ev))

pub ok-injective {ℓ} : {A : Type ℓ} {a b : A} → ok a ≡ ok b → a ≡ b
ok-injective h = cc

pub some-injective {ℓ} : {A : Type ℓ} {a b : A} → some a ≡ some b → a ≡ b
some-injective h = cc

pub or_raise-eq-ok {ℓ} :
    {A : Type ℓ} (o : Option A) (e : Failure) {a : A} → or_raise o e ≡ ok a → o ≡ some a
or_raise-eq-ok none e h = cc
or_raise-eq-ok (some a) e h = cc

-- A value that is returned behind a guard, or two, is the value.
pub guard-ok {ℓ} :
    {A : Type ℓ} (s : Bool) (e : Failure) (a : A) {b : A} → (guard s e >> ok a) ≡ ok b → a ≡ b
guard-ok true e a h = cc
guard-ok false e a h = cc

pub guard-guard-ok {ℓ} :
    {A : Type ℓ} (s t : Bool) (e : Failure) (a : A) {b : A}
    → (guard s e >> (guard t e >> ok a)) ≡ ok b
    → a ≡ b
guard-guard-ok true t e a h = guard-ok t e a h
guard-guard-ok false t e a h = cc

module _ {ℓ} {A : Type ℓ} (key : A → String) where
  pub All-keys_listed : (xs : List A) → All (λ z. contains (map key xs) (key z) ≡ true) xs
  All-keys_listed [] = tt
  All-keys_listed (x ∷ xs) =
      (rw eq_refl, All-mono _ _ xs (λ z h. rw h (or-true (key x == key z))) (All-keys_listed xs))

module _ {ℓ} {A : Type ℓ} (key : A → String) (p : A → Result Bool) where
  filter_m-contains :
      (xs : List A) (k : String) {ys : List A}
      → filter_m p xs ≡ ok ys
      → contains (map key ys) k ≡ true
      → contains (map key xs) k ≡ true
  filter_m-contains [] k {ys} h c = subst (λ zs. contains (map key zs) k ≡ true) {y = []} (cc) c
  filter_m-contains (x ∷ xs) k {ys} h c =
      let (keep, px, r) = >>=-eq-ok (p x) _ h in
      let (rest, pr, q) = >>=-eq-ok (filter_m p xs) _ r in
      still_listed keep rest (filter_m-contains xs k pr)
        (subst (λ zs. contains (map key zs) k ≡ true) {y = if keep then x ∷ rest else rest} (cc) c)
    where
      still_listed :
          (keep : Bool) (rest : List A)
          → (contains (map key rest) k ≡ true → contains (map key xs) k ≡ true)
          → contains (map key (if keep then x ∷ rest else rest)) k ≡ true
          → contains (map key (x ∷ xs)) k ≡ true
      still_listed false rest ih c' = rw (ih c') (or-true (key x == k))
      still_listed true rest ih c' = ground (arith, ih)

  -- Where keys are distinct, a key that is kept belongs to an element that was kept.
  pub filter_m-kept :
      (xs : List A) {ys : List A}
      → distinct (map key xs) ≡ true
      → filter_m p xs ≡ ok ys
      → All (λ x. contains (map key ys) (key x) ≡ true → p x ≡ ok true) xs
  filter_m-kept [] d h = tt
  filter_m-kept (x ∷ xs) {ys} d h =
      let (keep, px, r) = >>=-eq-ok (p x) _ h in
      let (rest, pr, q) = >>=-eq-ok (filter_m p xs) _ r in
      subst (λ zs. All (λ z. contains (map key zs) (key z) ≡ true → p z ≡ ok true) (x ∷ xs))
        {x = if keep then x ∷ rest else rest} (cc)
        (
          head_kept keep rest px pr,
          All-mono _ _ xs (λ z b. tail_kept keep rest z b.0 b.1)
              (All-both _ _ xs (All-keys_listed key xs) (filter_m-kept xs (ground arith) pr)),
        )
    where
      head_kept :
          (keep : Bool) (rest : List A)
          → p x ≡ ok keep
          → filter_m p xs ≡ ok rest
          → contains (map key (if keep then x ∷ rest else rest)) (key x) ≡ true
          → p x ≡ ok true
      head_kept true rest px pr c = px
      head_kept false rest px pr c = let l = filter_m-contains xs (key x) pr c in ground arith

      tail_kept :
          (keep : Bool) (rest : List A) (z : A)
          → contains (map key xs) (key z) ≡ true
          → (contains (map key rest) (key z) ≡ true → p z ≡ ok true)
          → contains (map key (if keep then x ∷ rest else rest)) (key z) ≡ true
          → p z ≡ ok true
      tail_kept false rest z l ih c = ih c
      tail_kept true rest z l ih c = elim (Bool-cases (key x == key z)) [
        | inl e ↦
            let l' =
              subst (λ k. contains (map key xs) k ≡ true) (sym ((eq_iff (key x) (key z)).0 e)) l in
            ground arith
        | inr e ↦ ih (ground arith)
      ]

-- What a comprehension keeps passes its condition.
pub filter_m-All {ℓ} :
    {A : Type ℓ} (p : A → Result Bool) (xs : List A) {ys : List A}
    → filter_m p xs ≡ ok ys
    → All (λ y. p y ≡ ok true) ys
filter_m-All p [] {ys} h = subst (All (λ y. p y ≡ ok true)) {x = []} {y = ys} (ok-injective h) tt
filter_m-All p (x ∷ xs) {ys} h =
    let (keep, e, h1) = >>=-eq-ok (p x) _ h in
    let (rest, r, h2) = >>=-eq-ok (filter_m p xs) _ h1 in
    let all_rest = filter_m-All p xs r in
    subst (All (λ y. p y ≡ ok true)) (ok-injective h2)
      (elim (Bool-cases keep) [ inl t ↦ rw t (e ∙ ap ok t, all_rest) | inr f ↦ rw f all_rest ])

filter_m-kept_fact {ℓ κ} :
    {A : Type ℓ} (P : A → Type κ) (p : A → Result Bool) (xs : List A) {ys : List A}
    → All P xs
    → filter_m p xs ≡ ok ys
    → All (λ y. P y × (p y ≡ ok true)) ys
filter_m-kept_fact P p [] {ys} a h =
    subst (All (λ y. P y × (p y ≡ ok true))) {x = []} {y = ys} (ok-injective h) tt
filter_m-kept_fact P p (x ∷ xs) {ys} a h =
    let (keep, e, h1) = >>=-eq-ok (p x) _ h in
    let (rest, r, h2) = >>=-eq-ok (filter_m p xs) _ h1 in
    let all_rest = filter_m-kept_fact P p xs a.1 r in
    subst (All (λ y. P y × (p y ≡ ok true))) (ok-injective h2) (elim (Bool-cases keep) [
      | inl t ↦ rw t ((a.0, e ∙ ap ok t), all_rest)
      | inr f ↦ rw f all_rest
    ])

-- What `filter_m` keeps was there, and passes the test.
pub filter_m-Mem {ℓ} :
    {A : Type ℓ} (p : A → Result Bool) (xs : List A) {ys : List A}
    → filter_m p xs ≡ ok ys
    → All (λ y. Mem y xs × (p y ≡ ok true)) ys
filter_m-Mem p xs h = filter_m-kept_fact (λ y. Mem y xs) p xs (All-Mem xs) h

-- A body that branches returned from one of its branches.
pub branch-eq-ok {ℓ} :
    {A : Type ℓ} (b : Bool) (x y : Result A) {a : A}
    → (elim b [ false ↦ x | true ↦ y ]) ≡ ok a
    → ((b ≡ true) × (y ≡ ok a)) ⊎ ((b ≡ false) × (x ≡ ok a))
branch-eq-ok true x y h = inl (refl, h)
branch-eq-ok false x y h = inr (refl, h)

pub option-eq-ok {ℓ κ} :
    {A : Type ℓ} {B : Type κ} (o : Option B) (x : Result A) (f : B → Result A) {a : A}
    → (elim o [ none ↦ x | some b ↦ f b ]) ≡ ok a
    → ((b : B) × (o ≡ some b) × (f b ≡ ok a)) ⊎ (x ≡ ok a)
option-eq-ok none x f h = inr h
option-eq-ok (some b) x f h = inl (b, refl, h)

-- The same, with the case of no value kept.
pub option-none-ok {ℓ κ} :
    {A : Type ℓ} {B : Type κ} (o : Option B) (x : Result A) (f : B → Result A) {a : A}
    → (elim o [ none ↦ x | some b ↦ f b ]) ≡ ok a
    → ((b : B) × (o ≡ some b) × (f b ≡ ok a)) ⊎ ((o ≡ none) × (x ≡ ok a))
option-none-ok none x f h = inr (refl, h)
option-none-ok (some b) x f h = inl (b, refl, h)

-- The same of a conditional.
pub if-eq-ok {ℓ} :
    {A : Type ℓ} (b : Bool) (x y : Result A) {a : A}
    → (if b then x else y) ≡ ok a
    → ((b ≡ true) × (x ≡ ok a)) ⊎ ((b ≡ false) × (y ≡ ok a))
if-eq-ok true x y h = inl (refl, h)
if-eq-ok false x y h = inr (refl, h)

-- Two lists of one length, related element by element.
pub data Pairwise {ℓ κ μ} {A : Type ℓ} {B : Type κ} (R : A → B → Type μ)
    : List A → List B → Type (ℓ ⊔ κ ⊔ μ) where
  both_empty : Pairwise R [] []
  paired :
      {x : A} {y : B} {xs : List A} {ys : List B}
      → R x y
      → Pairwise R xs ys
      → Pairwise R (x ∷ xs) (y ∷ ys)

-- What a comprehension returns is related to its input as each element is.
pub map_m-Pairwise {ℓ κ μ} :
    {A : Type ℓ} {B : Type κ} (R : A → B → Type μ) (f : A → Result B) (xs : List A)
    → ((x : A) (y : B) → f x ≡ ok y → R x y)
    → {ys : List B} → map_m f xs ≡ ok ys
    → Pairwise R xs ys
map_m-Pairwise R f [] step {ys} e = subst (Pairwise R []) {x = []} (cc) both_empty
map_m-Pairwise R f (x ∷ xs) step {ys} e =
    let (y, ey, r) = >>=-eq-ok (f x) (λ y. map_m f xs >>= λ ys. ok (y ∷ ys)) e in
    let (zs, ez, q) = >>=-eq-ok (map_m f xs) (λ ys. ok (y ∷ ys)) r in
    subst (Pairwise R (x ∷ xs)) {x = y ∷ zs} (cc)
      (paired (step x y ey) (map_m-Pairwise R f xs step ez))
