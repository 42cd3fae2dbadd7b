-- ===== src/Validation/Store/Action.antt =====
-- The methods of the determination service run transactions one after another: what an earlier one
-- stored stays when a later step raises. An action is a computation of that kind.
use ot_engineering_demonstra.Base.{
  ◌≡◌, refl, ap, subst, ok-injective, Bool, true, false, List, [], ◌∷◌, Failure, Result, ok, err,
}
use ot_engineering_demonstra.Validation.Store.{DeterminationStore}

abbrev pub Action {ℓ} : Type ℓ → Type ℓ
Action A = DeterminationStore → Result A × DeterminationStore

module _ {ℓ} {A : Type ℓ} where
  abbrev pub pure : A → Action A
  pure a store = (ok a, store)

  abbrev pub raise : Failure → Action A
  raise failure store = (err failure, store)

  -- What is computed from the store, and what may raise, without a change.
  abbrev pub lift : Result A → Action A
  lift r store = (r, store)

  abbrev pub read : (DeterminationStore → Result A) → Action A
  read f store = (f store, store)

  abbrev pub look : (DeterminationStore → A) → Action A
  look f store = (ok (f store), store)

abbrev pub settle :
    DeterminationStore → Result DeterminationStore → Result (Unit {0}) × DeterminationStore
settle store (ok store') = (ok tt, store')
settle store (err failure) = (err failure, store)

-- One transaction: it is stored as a whole or not at all.
unfoldable pub write : (DeterminationStore → Result DeterminationStore) → Action (Unit {0})
write f store = settle store (f store)

infixl 5 ◌>>=◌
infixl 5 ◌>>◌
abbrev pub continue {ℓ κ} :
    {A : Type ℓ} {B : Type κ}
    → Result A × DeterminationStore
    → (A → Action B)
    → Result B × DeterminationStore
continue (err failure, store) rest = (err failure, store)
continue (ok a, store) rest = rest a store

unfoldable pub ◌>>=◌ {ℓ κ} : {A : Type ℓ} {B : Type κ} → Action A → (A → Action B) → Action B
◌>>=◌ first rest store = continue (first store) rest

abbrev pub ◌>>◌ {κ} : {B : Type κ} → Action (Unit {0}) → Action B → Action B
first >> rest = first >>= λ done. rest

-- A value is computed of the store, stored in one transaction, and returned.
unfoldable pub commit {ℓ} :
    {A : Type ℓ}
    → (DeterminationStore → Result A)
    → (A → DeterminationStore → Result DeterminationStore)
    → Action A
commit f g = read f >>= λ a. write (g a) >> pure a

-- `if not passed: raise failure`
unfoldable pub require : Bool → Failure → Action (Unit {0})
require true failure store = (ok tt, store)
require false failure store = (err failure, store)

module _ {ℓ κ} {A : Type ℓ} {B : Type κ} where
  -- A loop that collects what its rounds return.
  unfoldable pub for_each : (A → Action B) → List A → Action (List B)
  for_each f [] = pure []
  for_each f (x ∷ xs) = f x >>= λ y. for_each f xs >>= λ ys. pure (y ∷ ys)

module _ {ℓ} {A : Type ℓ} where
  -- A commit that returns has computed its value and stored it.
  pub commit-eq-ok :
      (f : DeterminationStore → Result A) (g : A → DeterminationStore → Result DeterminationStore)
      (s : DeterminationStore) {a : A} {s' : DeterminationStore}
      → commit f g s ≡ (ok a, s')
      → (f s ≡ ok a) × (g a s ≡ ok s')
  unfolding commit write ◌>>=◌
  commit-eq-ok f g s h = stored (f s) h
    where
      stored_as :
          (a : A) (w : Result DeterminationStore) {b : A} {s' : DeterminationStore}
          → continue (settle s w) (λ done. pure a) ≡ (ok b, s')
          → (a ≡ b) × (w ≡ ok s')
      stored_as a (ok t) h = (cc, cc)
      stored_as a (err e) h = cc

      stored :
          (r : Result A) {b : A} {s' : DeterminationStore}
          → continue (r, s) (λ a. write (g a) >> pure a) ≡ (ok b, s')
          → (r ≡ ok b) × (g b s ≡ ok s')
      stored (ok a) {b} {s'} h =
          let (p, q) = stored_as a (g a s) h in (cc, subst (λ c. g c s ≡ ok s') p q)
      stored (err e) h = cc

  -- A commit that raises has stored nothing.
  pub commit-refused :
      (f : DeterminationStore → Result A) (g : A → DeterminationStore → Result DeterminationStore)
      (s : DeterminationStore) {e : Failure}
      → (commit f g s).0 ≡ err e
      → (commit f g s).1 ≡ s
  unfolding commit write ◌>>=◌
  commit-refused f g s h = kept (f s) h
    where
      kept_as :
          (a : A) (w : Result DeterminationStore) {e : Failure}
          → (continue (settle s w) (λ done. pure a)).0 ≡ err e
          → (continue (settle s w) (λ done. pure a)).1 ≡ s
      kept_as a (ok t) h = cc
      kept_as a (err e) h = refl

      kept :
          (r : Result A) {e : Failure}
          → (continue (r, s) (λ a. write (g a) >> pure a)).0 ≡ err e
          → (continue (r, s) (λ a. write (g a) >> pure a)).1 ≡ s
      kept (ok a) h = kept_as a (g a s) h
      kept (err e) h = refl

module _ {ℓ κ} {A : Type ℓ} {B : Type κ} where
  -- The first part of an action that returns has returned.
  pub >>=-eq-ok :
      (first : Action A) (rest : A → Action B) (s : DeterminationStore) {b : B}
      {s' : DeterminationStore}
      → (first >>= rest) s ≡ (ok b, s')
      → (a : A) × (t : DeterminationStore) × (first s ≡ (ok a, t)) × (rest a t ≡ (ok b, s'))
  unfolding ◌>>=◌
  >>=-eq-ok first rest s h = passed (first s) h
    where
      passed :
          (r : Result A × DeterminationStore) {b : B} {s' : DeterminationStore}
          → continue r rest ≡ (ok b, s')
          → (a : A) × (t : DeterminationStore) × (r ≡ (ok a, t)) × (rest a t ≡ (ok b, s'))
      passed (ok a, t) h = (a, t, refl, h)
      passed (err e, t) h = cc

pub pure-eq-ok {ℓ} :
    {A : Type ℓ} (a : A) (s : DeterminationStore) {b : A} {t : DeterminationStore}
    → pure a s ≡ (ok b, t)
    → (a ≡ b) × (s ≡ t)
pure-eq-ok a s h = (ok-injective (ap (λ p. p.0) h), ap (λ p. p.1) h)

-- After a part that only reads, the rest runs on the same store.
module _ {ℓ κ} {A : Type ℓ} {B : Type κ} where
  pub lift-eq-ok :
      (r : Result A) (k : A → Action B) (s : DeterminationStore) {b : B} {t : DeterminationStore}
      → (lift r >>= k) s ≡ (ok b, t)
      → (a : A) × (r ≡ ok a) × (k a s ≡ (ok b, t))
  unfolding ◌>>=◌
  lift-eq-ok (ok a) k s h = (a, refl, h)
  lift-eq-ok (err e) k s h = cc

  pub read-eq-ok :
      (f : DeterminationStore → Result A) (k : A → Action B) (s : DeterminationStore) {b : B}
      {t : DeterminationStore}
      → (read f >>= k) s ≡ (ok b, t)
      → (a : A) × (f s ≡ ok a) × (k a s ≡ (ok b, t))
  unfolding ◌>>=◌
  read-eq-ok f k s h = lift-eq-ok (f s) k s h

  pub look-eq-ok :
      (f : DeterminationStore → A) (k : A → Action B) (s : DeterminationStore) {b : B}
      {t : DeterminationStore}
      → (look f >>= k) s ≡ (ok b, t)
      → k (f s) s ≡ (ok b, t)
  unfolding ◌>>=◌
  look-eq-ok f k s h = h

module _ {κ} {B : Type κ} where
  pub require-eq-ok :
      (b : Bool) (e : Failure) (k : Action B) (s : DeterminationStore) {c : B}
      {t : DeterminationStore}
      → (require b e >> k) s ≡ (ok c, t)
      → (b ≡ true) × (k s ≡ (ok c, t))
  unfolding ◌>>=◌ require
  require-eq-ok true e k s h = (refl, h)
  require-eq-ok false e k s h = cc

  pub write-eq-ok :
      (g : DeterminationStore → Result DeterminationStore) (k : Action B) (s : DeterminationStore)
      {c : B} {t : DeterminationStore}
      → (write g >> k) s ≡ (ok c, t)
      → (u : DeterminationStore) × (g s ≡ ok u) × (k u ≡ (ok c, t))
  unfolding ◌>>=◌ write
  write-eq-ok g k s h = stored (g s) h
    where
      stored :
          (r : Result DeterminationStore) {c : B} {t : DeterminationStore}
          → continue (settle s r) (λ done. k) ≡ (ok c, t)
          → (u : DeterminationStore) × (r ≡ ok u) × (k u ≡ (ok c, t))
      stored (ok u) h = (u, refl, h)
      stored (err e) h = cc
