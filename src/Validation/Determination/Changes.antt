-- ===== src/Validation/Determination/Changes.antt =====
-- The transactions that the determination service runs, as steps from one store to the next; each
-- method of the service is a sequence of them, whatever it returns.
pub mod Calls
pub mod Settled
pub mod Reviewed
pub mod Ended
use ot_engineering_demonstra.Base.{
  String, ℕ, Bool, true, false, List, [], ◌∷◌, ◌≡◌, refl, Result, ok, err, Failure,
}
use ot_engineering_demonstra.Domain.Assurance.{CriterionFindingStatus}
use ot_engineering_demonstra.Validation.{
  ValidationAttempt, ValidationExecution, DeterminationSourceRecord, DeterminationContext,
  CriterionFinding, EngineeringReviewProposal, ExecutedValidationResult,
}
use ot_engineering_demonstra.Validation.Store.{DeterminationStore}
use ot_engineering_demonstra.Validation.Store.Write.{
  insert_produced_source, insert_frozen_context, insert_finding, insert_review_proposal,
  finalise_review, bind_attempt_procedure_execution, capture_repeat_source_baseline,
}
use ot_engineering_demonstra.Validation.Store.Results.{insert_result}
use ot_engineering_demonstra.Validation.Store.Action.{
  Action, ◌>>=◌, pure, write, commit, for_each, require, continue, settle,
}
use ot_engineering_demonstra.Validation.Determination.{DeterminationService}
use ot_engineering_demonstra.Validation.Determination.Review.{
  proposed_review, reviewed, ReviewOutcome,
}
use ot_engineering_demonstra.Validation.Determination.Finalise.{determined_result}

pub data Change (service : DeterminationService) (s s' : DeterminationStore) : Type 0 where
  source_stored :
      (r : DeterminationSourceRecord) → insert_produced_source r s ≡ ok s' → Change service s s'
  baseline_captured : (i j : ℕ) → capture_repeat_source_baseline i j s ≡ ok s' → Change service s s'
  execution_bound :
      (a : ValidationAttempt) (e : ValidationExecution)
      → bind_attempt_procedure_execution a e s ≡ ok s'
      → Change service s s'
  context_frozen :
      (c : DeterminationContext) → insert_frozen_context c s ≡ ok s' → Change service s s'
  finding_stored : (f : CriterionFinding) → insert_finding f s ≡ ok s' → Change service s s'
  review_proposed :
      (i : ℕ) (c : String) (f : CriterionFindingStatus) (actor : String) (t id : ℕ)
      (p : EngineeringReviewProposal)
      → proposed_review service i c f actor t id s ≡ ok p
      → insert_review_proposal p s ≡ ok s'
      → Change service s s'
  review_finalised :
      (i : ℕ) (actor : String) (f : CriterionFindingStatus) (t rid fid : ℕ) (o : ReviewOutcome)
      → reviewed service i actor f t rid fid s ≡ ok o
      → finalise_review o.finalisation o.made s ≡ ok s'
      → Change service s s'
  result_stored :
      (i t id : ℕ) (r : ExecutedValidationResult)
      → determined_result service i t id s ≡ ok r
      → insert_result r s ≡ ok s'
      → Change service s s'

pub data Changes (service : DeterminationService) (s : DeterminationStore)
    : DeterminationStore → Type 0 where
  unchanged : Changes service s s
  then_change :
      {t u : DeterminationStore} → Changes service s t → Change service t u → Changes service s u

pub Changes-trans :
    {service : DeterminationService} {s t u : DeterminationStore}
    → Changes service s t
    → Changes service t u
    → Changes service s u
Changes-trans a unchanged = a
Changes-trans a (then_change b c) = then_change (Changes-trans a b) c

module _ (service : DeterminationService) where
  -- What an action leaves is reached by changes.
  abbrev pub Runs {ℓ} : {A : Type ℓ} → Action A → Type 0
  Runs {A = A} m = (s : DeterminationStore) → Changes service s (m s).1

  pub write-Runs :
      (g : DeterminationStore → Result DeterminationStore)
      → ((s t : DeterminationStore) → g s ≡ ok t → Change service s t)
      → Runs (write g)
  unfolding write
  write-Runs g step s = settled (g s) (λ t e. step s t e)
    where
      settled :
          (r : Result DeterminationStore)
          → ((t : DeterminationStore) → r ≡ ok t → Change service s t)
          → Changes service s (settle s r).1
      settled (ok t) k = then_change unchanged (k t refl)
      settled (err e) k = unchanged

  module _ {ℓ} {A : Type ℓ} where
    pub >>=-Runs {κ} :
        {B : Type κ} (m : Action A) (k : A → Action B)
        → Runs m
        → ((a : A) → Runs (k a))
        → Runs (m >>= k)
    unfolding ◌>>=◌
    >>=-Runs m k hm hk s = continued (m s) (hm s)
      where
        continued :
            (r : Result A × DeterminationStore)
            → Changes service s r.1
            → Changes service s (continue r k).1
        continued (ok a, t) c = Changes-trans c (hk a t)
        continued (err e, t) c = c

    pub commit-Runs :
        (f : DeterminationStore → Result A) (g : A → DeterminationStore → Result DeterminationStore)
        → ((s t : DeterminationStore) (a : A) → f s ≡ ok a → g a s ≡ ok t → Change service s t)
        → Runs (commit f g)
    unfolding commit write ◌>>=◌
    commit-Runs f g step s = computed (f s) (λ a e. e)
      where
        stored :
            (a : A) (w : Result DeterminationStore)
            → ((t : DeterminationStore) → w ≡ ok t → Change service s t)
            → Changes service s (continue (settle s w) (λ done. pure a)).1
        stored a (ok t) k = then_change unchanged (k t refl)
        stored a (err e) k = unchanged

        computed :
            (r : Result A)
            → ((a : A) → r ≡ ok a → f s ≡ ok a)
            → Changes service s (continue (r, s) (λ a. write (g a) >>= λ done. pure a)).1
        computed (ok a) k = stored a (g a s) (λ t e. step s t a (k a refl) e)
        computed (err e) k = unchanged

  pub require-Runs : (b : Bool) (e : Failure) → Runs (require b e)
  unfolding require
  require-Runs true e s = unchanged
  require-Runs false e s = unchanged

  pub for_each-Runs {ℓ κ} :
      {A : Type ℓ} {B : Type κ} (f : A → Action B)
      → ((a : A) → Runs (f a))
      → (xs : List A) → Runs (for_each f xs)
  unfolding for_each
  for_each-Runs f h [] s = unchanged
  for_each-Runs f h (x ∷ xs) s =
      >>=-Runs (f x) _ (h x)
        (λ y. >>=-Runs (for_each f xs) _ (for_each-Runs f h xs) (λ ys s. unchanged)) s
