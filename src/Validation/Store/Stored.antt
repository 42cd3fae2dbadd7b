-- ===== src/Validation/Store/Stored.antt =====
-- What each transaction of the determination repository adds, and what it leaves as it was.
use ot_engineering_demonstra.Base.{
  ℕ, nat_eq, true, false, ◌&&◌, ◌≡◌, refl, sym, ◌∙◌, subst, Option, none, some, List, [], ◌∷◌, ◌++◌,
  any, find, ok, or_raise, >>=-eq-ok, ok-injective, or_raise-eq-ok, if-eq-ok, inl, inr, arith,
  validation_conflict,
}
use ot_engineering_demonstra.Domain.Assurance.{is_open_attempt, is_not_started, executed}
use ot_engineering_demonstra.Validation.{
  ValidationAttempt, ValidationExecution, DeterminationSourceRecord, DeterminationContext,
  CriterionFinding, EngineeringReviewProposal, EngineeringReviewFinalisation,
  ExecutedValidationResult,
}
use ot_engineering_demonstra.Validation.Store.{
  DeterminationStore, get_execution, store_if, store_if-eq-ok,
}
use ot_engineering_demonstra.Validation.Store.Write.{
  insert_produced_source, insert_frozen_context, insert_finding, insert_review_proposal,
  finalise_review, bind_attempt_procedure_execution, capture_repeat_source_baseline,
  finding_allowed, replace_attempt, result_readable,
}
use ot_engineering_demonstra.Validation.Store.Results.{
  insert_result, has_row, execute_attempt, result_allowed, finalise_execution_of,
  finalise_scenario_execution, finalise_procedure_execution,
}

-- The tables that the invariants of a determination speak of.
abbrev pub Stores :
    DeterminationStore
    → List ValidationAttempt
    → List CriterionFinding
    → List ExecutedValidationResult
    → List EngineeringReviewProposal
    → List EngineeringReviewFinalisation
    → Type 0
Stores t attempts findings results proposals finalisations =
    (t.attempts ≡ attempts)
    × (t.findings ≡ findings)
    × (t.results ≡ results)
    × (t.proposals ≡ proposals)
    × (t.finalisations ≡ finalisations)

abbrev pub Same : DeterminationStore → DeterminationStore → Type 0
Same s t = Stores t s.attempts s.findings s.results s.proposals s.finalisations

pub insert_produced_source-Same :
    (r : DeterminationSourceRecord) (s : DeterminationStore) {t : DeterminationStore}
    → insert_produced_source r s ≡ ok t
    → Same s t
unfolding insert_produced_source
insert_produced_source-Same r s h =
    let (allowed, stored) = store_if-eq-ok _ _ h in
    subst (Same s) stored (refl, refl, refl, refl, refl)

pub insert_frozen_context-Same :
    (c : DeterminationContext) (s : DeterminationStore) {t : DeterminationStore}
    → insert_frozen_context c s ≡ ok t
    → Same s t
unfolding insert_frozen_context
insert_frozen_context-Same c s h =
    let (allowed, stored) = store_if-eq-ok _ _ h in
    subst (Same s) stored (refl, refl, refl, refl, refl)

pub capture_repeat_source_baseline-Same :
    (i j : ℕ) (s : DeterminationStore) {t : DeterminationStore}
    → capture_repeat_source_baseline i j s ≡ ok t
    → Same s t
unfolding capture_repeat_source_baseline
capture_repeat_source_baseline-Same i j s h =
    let (source, a, h1) = >>=-eq-ok (get_execution j s) _ h in
    let (done, b, h2) = >>=-eq-ok (result_readable source.executed_result_id s) _ h1 in
    let (allowed, stored) = store_if-eq-ok _ _ h2 in
    subst (Same s) stored (refl, refl, refl, refl, refl)

pub bind_attempt_procedure_execution-stored :
    (a : ValidationAttempt) (e : ValidationExecution) (s : DeterminationStore)
    {t : DeterminationStore}
    → bind_attempt_procedure_execution a e s ≡ ok t
    → (any
          (λ b. nat_eq b.validation_attempt_id a.validation_attempt_id && is_not_started b.status)
          s.attempts
        ≡ true)
      × Stores t (replace_attempt a s.attempts) s.findings s.results s.proposals s.finalisations
unfolding bind_attempt_procedure_execution
bind_attempt_procedure_execution-stored a e s h =
    let (allowed, stored) = store_if-eq-ok _ _ h in
    (
      ground arith,
      subst
          (λ t.
            Stores t (replace_attempt a s.attempts) s.findings s.results s.proposals
              s.finalisations)
          stored (refl, refl, refl, refl, refl),
    )

pub insert_finding-stored :
    (f : CriterionFinding) (s : DeterminationStore) {t : DeterminationStore}
    → insert_finding f s ≡ ok t
    → (finding_allowed f s ≡ true)
      × Stores t s.attempts (s.findings ++ (f ∷ [])) s.results s.proposals s.finalisations
unfolding insert_finding
insert_finding-stored f s h =
    let (allowed, stored) = store_if-eq-ok _ _ h in
    (
      allowed,
      subst
          (λ t. Stores t s.attempts (s.findings ++ (f ∷ [])) s.results s.proposals s.finalisations)
          stored (refl, refl, refl, refl, refl),
    )

pub insert_review_proposal-stored :
    (p : EngineeringReviewProposal) (s : DeterminationStore) {t : DeterminationStore}
    → insert_review_proposal p s ≡ ok t
    → (any (λ q. nat_eq q.review_proposal_id p.review_proposal_id) s.proposals ≡ false)
      × Stores t s.attempts s.findings s.results (s.proposals ++ (p ∷ [])) s.finalisations
unfolding insert_review_proposal
insert_review_proposal-stored p s h =
    let (allowed, stored) = store_if-eq-ok _ _ h in
    (
      ground arith,
      subst
          (λ t. Stores t s.attempts s.findings s.results (s.proposals ++ (p ∷ [])) s.finalisations)
          stored (refl, refl, refl, refl, refl),
    )

pub finalise_review-stored :
    (r : EngineeringReviewFinalisation) (f : CriterionFinding) (s : DeterminationStore)
    {t : DeterminationStore}
    → finalise_review r f s ≡ ok t
    → (finding_allowed f s ≡ true)
      × Stores t s.attempts
          (s.findings ++ (f ∷ []))
          s.results
          s.proposals
          (s.finalisations ++ (r ∷ []))
unfolding finalise_review
finalise_review-stored r f s h =
    let (allowed, stored) = store_if-eq-ok _ _ h in
    (
      ground arith,
      subst
          (λ t.
            Stores t s.attempts (s.findings ++ (f ∷ [])) s.results s.proposals
              (s.finalisations ++ (r ∷ [])))
          stored (refl, refl, refl, refl, refl),
    )

finalise_scenario_execution-Same :
    (r : ExecutedValidationResult) (i : ℕ) (s : DeterminationStore) {t : DeterminationStore}
    → finalise_scenario_execution r i s ≡ ok t
    → Same s t
unfolding finalise_scenario_execution
finalise_scenario_execution-Same r i s h =
    let (allowed, stored) = store_if-eq-ok _ _ h in
    subst (Same s) stored (refl, refl, refl, refl, refl)

finalise_procedure_execution-Same :
    (r : ExecutedValidationResult) (i : ℕ) (s : DeterminationStore) {t : DeterminationStore}
    → finalise_procedure_execution r i s ≡ ok t
    → Same s t
unfolding finalise_procedure_execution
finalise_procedure_execution-Same r i s h =
    let (allowed, stored) = store_if-eq-ok _ _ h in
    subst (Same s) stored (refl, refl, refl, refl, refl)

finalise_execution_of-Same :
    (r : ExecutedValidationResult) (o : Option ℕ) (s : DeterminationStore) {t : DeterminationStore}
    → finalise_execution_of r o s ≡ ok t
    → Same s t
finalise_execution_of-Same r none s {t} h =
    subst (Same s) (ok-injective h) (refl, refl, refl, refl, refl)
finalise_execution_of-Same r (some i) s {t} h = elim (if-eq-ok (has_row i s.executions) _ _ h) [
  | inl (e, k) ↦ finalise_scenario_execution-Same r i s k
  | inr (e, k) ↦ finalise_procedure_execution-Same r i s k
]

-- The attempt of a result was open, and is executed.
abbrev pub Executes : ExecutedValidationResult → DeterminationStore → DeterminationStore → Type 0
Executes r s t =
    (a : ValidationAttempt) × (find (λ b. nat_eq b.validation_attempt_id r.validation_attempt_id)
        s.attempts
      ≡ some a)
    × (is_open_attempt a.status ≡ true)
    × (t.attempts
        ≡ replace_attempt (record a { status = executed; updated_at = r.finalised_at }) s.attempts)

execute_attempt-stored :
    (r : ExecutedValidationResult) (s : DeterminationStore) {t : DeterminationStore}
    → execute_attempt r s ≡ ok t
    → Executes r s t × Stores t t.attempts s.findings s.results s.proposals s.finalisations
unfolding execute_attempt
execute_attempt-stored r s h =
    let (a, o, h1) =
      >>=-eq-ok
        (or_raise (find (λ b. nat_eq b.validation_attempt_id r.validation_attempt_id) s.attempts)
          validation_conflict)
        _ h in
    let (b, p) = store_if-eq-ok _ _ h1 in
    subst
      (λ t. Executes r s t × Stores t t.attempts s.findings s.results s.proposals s.finalisations) p
      ((a, or_raise-eq-ok _ _ o, b, refl), (refl, refl, refl, refl, refl))

pub insert_result-stored :
    (r : ExecutedValidationResult) (s : DeterminationStore) {t : DeterminationStore}
    → insert_result r s ≡ ok t
    → (result_allowed r s ≡ true)
      × Executes r s t
      × Stores t t.attempts s.findings (s.results ++ (r ∷ [])) s.proposals s.finalisations
unfolding insert_result
insert_result-stored r s {t} h =
    let s1 : DeterminationStore = record s { results = s.results ++ (r ∷ []) } in
    let (u, e, h1) = >>=-eq-ok (store_if (result_allowed r s) s1) _ h in
    let (a, p) = store_if-eq-ok (result_allowed r s) s1 e in
    let (v, f, h2) = >>=-eq-ok (finalise_execution_of r r.validation_execution_id u) _ h1 in
    let k : Same s1 v =
      subst (λ w. Same w v) (sym p) (finalise_execution_of-Same r r.validation_execution_id u f) in
    let (x, y) = execute_attempt-stored r v h2 in
    (
      a,
      subst
          (λ attempts.
            (c : ValidationAttempt) × (find
                (λ b. nat_eq b.validation_attempt_id r.validation_attempt_id) attempts
              ≡ some c)
            × (is_open_attempt c.status ≡ true)
            × (t.attempts
                ≡ replace_attempt (record c { status = executed; updated_at = r.finalised_at })
                    attempts))
          k.0 x,
      (refl, y.1 ∙ k.1, y.2 ∙ k.2, y.3 ∙ k.3, y.4 ∙ k.4),
    )
