-- ===== src/Validation/Determination/Changes/Calls.antt =====
-- The methods of the determination service that store something, and what a sequence of calls of
-- them leaves behind.
use ot_engineering_demonstra.Base.{
  String, ℕ, Bool-cases, Option, none, some, List, [], ◌∷◌, inl, inr,
}
use ot_engineering_demonstra.Domain.Assurance.{CriterionFindingStatus, is_scenario}
use ot_engineering_demonstra.Validation.{
  CriterionDefinition, DeterminationSourceRecord, DeterminationContext,
}
use ot_engineering_demonstra.Validation.Store.{DeterminationStore}
use ot_engineering_demonstra.Validation.Determination.{DeterminationService, ProducedRoleAuthority}
use ot_engineering_demonstra.Validation.Determination.Binding.{
  BindingRequest, bind_context, prepare_context, execution_for, persist_produced_source,
  scenario_execution_of, procedure_execution_of, start_procedure, baseline_first,
}
use ot_engineering_demonstra.Validation.Determination.Binding.Members.{BoundTarget}
use ot_engineering_demonstra.Validation.Determination.Evaluation.{
  evaluate_machine_criteria, evaluate_all, FindingIds, open_machine,
}
use ot_engineering_demonstra.Validation.Determination.Review.{
  propose_review_finding, finalise_review_finding,
}
use ot_engineering_demonstra.Validation.Determination.Finalise.{finalise_result}
use ot_engineering_demonstra.Validation.Determination.Changes.{
  source_stored, baseline_captured, execution_bound, context_frozen, finding_stored,
  review_proposed, review_finalised, result_stored, Changes, unchanged, Changes-trans, Runs,
  write-Runs, >>=-Runs, commit-Runs, require-Runs, for_each-Runs,
}

pub data Call : Type 0 where
  prepare : BindingRequest → Call
  bind : BindingRequest → Call
  evaluate : ℕ → ℕ → FindingIds → Call
  propose : ℕ → String → CriterionFindingStatus → String → ℕ → ℕ → Call
  review : ℕ → String → CriterionFindingStatus → ℕ → ℕ → ℕ → Call
  finalise : ℕ → ℕ → ℕ → Call

module _ (service : DeterminationService) where
  -- The store that a call leaves, whether it returns or raises.
  unfoldable pub run : Call → DeterminationStore → DeterminationStore
  run (prepare r) s = (prepare_context service r s).1
  run (bind r) s = (bind_context service r s).1
  run (evaluate i t ids) s = (evaluate_machine_criteria service i t ids s).1
  run (propose i c f actor t id) s = (propose_review_finding service i c f actor t id s).1
  run (review i actor f t rid fid) s = (finalise_review_finding service i actor f t rid fid s).1
  run (finalise i t id) s = (finalise_result service i t id s).1

  unfoldable pub run_all : List Call → DeterminationStore → DeterminationStore
  unfolding run
  run_all [] s = s
  run_all (c ∷ cs) s = run_all cs (run c s)

  start_procedure-Runs :
      (r : BindingRequest) (b : BoundTarget) → Runs service (start_procedure service r b)
  start_procedure-Runs r b =
      >>=-Runs service _ _ (λ s. unchanged)
        λ configuration.
          >>=-Runs service _ _ (λ s. unchanged)
            λ version. >>=-Runs service _ _ (require-Runs service _ _) λ done.
              >>=-Runs service _ _ (baseline_first-Runs r.repeat_of_execution_id) λ done.
                >>=-Runs service _ _ (write-Runs service _ (λ s t e. execution_bound _ _ e))
                  λ done s. unchanged
    where
      baseline_first-Runs : (o : Option ℕ) → Runs service (baseline_first r o)
      baseline_first-Runs none s = unchanged
      baseline_first-Runs (some i) s = write-Runs service _ (λ s t e. baseline_captured _ _ e) s

  scenario-Runs :
      (r : BindingRequest) (b : BoundTarget) (o : Option ℕ)
      → Runs service (scenario_execution_of r b o)
  scenario-Runs r b none s = unchanged
  scenario-Runs r b (some i) s =
      >>=-Runs service _ _ (require-Runs service _ _)
        (λ done.
          >>=-Runs service _ _ (λ s. unchanged)
            (λ execution. >>=-Runs service _ _ (require-Runs service _ _) (λ done s. unchanged)))
        s

  procedure-Runs :
      (r : BindingRequest) (b : BoundTarget) (o : Option ℕ)
      → Runs service (procedure_execution_of service r b o)
  procedure-Runs r b none s =
      >>=-Runs service _ _ (require-Runs service _ _) (λ done. start_procedure-Runs r b) s
  procedure-Runs r b (some i) s =
      >>=-Runs service _ _ (require-Runs service _ _)
        (λ done.
          >>=-Runs service _ _ (λ s. unchanged)
            (λ execution. >>=-Runs service _ _ (require-Runs service _ _) (λ done s. unchanged)))
        s

  execution_for-Runs :
      (r : BindingRequest) (b : BoundTarget) → Runs service (execution_for service r b)
  unfolding execution_for
  execution_for-Runs r b s = elim (Bool-cases (is_scenario b.method.context_kind)) [
    | inl e ↦ rw e (scenario-Runs r b r.validation_execution_id s)
    | inr e ↦ rw e (procedure-Runs r b r.validation_execution_id s)
  ]

  bind_context-Runs : (r : BindingRequest) → Runs service (bind_context service r)
  unfolding bind_context
  bind_context-Runs r =
      >>=-Runs service _ _ (λ s. unchanged)
        λ b. >>=-Runs service _ _ (execution_for-Runs r b) λ execution.
          >>=-Runs service _ _ (λ s. unchanged)
            λ members. >>=-Runs service _ _ (require-Runs service _ _) λ done.
              >>=-Runs service _ _ (write-Runs service _ (λ s t e. context_frozen _ e))
                λ done s. unchanged

  persist-Runs :
      (r : BindingRequest) (a : ProducedRoleAuthority)
      → Runs service (persist_produced_source service r a)
  persist-Runs r a =
      >>=-Runs service _ _ (commit-Runs service _ _ (λ s t record_ e w. source_stored record_ w))
        λ stored s. unchanged

  prepare_context-Runs : (r : BindingRequest) → Runs service (prepare_context service r)
  unfolding prepare_context
  prepare_context-Runs r =
      >>=-Runs service _ _ (λ s. unchanged)
        λ attempt.
          >>=-Runs service _ _ (λ s. unchanged)
            λ target.
              >>=-Runs service _ _ (λ s. unchanged)
                λ method.
                  >>=-Runs service _ _ (λ s. unchanged)
                    λ produced.
                      >>=-Runs service _ _ (λ s. unchanged)
                        λ authorities.
                          >>=-Runs service _ _
                            (for_each-Runs service _ (persist-Runs r) authorities)
                            λ stored. bind_context-Runs r

  evaluate_all-Runs :
      (context : DeterminationContext) (sources : List DeterminationSourceRecord) (t : ℕ)
      (ids : FindingIds) (existing : List String) (cs : List CriterionDefinition)
      → Runs service (evaluate_all service context sources t ids existing cs)
  evaluate_all-Runs context sources t ids existing [] s = unchanged
  evaluate_all-Runs context sources t ids existing (c ∷ cs) s =
      let rest = evaluate_all-Runs context sources t ids existing cs in
      elim (Bool-cases (open_machine existing c)) [
        | inl e ↦ rw e (
            >>=-Runs service _ _ (commit-Runs service _ _ (λ s t f e w. finding_stored f w))
              (λ created. >>=-Runs service _ _ rest (λ later s. unchanged)) s)
        | inr e ↦ rw e (rest s)
      ]

  -- Every call is a sequence of the transactions.
  pub run-Changes : (c : Call) (s : DeterminationStore) → Changes service s (run c s)
  unfolding run evaluate_machine_criteria propose_review_finding finalise_review_finding
      finalise_result
  run-Changes (prepare r) s = prepare_context-Runs r s
  run-Changes (bind r) s = bind_context-Runs r s
  run-Changes (evaluate i t ids) s =
      >>=-Runs service _ _ (λ s. unchanged)
        (λ context.
          >>=-Runs service _ _ (λ s. unchanged)
            (λ method.
              >>=-Runs service _ _ (λ s. unchanged)
                (λ existing.
                  >>=-Runs service _ _ (λ s. unchanged)
                    (λ sources. evaluate_all-Runs context sources t ids existing method.criteria))))
        s
  run-Changes (propose i c f actor t id) s =
      commit-Runs service _ _ (λ s u p e w. review_proposed i c f actor t id p e w) s
  run-Changes (review i actor f t rid fid) s =
      commit-Runs service _ _ (λ s u o e w. review_finalised i actor f t rid fid o e w) s
  run-Changes (finalise i t id) s =
      commit-Runs service _ _ (λ s u r e w. result_stored i t id r e w) s

  pub run_all-Changes : (cs : List Call) (s : DeterminationStore) → Changes service s (run_all cs s)
  unfolding run_all
  run_all-Changes [] s = unchanged
  run_all-Changes (c ∷ cs) s = Changes-trans (run-Changes c s) (run_all-Changes cs (run c s))
