-- ===== src/Tests/Determined.antt =====
-- The determination of a small method by the service, from its sources to its result, and the
-- properties at that run.
use ot_engineering_demonstra.Base.{
  ◌↔◌, All, true, ◌≡◌, refl, some, [], ◌∷◌, map, ok, err, determination_error, str_leb,
}
use ot_engineering_demonstra.Base.Sort.{sort_by, insert_by}
use ot_engineering_demonstra.Domain.Assurance.{is_open_attempt, is_frozen, pass_verdict}
use ot_engineering_demonstra.Validation.{
  DeterminationContext, DeterminationMethodDefinition, method_valid, context_valid, finding_valid,
}
use ot_engineering_demonstra.Validation.Catalogue.{
  get, get_method, get_criterion, resolve_method, resolve_catalogue,
}
use ot_engineering_demonstra.Validation.Adapters.{
  source_adapter_registry, validate_capture, records, common_provenance,
}
use ot_engineering_demonstra.Validation.Adapters.Selector.{selector_roots}
use ot_engineering_demonstra.Validation.Store.{
  findings_of, get_attempt, get_target, get_execution, get_source, get_context, list_findings,
  list_evidence, get_review_proposal, source_ids_for_attempt, store_if,
}
use ot_engineering_demonstra.Validation.Store.Write.{
  determined, insert_produced_source, insert_frozen_context, insert_finding, insert_review_proposal,
  finalise_review, bind_attempt_procedure_execution, capture_repeat_source_baseline,
}
use ot_engineering_demonstra.Validation.Store.Results.{
  insert_result, execute_attempt, finalise_procedure_execution, finalise_scenario_execution,
}
use ot_engineering_demonstra.Validation.Store.Action.{◌>>=◌, write, commit, require, for_each}
use ot_engineering_demonstra.Validation.Determination.{
  is_complete_set, compare_observed, finding, method_of, completeness_of, completeness,
}
use ot_engineering_demonstra.Validation.Determination.Binding.{
  bind_context, prepare_context, execution_for,
}
use ot_engineering_demonstra.Validation.Determination.Binding.Members.{
  BoundTarget, bound_target, context_member, context_members,
}
use ot_engineering_demonstra.Validation.Determination.Binding.Produced.{
  produced_source, eligible_criteria,
}
use ot_engineering_demonstra.Validation.Determination.Evaluation.{evaluate_machine_criteria}
use ot_engineering_demonstra.Validation.Determination.Evaluation.Judge.{machine_finding, sources_of}
use ot_engineering_demonstra.Validation.Determination.Review.{
  controlled_actor_role, review_criterion, proposed_review, propose_review_finding, reviewed,
  finalise_review_finding,
}
use ot_engineering_demonstra.Validation.Determination.Finalise.{determined_result, finalise_result}
use ot_engineering_demonstra.Validation.Determination.Changes.Calls.{run, run_all}
use ot_engineering_demonstra.Validation.Determination.Binding.Bound.{Sourced, bind_context-bound}
use ot_engineering_demonstra.Validation.Determination.Finalise.Complete.{
  DecidedOnce, Required, is_complete_set_iff,
}
use ot_engineering_demonstra.Validation.Determination.Finalise.Verdict.{
  judged, specified_verdict, finalise_result-specified,
}
use ot_engineering_demonstra.Validation.Determination.Finalise.Refused.{finalise_result-incomplete}
use ot_engineering_demonstra.Validation.Determination.Changes.Settled.{run_all-settled}
use ot_engineering_demonstra.Validation.Determination.Changes.Reviewed.{
  IsReviewed, run_all-IsReviewed,
}
use ot_engineering_demonstra.Validation.Determination.Changes.Ended.{IsEnded, run_all-IsEnded}
use ot_engineering_demonstra.Tests.Determination.{
  small_method, service, start, request, calls, ready, unreviewed, bound_start, bound_context,
  result, late_calls,
}

selector_roots_one : selector_roots "TopologyResult.sections[S-1]" ≡ "TopologyResult" ∷ []
unfolding selector_roots
selector_roots_one = refl

selector_roots_two :
    selector_roots "ScenarioRunAdapter.formal_run + FormalScenarioDefinition.fault_section_id"
    ≡ "ScenarioRunAdapter" ∷ "FormalScenarioDefinition" ∷ []
unfolding selector_roots
selector_roots_two = refl

small_method-valid : method_valid small_method ≡ true
unfolding method_valid
small_method-valid = refl

-- The run ends with one result, which passes.
calls_pass : map (λ r. r.verdict) (run_all service calls start).results ≡ pass_verdict ∷ []
unfolding run run_all prepare_context bind_context execution_for bound_target context_members
    context_member produced_source eligible_criteria selector_roots evaluate_machine_criteria
    machine_finding sources_of propose_review_finding proposed_review finalise_review_finding
    reviewed review_criterion controlled_actor_role finalise_result determined_result completeness
    completeness_of method_of compare_observed finding get_attempt get_target get_execution
    get_source get_context list_findings list_evidence get_review_proposal source_ids_for_attempt
    store_if sort_by insert_by get get_method get_criterion resolve_method resolve_catalogue
    validate_capture source_adapter_registry records common_provenance insert_produced_source
    insert_frozen_context insert_finding insert_review_proposal finalise_review
    bind_attempt_procedure_execution capture_repeat_source_baseline insert_result execute_attempt
    finalise_procedure_execution finalise_scenario_execution ◌>>=◌ write commit require for_each
    str_leb context_valid finding_valid
calls_pass = refl

finalise_result-specified_example :
    (context : DeterminationContext) × (method : DeterminationMethodDefinition) × (get_context 60
        ready
      ≡ ok context)
    × (method_of service context ≡ ok method)
    × All (DecidedOnce (list_findings 60 ready)) method.criterion_ids
    × All (Required method.criterion_ids) (list_findings 60 ready)
    × (specified_verdict method.criterion_ids (judged (list_findings 60 ready)) ≡ some pass_verdict)
unfolding run run_all prepare_context bind_context execution_for bound_target context_members
    context_member produced_source eligible_criteria selector_roots evaluate_machine_criteria
    machine_finding sources_of propose_review_finding proposed_review finalise_review_finding
    reviewed review_criterion controlled_actor_role finalise_result determined_result completeness
    completeness_of method_of compare_observed finding get_attempt get_target get_execution
    get_source get_context list_findings list_evidence get_review_proposal source_ids_for_attempt
    store_if sort_by insert_by get get_method get_criterion resolve_method resolve_catalogue
    validate_capture source_adapter_registry records common_provenance insert_produced_source
    insert_frozen_context insert_finding insert_review_proposal finalise_review
    bind_attempt_procedure_execution capture_repeat_source_baseline insert_result execute_attempt
    finalise_procedure_execution finalise_scenario_execution ◌>>=◌ write commit require for_each
    str_leb context_valid finding_valid
finalise_result-specified_example =
    finalise_result-specified service 60 14 100 ready {r = result}
      {s' = (finalise_result service 60 14 100 ready).1} refl

finalise_result-incomplete_example :
    finalise_result service 60 14 100 unreviewed ≡ (err determination_error, unreviewed)
unfolding run run_all prepare_context bind_context execution_for bound_target context_members
    context_member produced_source eligible_criteria selector_roots evaluate_machine_criteria
    machine_finding sources_of propose_review_finding proposed_review finalise_review_finding
    reviewed review_criterion controlled_actor_role finalise_result determined_result completeness
    completeness_of method_of compare_observed finding get_attempt get_target get_execution
    get_source get_context list_findings list_evidence get_review_proposal source_ids_for_attempt
    store_if sort_by insert_by get get_method get_criterion resolve_method resolve_catalogue
    validate_capture source_adapter_registry records common_provenance insert_produced_source
    insert_frozen_context insert_finding insert_review_proposal finalise_review
    bind_attempt_procedure_execution capture_repeat_source_baseline insert_result execute_attempt
    finalise_procedure_execution finalise_scenario_execution ◌>>=◌ write commit require for_each
    str_leb context_valid finding_valid
finalise_result-incomplete_example =
    finalise_result-incomplete service 60 14 100 unreviewed bound_context small_method refl refl
      (λ h. let gap = h.0.1.0.1 in cc)

is_complete_set_iff_example :
    (is_complete_set ("CR-1" ∷ "CR-2" ∷ []) (list_findings 60 unreviewed) ≡ true) ↔ (
      All (DecidedOnce (list_findings 60 unreviewed)) ("CR-1" ∷ "CR-2" ∷ [])
      × All (Required ("CR-1" ∷ "CR-2" ∷ [])) (list_findings 60 unreviewed))
is_complete_set_iff_example =
    is_complete_set_iff ("CR-1" ∷ "CR-2" ∷ []) (list_findings 60 unreviewed)

run_all-settled_example :
    (determined 60 (run_all service late_calls (run_all service calls start)) ≡ true)
    × (findings_of 60 (run_all service late_calls (run_all service calls start))
        ≡ findings_of 60 (run_all service calls start))
unfolding run run_all prepare_context bind_context execution_for bound_target context_members
    context_member produced_source eligible_criteria selector_roots evaluate_machine_criteria
    machine_finding sources_of propose_review_finding proposed_review finalise_review_finding
    reviewed review_criterion controlled_actor_role finalise_result determined_result completeness
    completeness_of method_of compare_observed finding get_attempt get_target get_execution
    get_source get_context list_findings list_evidence get_review_proposal source_ids_for_attempt
    store_if sort_by insert_by get get_method get_criterion resolve_method resolve_catalogue
    validate_capture source_adapter_registry records common_provenance insert_produced_source
    insert_frozen_context insert_finding insert_review_proposal finalise_review
    bind_attempt_procedure_execution capture_repeat_source_baseline insert_result execute_attempt
    finalise_procedure_execution finalise_scenario_execution ◌>>=◌ write commit require for_each
    str_leb context_valid finding_valid
run_all-settled_example = run_all-settled service late_calls (run_all service calls start) 60 refl

run_all-IsReviewed_example : IsReviewed (run_all service calls start)
run_all-IsReviewed_example = run_all-IsReviewed service calls start (tt, tt)

run_all-IsEnded_example : IsEnded (run_all service calls start)
run_all-IsEnded_example = run_all-IsEnded service calls start tt

bind_context-bound_example :
    (b : BoundTarget) × (bound_target service 2 bound_start ≡ ok b)
    × (get_attempt 2 bound_start ≡ ok b.attempt)
    × (is_open_attempt b.attempt.status ≡ true)
    × (("PACKAGE" ∷ []) ≡ b.method.required_context_roles)
    × All (Sourced service b (bind_context service request bound_start).1) bound_context.members
    × (is_frozen bound_context.status ≡ true)
    × (context_valid bound_context ≡ true)
    × (get_context 60 (bind_context service request bound_start).1 ≡ ok bound_context)
unfolding run run_all prepare_context bind_context execution_for bound_target context_members
    context_member produced_source eligible_criteria selector_roots evaluate_machine_criteria
    machine_finding sources_of propose_review_finding proposed_review finalise_review_finding
    reviewed review_criterion controlled_actor_role finalise_result determined_result completeness
    completeness_of method_of compare_observed finding get_attempt get_target get_execution
    get_source get_context list_findings list_evidence get_review_proposal source_ids_for_attempt
    store_if sort_by insert_by get get_method get_criterion resolve_method resolve_catalogue
    validate_capture source_adapter_registry records common_provenance insert_produced_source
    insert_frozen_context insert_finding insert_review_proposal finalise_review
    bind_attempt_procedure_execution capture_repeat_source_baseline insert_result execute_attempt
    finalise_procedure_execution finalise_scenario_execution ◌>>=◌ write commit require for_each
    str_leb context_valid finding_valid
bind_context-bound_example =
    bind_context-bound service request bound_start {context = bound_context}
      {s' = (bind_context service request bound_start).1} refl
