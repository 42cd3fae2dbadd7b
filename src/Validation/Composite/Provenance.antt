-- ===== src/Validation/Composite/Provenance.antt =====
-- app/backend/ot_demo/modules/validation/suspension_provenance.py: the target, the attempt and, where
-- the execution was entered, the run and the evidence that a suspension resolves to.
use ot_engineering_demonstra.Base.{
  String, ◌==◌, nat_eq, Bool, true, false, not, ◌&&◌, ◌||◌, Option, none, some, List, [], all,
  is_empty, is_some, same_by, absent_or_same, suspension_provenance_error, Result, ok, guard,
  or_raise, ◌>>=◌, ◌>>◌,
}
use ot_engineering_demonstra.Domain.Assurance.{same_class}
use ot_engineering_demonstra.Domain.Composite.{
  is_finalised_suspension, is_suspended, same_condition, same_mode,
}
use ot_engineering_demonstra.Scenario.{RunContext}
use ot_engineering_demonstra.Scenario.Store.{get_run}
use ot_engineering_demonstra.Validation.{
  ValidationAttempt, ValidationExecution, ValidationTargetSelection,
}
use ot_engineering_demonstra.Validation.Evidence.{
  EvidenceSnapshot, ValidationSuspensionEvidence, ValidationSuspensionRecord, is_pre_entry,
  is_evidence_finalisation,
}
use ot_engineering_demonstra.Validation.Store.{
  DeterminationStore, get_target, get_attempt, get_execution, list_evidence,
  has_executed_result_for_attempt,
}
use ot_engineering_demonstra.Validation.Composite.{CompositeService}

pub record ResolvedSuspensionSource : Type 0 where
  pub suspension : ValidationSuspensionRecord
  pub target : ValidationTargetSelection
  pub attempt : ValidationAttempt
  pub execution : Option ValidationExecution
  pub run : Option RunContext
  pub evidence_snapshots : List EvidenceSnapshot

abbrev pub same_text : Option String → Option String → Bool
same_text = same_by (λ a b. a == b)

abbrev agrees : Option String → Option String → Bool
agrees = absent_or_same (λ a b. a == b)

module _ (service : CompositeService) where
  abbrev evidence_bound : ValidationSuspensionRecord → ValidationSuspensionEvidence → Bool
  evidence_bound suspension item =
      same_condition item.condition_id suspension.condition_id
      && item.payload_sha256 == service.payload_sha256 item.payload

  abbrev pub attempt_bound :
      ValidationSuspensionRecord
      → ValidationTargetSelection
      → ValidationAttempt
      → DeterminationStore
      → Bool
  attempt_bound suspension target attempt store =
      is_finalised_suspension suspension.status
      && is_suspended attempt.status
      && nat_eq attempt.target_selection_id target.target_selection_id
      && nat_eq suspension.target_selection_id target.target_selection_id
      && suspension.target_selection_sha256 == target.canonical_selection_sha256
      && suspension.intended_test_id == target.test_id
      && same_text suspension.intended_case_id target.case_id
      && not (has_executed_result_for_attempt attempt.validation_attempt_id store)
      && all (evidence_bound suspension) suspension.evidence

-- `any((attempt.scenario_run_id, ...))`
abbrev entered : ValidationSuspensionRecord → ValidationAttempt → Bool
entered suspension attempt =
    is_some attempt.scenario_run_id
    || is_some attempt.validation_execution_id
    || is_some suspension.scenario_run_id
    || is_some suspension.validation_execution_id

-- The execution against its attempt and its target, of which what is absent is not compared.
abbrev execution_of_target :
    ValidationExecution → ValidationAttempt → ValidationTargetSelection → Bool
execution_of_target execution attempt target =
    same_by nat_eq execution.validation_attempt_id (some attempt.validation_attempt_id)
    && same_by nat_eq execution.target_selection_id (some target.target_selection_id)
    && same_by nat_eq (some execution.validation_execution_id) attempt.validation_execution_id
    && same_by nat_eq execution.scenario_run_id attempt.scenario_run_id
    && execution.test_id == target.test_id
    && same_text execution.case_id target.case_id
    && same_class execution.evidence_class target.evidence_class
    && agrees (some execution.catalogue_version) target.catalogue_version
    && agrees (some execution.catalogue_sha256) target.catalogue_sha256
    && agrees (some execution.test_definition_version) target.test_definition_version
    && agrees (some execution.test_definition_sha256) target.test_definition_sha256
    && agrees execution.case_definition_version target.case_definition_version
    && agrees execution.case_definition_sha256 target.case_definition_sha256
    && agrees (some execution.configuration_id) target.configuration_id
    && agrees (some execution.configuration_version) target.configuration_version
    && agrees (some execution.application_build_id) target.target_application_build_id

abbrev run_bound : RunContext → ValidationExecution → Bool
run_bound run execution =
    same_by nat_eq (some run.scenario_run_id) execution.scenario_run_id
    && same_by same_mode (some run.mode) execution.scenario_mode
    && same_class run.evidence_class execution.evidence_class
    && run.configuration_id == execution.configuration_id
    && run.configuration_version == execution.configuration_version
    && run.application_build_id == execution.application_build_id

abbrev snapshot_bound : RunContext → ValidationExecution → EvidenceSnapshot → Bool
snapshot_bound run execution snapshot =
    nat_eq snapshot.validation_execution_id execution.validation_execution_id
    && nat_eq snapshot.scenario_run_id run.scenario_run_id
    && snapshot.test_id == execution.test_id
    && same_text snapshot.case_id execution.case_id
    && snapshot.catalogue_version == execution.catalogue_version
    && same_text snapshot.catalogue_sha256 (some execution.catalogue_sha256)
    && same_text snapshot.test_definition_version (some execution.test_definition_version)
    && same_text snapshot.test_definition_sha256 (some execution.test_definition_sha256)
    && same_text snapshot.case_definition_version execution.case_definition_version
    && same_text snapshot.case_definition_sha256 execution.case_definition_sha256
    && same_by same_mode (some snapshot.scenario_mode) execution.scenario_mode
    && same_class snapshot.evidence_class execution.evidence_class
    && snapshot.configuration_id == execution.configuration_id
    && snapshot.configuration_version == execution.configuration_version
    && snapshot.application_build_id == execution.application_build_id

-- The source of a suspension whose execution was entered.
unfoldable pub entered_source :
    CompositeService
    → ValidationSuspensionRecord
    → ValidationTargetSelection
    → ValidationAttempt
    → DeterminationStore
    → Result ResolvedSuspensionSource
entered_source service suspension target attempt store = do
  run_id ← or_raise suspension.scenario_run_id suspension_provenance_error
  execution_id ← or_raise suspension.validation_execution_id suspension_provenance_error
  guard
      (same_by nat_eq attempt.scenario_run_id (some run_id)
        && same_by nat_eq attempt.validation_execution_id (some execution_id))
      suspension_provenance_error
  execution ← get_execution execution_id store
  run ← get_run service.scenarios run_id
  let evidence = list_evidence execution.validation_execution_id store
  guard (execution_of_target execution attempt target && run_bound run execution)
      suspension_provenance_error
  guard (all (snapshot_bound run execution) evidence) suspension_provenance_error
  guard (not (is_evidence_finalisation suspension.lifecycle_position && is_empty evidence))
      suspension_provenance_error
  ok (record {
    suspension = suspension;
    target = target;
    attempt = attempt;
    execution = some execution;
    run = some run;
    evidence_snapshots = evidence;
  })

-- Before the entry there is no run and no execution.
unfoldable pub pre_entry_source :
    ValidationSuspensionRecord
    → ValidationTargetSelection
    → ValidationAttempt
    → Result ResolvedSuspensionSource
pre_entry_source suspension target attempt = do
  guard (not (entered suspension attempt)) suspension_provenance_error
  ok (record {
    suspension = suspension;
    target = target;
    attempt = attempt;
    execution = none;
    run = none;
    evidence_snapshots = [];
  })

unfoldable pub resolve_suspension_source :
    CompositeService
    → ValidationSuspensionRecord
    → DeterminationStore
    → Result ResolvedSuspensionSource
resolve_suspension_source service suspension store = do
  target ← get_target suspension.target_selection_id store
  attempt ← get_attempt suspension.validation_attempt_id store
  guard (attempt_bound service suspension target attempt store) suspension_provenance_error
  elim (is_pre_entry suspension.lifecycle_position) [
    | true ↦ pre_entry_source suspension target attempt
    | false ↦ entered_source service suspension target attempt store
  ]
