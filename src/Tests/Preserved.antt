-- ===== src/Tests/Preserved.antt =====
-- Two cases with what their constituents have preserved, an execution that passed and a suspension
-- before the entry, and the composite of both: data of the tests.
use ot_engineering_demonstra.Base.{String, false, none, some, [], ◌∷◌}
use ot_engineering_demonstra.Domain.{exploratory, exploration, active, normal, n0}
use ot_engineering_demonstra.Domain.Assurance.{
  pass_verdict, blocked_test, executed, suspended, vsc_001, pre_execution_entry,
  finalised_execution, scenario_execution,
}
use ot_engineering_demonstra.Domain.Composite.{
  finalised_suspension, execution_result, suspension_result, complete_composite, draft_composite,
}
use ot_engineering_demonstra.Scenario.{RunContext}
use ot_engineering_demonstra.Validation.{
  ConstituentCaseDefinition, LoadedValidationDefinition, ValidationTargetSelection,
  ValidationAttempt, ValidationExecution, ExecutedValidationResult,
}
use ot_engineering_demonstra.Validation.Value.{Json, text, object, field, end}
use ot_engineering_demonstra.Validation.Evidence.{
  EvidenceSnapshot, ValidationSuspensionRecord, CompositeValidationResult,
}
use ot_engineering_demonstra.Validation.Store.{DeterminationStore}
use ot_engineering_demonstra.Validation.Composite.{CompositeService}
use ot_engineering_demonstra.Validation.Composite.Assemble.{AssembleCompositeRequest}
use ot_engineering_demonstra.Tests.Determination.{printed, start}

abbrev pub case_one : ConstituentCaseDefinition
case_one = record {
  case_id = "EXP-ALL-A1";
  test_id = "VT-EXP-TWO-001";
  version = "1.0";
  selected_fault_section_id = "SEC-A1";
  determination_method = none;
}

abbrev pub two_cases : LoadedValidationDefinition
two_cases = record {
  definition = record {
    test_id = "VT-EXP-TWO-001";
    version = "1.0";
    evidence_class = exploratory;
    expected_result_statement = "both";
    constituent_cases = case_one ∷ record case_one { case_id = "EXP-ALL-B1" } ∷ [];
    determination_method = none;
  };
  definition_sha256 = "d1";
  catalogue_id = "CAT";
  catalogue_version = "1.2";
  catalogue_sha256 = "k1";
}

abbrev pub run : RunContext
run = record {
  scenario_run_id = 7;
  mode = exploration;
  configuration_id = "CFG";
  configuration_version = "1.1";
  fault_section_id = "SEC-A1";
  initial_scenario_time = 0;
  scenario_time = 0;
  state_revision = 0;
  workflow_stage = normal;
  network_state_label = n0;
  evidence_class = exploratory;
  application_build_id = "build";
  status = active;
  fault_active = false;
  source_availability = [];
}

abbrev pub composites : CompositeService
composites = record {
  catalogue = record {
    active_definitions = two_cases ∷ [];
    loaded_definitions = (two_cases ∷ []) ∷ [];
  };
  raw_catalogue_sha256 = "k1";
  application_build_id = "build";
  corrected_configuration_id = "CFG";
  scenarios = record {
    runs = run ∷ [];
    telemetry = [];
    alarms = [];
    events = [];
    snapshots = [];
    command_results = [];
    assessments = [];
    invalidations = [];
  };
  case_sha256 = λ c. "c1";
  payload_sha256 = printed;
}

abbrev pub execution : ValidationExecution
execution = record {
  validation_execution_id = 50;
  test_id = "VT-EXP-TWO-001";
  test_definition_version = "1.0";
  test_definition_sha256 = "d1";
  catalogue_version = "1.2";
  catalogue_sha256 = "k1";
  case_id = some "EXP-ALL-A1";
  case_definition_version = some "1.0";
  case_definition_sha256 = some "c1";
  context_kind = scenario_execution;
  scenario_run_id = some 7;
  scenario_mode = some exploration;
  evidence_class = exploratory;
  configuration_id = "CFG";
  configuration_version = "1.1";
  application_build_id = "build";
  status = finalised_execution;
  started_at = none;
  finalised_scenario_time = some 20;
  finalised_at = none;
  observed_criterion_finding_ids = 80 ∷ [];
  evidence_snapshot_ids = 31 ∷ [];
  verdict = some pass_verdict;
  repeat_of_execution_id = none;
  validation_attempt_id = some 2;
  target_selection_id = some 1;
  executed_result_id = some 100;
}

abbrev pub snapshot : EvidenceSnapshot
snapshot = record {
  evidence_snapshot_id = 31;
  validation_execution_id = 50;
  test_id = "VT-EXP-TWO-001";
  catalogue_version = "1.2";
  catalogue_sha256 = some "k1";
  test_definition_version = some "1.0";
  test_definition_sha256 = some "d1";
  case_id = some "EXP-ALL-A1";
  case_definition_version = some "1.0";
  case_definition_sha256 = some "c1";
  scenario_run_id = 7;
  scenario_mode = exploration;
  evidence_class = exploratory;
  configuration_id = "CFG";
  configuration_version = "1.1";
  application_build_id = "build";
  state_revision = 0;
  checkpoint_id = "CP";
  scenario_time = 20;
}

abbrev pub executed_result : ExecutedValidationResult
executed_result = record {
  executed_result_id = 100;
  validation_attempt_id = 2;
  validation_execution_id = some 50;
  determination_context_id = 60;
  test_id = "VT-EXP-TWO-001";
  case_id = some "EXP-ALL-A1";
  catalogue_version = "1.2";
  catalogue_sha256 = "k1";
  method_id = "DM-A1";
  method_version = "1.0";
  method_sha256 = "m1";
  verdict = pass_verdict;
  evidence_snapshot_ids = 31 ∷ [];
  criterion_finding_ids = 80 ∷ [];
  finalised_at = 20;
}

abbrev pub identity : String → String → String → String → Json
identity k v j w = object (field k (text v) (field j (text w) end))

abbrev pub suspended_target : ValidationTargetSelection
suspended_target = record {
  target_selection_id = 9;
  test_id = "VT-EXP-TWO-001";
  case_id = some "EXP-ALL-B1";
  test_definition_version = some "1.0";
  test_definition_sha256 = some "d1";
  catalogue_version = some "1.2";
  catalogue_sha256 = some "k1";
  case_definition_version = some "1.0";
  case_definition_sha256 = some "c1";
  evidence_class = exploratory;
  configuration_id = some "CFG";
  configuration_version = some "1.1";
  target_application_build_id = some "build";
  unresolved_required_role = none;
  intended_identity_evidence =
      ("CATALOGUE", identity "catalogue_version" "1.2" "catalogue_sha256" "k1")
      ∷ ("TEST_DEFINITION", identity "test_definition_version" "1.0" "test_definition_sha256" "d1")
      ∷ ("CASE_DEFINITION", identity "case_definition_version" "1.0" "case_definition_sha256" "c1")
      ∷ ("CONFIGURATION", identity "configuration_id" "CFG" "configuration_version" "1.1")
      ∷ ("APPLICATION_BUILD", object (field "application_build_id" (text "build") end))
      ∷ [];
  assurance_verifier_application_build_id = some "build";
  canonical_selection_sha256 = "t9";
  created_at = 5;
}

abbrev pub ended : ValidationAttempt
ended = record {
  validation_attempt_id = 2;
  target_selection_id = 1;
  status = executed;
  scenario_run_id = some 7;
  validation_execution_id = some 50;
  created_at = 5;
  updated_at = 20;
}

abbrev pub suspension : ValidationSuspensionRecord
suspension = record {
  suspension_record_id = 40;
  validation_attempt_id = 3;
  target_selection_id = 9;
  condition_id = vsc_001;
  lifecycle_position = pre_execution_entry;
  status = finalised_suspension;
  verifier_application_build_id = "build";
  target_selection_sha256 = "t9";
  intended_test_id = "VT-EXP-TWO-001";
  intended_case_id = some "EXP-ALL-B1";
  failed_required_input_role = none;
  evidence =
      record {
        evidence_id = 41;
        condition_id = vsc_001;
        payload = text "unspecified";
        payload_sha256 = "unspecified";
      }
      ∷ [];
  scenario_run_id = none;
  validation_execution_id = none;
  created_at = 6;
  finalised_at = some 6;
}

abbrev pub preserved : DeterminationStore
preserved = record start {
  targets = suspended_target ∷ [];
  attempts =
      ended
      ∷ record {
        validation_attempt_id = 3;
        target_selection_id = 9;
        status = suspended;
        scenario_run_id = none;
        validation_execution_id = none;
        created_at = 5;
        updated_at = 6;
      }
      ∷ [];
  executions = execution ∷ [];
  executed_results = executed_result ∷ [];
  evidence = snapshot ∷ [];
  suspensions = suspension ∷ [];
}

abbrev pub request : AssembleCompositeRequest
request = record {
  test_id = "VT-EXP-TWO-001";
  validation_execution_ids = 50 ∷ [];
  validation_suspension_record_ids = 40 ∷ [];
  created_at = 30;
}

abbrev pub draft : CompositeValidationResult
draft = record {
  composite_result_id = 500;
  test_id = "VT-EXP-TWO-001";
  test_definition_version = "1.0";
  test_definition_sha256 = "d1";
  catalogue_version = "1.2";
  catalogue_sha256 = "k1";
  evidence_class = exploratory;
  application_build_id = "build";
  configuration_id = "CFG";
  configuration_version = "1.1";
  required_case_ids = "EXP-ALL-A1" ∷ "EXP-ALL-B1" ∷ [];
  constituent_links =
      record {
        case_id = "EXP-ALL-A1";
        source_kind = execution_result;
        validation_execution_id = some 50;
        executed_result_id = some 100;
        suspension_record_id = none;
        scenario_run_id = some 7;
        case_definition_sha256 = some "c1";
        unavailable_required_input_role = none;
        constituent_verdict = some pass_verdict;
        evidence_snapshot_ids = 31 ∷ [];
      }
      ∷ record {
        case_id = "EXP-ALL-B1";
        source_kind = suspension_result;
        validation_execution_id = none;
        executed_result_id = none;
        suspension_record_id = some 40;
        scenario_run_id = none;
        case_definition_sha256 = some "c1";
        unavailable_required_input_role = none;
        constituent_verdict = some blocked_test;
        evidence_snapshot_ids = [];
      }
      ∷ [];
  completeness = record {
    status = complete_composite;
    required_case_ids = "EXP-ALL-A1" ∷ "EXP-ALL-B1" ∷ [];
    present_case_ids = "EXP-ALL-A1" ∷ "EXP-ALL-B1" ∷ [];
    missing_case_ids = [];
    duplicate_case_ids = [];
    mismatched_case_ids = [];
  };
  status = draft_composite;
  determination = none;
  created_at = 30;
  finalised_at = none;
}

abbrev pub stored : DeterminationStore
stored = record preserved { composites = draft ∷ [] }
