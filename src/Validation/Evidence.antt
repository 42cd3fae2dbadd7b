-- ===== src/Validation/Evidence.antt =====
-- app/backend/ot_demo/modules/validation/models.py: the evidence of an execution, suspensions and
-- composites, with their validators. The gates of the classifier, the actors, and the texts for a
-- reader are left out, as is the digest that a record carries of itself.
use ot_engineering_demonstra.Base.{
  String, ℕ, Bool, true, false, not, ◌&&◌, ◌||◌, Option, none, some, List, is_some, if◌then◌else◌,
}
use ot_engineering_demonstra.Domain.{EvidenceClass, ScenarioMode}
use ot_engineering_demonstra.Domain.Assurance.{
  ValidationSuspensionCondition, SuspensionLifecyclePosition, pre_execution_entry,
  execution_in_progress, evidence_finalisation, RequiredInputRole, ValidationVerdict, pass_verdict,
  fail_verdict, not_run, blocked_test,
}
use ot_engineering_demonstra.Domain.Composite.{
  SuspensionRecordStatus, CompositeConstituentSourceKind, CompositeCompletenessStatus,
  CompositeResultStatus, is_finalised_suspension, is_execution_result, is_complete_composite,
  is_finalised_composite,
}
use ot_engineering_demonstra.Validation.Value.{Json}

pub record EvidenceSnapshot : Type 0 where
  pub evidence_snapshot_id : ℕ
  pub validation_execution_id : ℕ
  pub test_id : String
  pub catalogue_version : String
  pub catalogue_sha256 : Option String
  pub test_definition_version : Option String
  pub test_definition_sha256 : Option String
  pub case_id : Option String
  pub case_definition_version : Option String
  pub case_definition_sha256 : Option String
  pub scenario_run_id : ℕ
  pub scenario_mode : ScenarioMode
  pub evidence_class : EvidenceClass
  pub configuration_id : String
  pub configuration_version : String
  pub application_build_id : String
  pub state_revision : ℕ
  pub checkpoint_id : String
  pub scenario_time : ℕ

pub record ValidationSuspensionEvidence : Type 0 where
  pub evidence_id : ℕ
  pub condition_id : ValidationSuspensionCondition
  pub payload : Json
  pub payload_sha256 : String

pub record ValidationSuspensionRecord : Type 0 where
  pub suspension_record_id : ℕ
  pub validation_attempt_id : ℕ
  pub target_selection_id : ℕ
  pub condition_id : ValidationSuspensionCondition
  pub lifecycle_position : SuspensionLifecyclePosition
  pub status : SuspensionRecordStatus
  pub verifier_application_build_id : String
  pub target_selection_sha256 : String
  pub intended_test_id : String
  pub intended_case_id : Option String
  pub failed_required_input_role : Option String
  pub evidence : List ValidationSuspensionEvidence
  pub scenario_run_id : Option ℕ
  pub validation_execution_id : Option ℕ
  pub created_at : ℕ
  pub finalised_at : Option ℕ

abbrev pub is_pre_entry : SuspensionLifecyclePosition → Bool
is_pre_entry pre_execution_entry = true
is_pre_entry execution_in_progress = false
is_pre_entry evidence_finalisation = false

abbrev pub is_evidence_finalisation : SuspensionLifecyclePosition → Bool
is_evidence_finalisation evidence_finalisation = true
is_evidence_finalisation pre_execution_entry = false
is_evidence_finalisation execution_in_progress = false

-- The validator of a suspension.
unfoldable pub suspension_valid : ValidationSuspensionRecord → Bool
suspension_valid r =
    (if is_finalised_suspension r.status
      then is_some r.finalised_at
      else not (is_some r.finalised_at))
    && (if is_pre_entry r.lifecycle_position
        then not (is_some r.scenario_run_id) && not (is_some r.validation_execution_id)
        else is_some r.scenario_run_id && is_some r.validation_execution_id)

-- A link of schema 1.1.
pub record CompositeConstituentLink : Type 0 where
  pub case_id : String
  pub source_kind : CompositeConstituentSourceKind
  pub validation_execution_id : Option ℕ
  pub executed_result_id : Option ℕ
  pub suspension_record_id : Option ℕ
  pub scenario_run_id : Option ℕ
  pub case_definition_sha256 : Option String
  pub unavailable_required_input_role : Option RequiredInputRole
  pub constituent_verdict : Option ValidationVerdict
  pub evidence_snapshot_ids : List ℕ

abbrev pub pass_or_fail : ValidationVerdict → Bool
pass_or_fail pass_verdict = true
pass_or_fail fail_verdict = true
pass_or_fail not_run = false
pass_or_fail blocked_test = false

abbrev pub is_blocked_test : ValidationVerdict → Bool
is_blocked_test blocked_test = true
is_blocked_test pass_verdict = false
is_blocked_test fail_verdict = false
is_blocked_test not_run = false

abbrev absent_or : (ValidationVerdict → Bool) → Option ValidationVerdict → Bool
absent_or p none = true
absent_or p (some v) = p v

abbrev present_and : (ValidationVerdict → Bool) → Option ValidationVerdict → Bool
present_and p none = false
present_and p (some v) = p v

-- The validator of a link: it has one source, an execution with its result or a suspension.
unfoldable pub link_valid : CompositeConstituentLink → Bool
link_valid l =
    if is_execution_result l.source_kind
    then is_some l.validation_execution_id
      && not (is_some l.suspension_record_id)
      && is_some l.executed_result_id
      && not (is_some l.unavailable_required_input_role)
      && absent_or pass_or_fail l.constituent_verdict
    else not (is_some l.validation_execution_id)
      && is_some l.suspension_record_id
      && not (is_some l.executed_result_id)
      && present_and is_blocked_test l.constituent_verdict

pub record CompositeCompleteness : Type 0 where
  pub status : CompositeCompletenessStatus
  pub required_case_ids : List String
  pub present_case_ids : List String
  pub missing_case_ids : List String
  pub duplicate_case_ids : List String
  pub mismatched_case_ids : List String

-- `source_record_references` prints the identifiers of the links.
pub record CompositeValidationResult : Type 0 where
  pub composite_result_id : ℕ
  pub test_id : String
  pub test_definition_version : String
  pub test_definition_sha256 : String
  pub catalogue_version : String
  pub catalogue_sha256 : String
  pub evidence_class : EvidenceClass
  pub application_build_id : String
  pub configuration_id : String
  pub configuration_version : String
  pub required_case_ids : List String
  pub constituent_links : List CompositeConstituentLink
  pub completeness : CompositeCompleteness
  pub status : CompositeResultStatus
  pub determination : Option ValidationVerdict
  pub created_at : ℕ
  pub finalised_at : Option ℕ

-- The validator of a composite.
unfoldable pub composite_valid : CompositeValidationResult → Bool
composite_valid c =
    (if is_finalised_composite c.status
      then is_complete_composite c.completeness.status
        && is_some c.determination
        && is_some c.finalised_at
      else not (is_some c.determination && is_some c.finalised_at))
    && absent_or (λ v. pass_or_fail v || is_blocked_test v) c.determination
