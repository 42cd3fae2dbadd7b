-- ===== src/Domain/Assurance.antt =====
-- app/backend/ot_demo/domain/enums.py: the controlled values of validation and assurance.
use ot_engineering_demonstra.Base.{Bool, true, false, ℕ, nat_eq}
use ot_engineering_demonstra.Domain.{EvidenceClass, formal_evidence, exploratory}

pub data ValidationExecutionStatus : Type 0 where
  active_execution finalised_execution : ValidationExecutionStatus

pub data ValidationAttemptStatus : Type 0 where
  not_started active_attempt incomplete suspended executed : ValidationAttemptStatus

pub data ValidationSuspensionCondition : Type 0 where
  vsc_001 vsc_002 vsc_003 vsc_004 vsc_005 : ValidationSuspensionCondition

pub data SuspensionLifecyclePosition : Type 0 where
  pre_execution_entry execution_in_progress evidence_finalisation : SuspensionLifecyclePosition

pub data SuspensionAuthorityKind : Type 0 where
  engineering_authority backend_assurance : SuspensionAuthorityKind

pub data SuspensionEvaluationType : Type 0 where
  engineering_behaviour baseline_conflict identity_resolution : SuspensionEvaluationType
  time_authority integrity : SuspensionEvaluationType

pub data ClassifierGateOutcomeStatus : Type 0 where
  gate_pass gate_fail not_applicable not_reached : ClassifierGateOutcomeStatus

pub data RequiredInputRole : Type 0 where
  application_build configuration catalogue : RequiredInputRole
  test_definition case_definition controlled_fixture : RequiredInputRole

pub data ValidationVerdict : Type 0 where
  pass_verdict fail_verdict not_run blocked_test : ValidationVerdict

pub data DeterminationContextKind : Type 0 where
  scenario_execution controlled_fixture_execution : DeterminationContextKind
  preserved_record_set engineering_review_context : DeterminationContextKind

pub data CriterionKind : Type 0 where
  machine_comparison engineering_review : CriterionKind

pub data DeterminationOperator : Type 0 where
  scalar_equal numeric_equal boolean_equal canonical_set_equal : DeterminationOperator
  ordered_sequence_equal present_value absent_value identity_hash_agreement : DeterminationOperator
  canonical_record_equal review_finding_equal : DeterminationOperator

pub data CriterionFindingStatus : Type 0 where
  not_evaluated satisfied not_satisfied : CriterionFindingStatus

pub data DeterminationCompletenessStatus : Type 0 where
  incomplete_determination complete_determination : DeterminationCompletenessStatus

pub data DeterminationContextStatus : Type 0 where
  draft frozen : DeterminationContextStatus

pub data DeterminationSourceAdapterKind : Type 0 where
  configuration_package scenario_state fixture_source : DeterminationSourceAdapterKind
  operational_event_history validation_investigation_history : DeterminationSourceAdapterKind
  deterministic_repeat evidence_package nfr_review : DeterminationSourceAdapterKind

abbrev pub same_class : EvidenceClass → EvidenceClass → Bool
same_class formal_evidence formal_evidence = true
same_class formal_evidence exploratory = false
same_class exploratory formal_evidence = false
same_class exploratory exploratory = true

abbrev context_kind_index : DeterminationContextKind → ℕ
context_kind_index scenario_execution = 0
context_kind_index controlled_fixture_execution = 1
context_kind_index preserved_record_set = 2
context_kind_index engineering_review_context = 3

abbrev pub same_context_kind : DeterminationContextKind → DeterminationContextKind → Bool
same_context_kind a b = nat_eq (context_kind_index a) (context_kind_index b)

abbrev pub is_scenario : DeterminationContextKind → Bool
is_scenario scenario_execution = true
is_scenario controlled_fixture_execution = false
is_scenario preserved_record_set = false
is_scenario engineering_review_context = false

-- `status in {NOT_STARTED, ACTIVE, INCOMPLETE}`
abbrev pub is_open_attempt : ValidationAttemptStatus → Bool
is_open_attempt not_started = true
is_open_attempt active_attempt = true
is_open_attempt incomplete = true
is_open_attempt suspended = false
is_open_attempt executed = false

abbrev pub is_not_started : ValidationAttemptStatus → Bool
is_not_started not_started = true
is_not_started active_attempt = false
is_not_started incomplete = false
is_not_started suspended = false
is_not_started executed = false

abbrev pub is_active_execution : ValidationExecutionStatus → Bool
is_active_execution active_execution = true
is_active_execution finalised_execution = false

abbrev pub is_machine : CriterionKind → Bool
is_machine machine_comparison = true
is_machine engineering_review = false

abbrev pub is_review_operator : DeterminationOperator → Bool
is_review_operator review_finding_equal = true
is_review_operator scalar_equal = false
is_review_operator numeric_equal = false
is_review_operator boolean_equal = false
is_review_operator canonical_set_equal = false
is_review_operator ordered_sequence_equal = false
is_review_operator present_value = false
is_review_operator absent_value = false
is_review_operator identity_hash_agreement = false
is_review_operator canonical_record_equal = false

abbrev pub is_not_evaluated : CriterionFindingStatus → Bool
is_not_evaluated not_evaluated = true
is_not_evaluated satisfied = false
is_not_evaluated not_satisfied = false

abbrev pub is_not_satisfied : CriterionFindingStatus → Bool
is_not_satisfied not_satisfied = true
is_not_satisfied not_evaluated = false
is_not_satisfied satisfied = false

abbrev pub is_complete : DeterminationCompletenessStatus → Bool
is_complete complete_determination = true
is_complete incomplete_determination = false

abbrev pub is_frozen : DeterminationContextStatus → Bool
is_frozen frozen = true
is_frozen draft = false
