-- ===== src/Validation.antt =====
-- app/backend/ot_demo/modules/validation/models.py: the controlled definitions and the records of a
-- determination. UUIDs are numbers; the texts for a reader, and the digests that a record carries
-- of itself, are left out.
pub mod Value
pub mod Catalogue
pub mod Composite
pub mod Evidence
pub mod Store
pub mod Adapters
pub mod Determination
use ot_engineering_demonstra.Base.{
  String, ◌==◌, ℕ, Bool, true, false, not, ◌&&◌, ◌||◌, Option, none, some, List, [], ◌∷◌, map, all,
  any, contains, distinct, is_some, Dict, is_empty, if◌then◌else◌,
}
use ot_engineering_demonstra.Domain.{EvidenceClass, ScenarioMode}
use ot_engineering_demonstra.Domain.Assurance.{
  ValidationExecutionStatus, ValidationAttemptStatus, ValidationVerdict, DeterminationContextKind,
  CriterionKind, machine_comparison, engineering_review, DeterminationOperator,
  CriterionFindingStatus, DeterminationCompletenessStatus, DeterminationContextStatus,
  DeterminationSourceAdapterKind, RequiredInputRole, is_scenario, is_review_operator,
  is_not_evaluated, is_frozen,
}
use Value.{Json}

abbrev pub same_option : Option String → Option String → Bool
same_option none none = true
same_option none (some b) = false
same_option (some a) none = false
same_option (some a) (some b) = a == b

pub record CriterionDefinition : Type 0 where
  pub criterion_id : String
  pub version : String
  pub criterion_sha256 : String
  pub kind : CriterionKind
  pub test_id : String
  pub case_id : Option String
  pub context_checkpoint : String
  pub expected_value : Json
  pub source_selector : String
  pub operator : DeterminationOperator
  pub normalisation : String
  pub required_evidence : String
  pub evidence_roles : List String
  pub requirement_ids : List String

pub record ControlledFixtureDefinition : Type 0 where
  pub test_id : String
  pub method_id : String

pub record DeterminationMethodDefinition : Type 0 where
  pub method_id : String
  pub version : String
  pub method_sha256 : String
  pub test_id : String
  pub case_id : Option String
  pub evidence_class : EvidenceClass
  pub context_kind : DeterminationContextKind
  pub required_context_roles : List String
  pub criterion_ids : List String
  pub criteria : List CriterionDefinition
  pub controlled_fixture : Option ControlledFixtureDefinition

abbrev same_ids : List String → List String → Bool
same_ids [] [] = true
same_ids [] (y ∷ ys) = false
same_ids (x ∷ xs) [] = false
same_ids (x ∷ xs) (y ∷ ys) = x == y && same_ids xs ys

-- The validator of a criterion; the test of its digest is left out.
unfoldable pub criterion_valid : List String → CriterionDefinition → Bool
criterion_valid profiles c =
    contains profiles c.normalisation && distinct c.requirement_ids && elim c.kind [
      | engineering_review ↦ is_review_operator c.operator
      | machine_comparison ↦ not (is_review_operator c.operator)
    ]

abbrev fixture_bound : DeterminationMethodDefinition → Option ControlledFixtureDefinition → Bool
fixture_bound m none = true
fixture_bound m (some f) = f.test_id == m.test_id && f.method_id == m.method_id

abbrev is_fixture_context : DeterminationContextKind → Bool
is_fixture_context DeterminationContextKind.controlled_fixture_execution = true
is_fixture_context DeterminationContextKind.scenario_execution = false
is_fixture_context DeterminationContextKind.preserved_record_set = false
is_fixture_context DeterminationContextKind.engineering_review_context = false

-- The validator of a method.
unfoldable pub method_valid : DeterminationMethodDefinition → Bool
method_valid m =
    same_ids (map (λ c. c.criterion_id) m.criteria) m.criterion_ids
    && distinct m.criterion_ids
    && all (λ c. c.test_id == m.test_id && same_option c.case_id m.case_id) m.criteria
    && (if is_fixture_context m.context_kind
        then is_some m.controlled_fixture
        else not (is_some m.controlled_fixture))
    && fixture_bound m m.controlled_fixture

pub record ConstituentCaseDefinition : Type 0 where
  pub case_id : String
  pub test_id : String
  pub version : String
  pub selected_fault_section_id : String
  pub determination_method : Option DeterminationMethodDefinition

pub record ValidationTestDefinition : Type 0 where
  pub test_id : String
  pub version : String
  pub evidence_class : EvidenceClass
  pub expected_result_statement : String
  pub constituent_cases : List ConstituentCaseDefinition
  pub determination_method : Option DeterminationMethodDefinition

pub record LoadedValidationDefinition : Type 0 where
  pub definition : ValidationTestDefinition
  pub definition_sha256 : String
  pub catalogue_id : String
  pub catalogue_version : String
  pub catalogue_sha256 : String

pub record ValidationTargetSelection : Type 0 where
  pub target_selection_id : ℕ
  pub test_id : String
  pub case_id : Option String
  pub test_definition_version : Option String
  pub test_definition_sha256 : Option String
  pub catalogue_version : Option String
  pub catalogue_sha256 : Option String
  pub case_definition_version : Option String
  pub case_definition_sha256 : Option String
  pub evidence_class : EvidenceClass
  pub configuration_id : Option String
  pub configuration_version : Option String
  pub target_application_build_id : Option String
  pub unresolved_required_role : Option RequiredInputRole
  pub intended_identity_evidence : Dict Json
  pub assurance_verifier_application_build_id : Option String
  pub canonical_selection_sha256 : String
  pub created_at : ℕ

pub record ValidationAttempt : Type 0 where
  pub validation_attempt_id : ℕ
  pub target_selection_id : ℕ
  pub status : ValidationAttemptStatus
  pub scenario_run_id : Option ℕ
  pub validation_execution_id : Option ℕ
  pub created_at : ℕ
  pub updated_at : ℕ

pub record ValidationExecution : Type 0 where
  pub validation_execution_id : ℕ
  pub test_id : String
  pub test_definition_version : String
  pub test_definition_sha256 : String
  pub catalogue_version : String
  pub catalogue_sha256 : String
  pub case_id : Option String
  pub case_definition_version : Option String
  pub case_definition_sha256 : Option String
  pub context_kind : DeterminationContextKind
  pub scenario_run_id : Option ℕ
  pub scenario_mode : Option ScenarioMode
  pub evidence_class : EvidenceClass
  pub configuration_id : String
  pub configuration_version : String
  pub application_build_id : String
  pub status : ValidationExecutionStatus
  pub started_at : Option ℕ
  pub finalised_scenario_time : Option ℕ
  pub finalised_at : Option ℕ
  pub observed_criterion_finding_ids : List ℕ
  pub evidence_snapshot_ids : List ℕ
  pub verdict : Option ValidationVerdict
  pub repeat_of_execution_id : Option ℕ
  pub validation_attempt_id : Option ℕ
  pub target_selection_id : Option ℕ
  pub executed_result_id : Option ℕ

-- A result of DC-006; `result_schema_version` is 1.1.
pub record ExecutedValidationResult : Type 0 where
  pub executed_result_id : ℕ
  pub validation_attempt_id : ℕ
  pub validation_execution_id : Option ℕ
  pub determination_context_id : ℕ
  pub test_id : String
  pub case_id : Option String
  pub catalogue_version : String
  pub catalogue_sha256 : String
  pub method_id : String
  pub method_version : String
  pub method_sha256 : String
  pub verdict : ValidationVerdict
  pub evidence_snapshot_ids : List ℕ
  pub criterion_finding_ids : List ℕ
  pub finalised_at : ℕ

pub record AuthoritativeRecordSnapshot : Type 0 where
  pub record_type : String
  pub record_id : String
  pub record_version : String
  pub owner_module : String
  pub application_build_id : String
  pub configuration_id : Option String
  pub configuration_version : Option String
  pub scenario_run_id : Option ℕ
  pub validation_execution_id : Option ℕ
  pub evidence_class : EvidenceClass
  pub canonical_payload : Json
  pub canonical_payload_sha256 : String

-- `authority_records` and `evidence_references` are the entries of the payload that are read again.
pub record DeterminationSourceRecord : Type 0 where
  pub source_record_id : ℕ
  pub source_type : DeterminationSourceAdapterKind
  pub owner_module : String
  pub source_role : String
  pub validation_attempt_id : ℕ
  pub test_id : String
  pub case_id : Option String
  pub catalogue_version : String
  pub catalogue_sha256 : String
  pub method_id : String
  pub method_version : String
  pub method_sha256 : String
  pub eligible_criterion_ids : List String
  pub application_build_id : String
  pub configuration_id : Option String
  pub configuration_version : Option String
  pub scenario_run_id : Option ℕ
  pub validation_execution_id : Option ℕ
  pub evidence_class : EvidenceClass
  pub authority_records : List AuthoritativeRecordSnapshot
  pub evidence_references : List String
  pub canonical_payload_sha256 : String
  pub created_at : ℕ

pub record DeterminationContextMember : Type 0 where
  pub role : String
  pub source_record_id : ℕ
  pub source_record_sha256 : String

pub record DeterminationContext : Type 0 where
  pub determination_context_id : ℕ
  pub validation_attempt_id : ℕ
  pub test_id : String
  pub case_id : Option String
  pub evidence_class : EvidenceClass
  pub catalogue_version : String
  pub catalogue_sha256 : String
  pub method_id : String
  pub method_version : String
  pub method_sha256 : String
  pub context_kind : DeterminationContextKind
  pub status : DeterminationContextStatus
  pub application_build_id : String
  pub configuration_id : Option String
  pub configuration_version : Option String
  pub scenario_run_id : Option ℕ
  pub validation_execution_id : Option ℕ
  pub members : List DeterminationContextMember
  pub created_at : ℕ
  pub frozen_at : Option ℕ

-- The validator of a context.
unfoldable pub context_valid : DeterminationContext → Bool
context_valid c =
    is_some c.validation_execution_id
    && (if is_scenario c.context_kind
        then is_some c.scenario_run_id
        else not (is_some c.scenario_run_id))
    && (if is_frozen c.status
        then is_some c.frozen_at && not (is_empty c.members)
        else not (is_some c.frozen_at))
    && distinct (map (λ m. m.role) c.members)

pub record CriterionFinding : Type 0 where
  pub criterion_finding_id : ℕ
  pub determination_context_id : ℕ
  pub criterion_id : String
  pub criterion_version : String
  pub criterion_sha256 : String
  pub expected_value : Json
  pub observed_value : Json
  pub status : CriterionFindingStatus
  pub source_record_ids : List ℕ
  pub evidence_references : List String
  pub finalised_at : Option ℕ

-- The validator of a finding: only evaluated findings carry a finalisation time.
unfoldable pub finding_valid : CriterionFinding → Bool
finding_valid f =
    if is_not_evaluated f.status then not (is_some f.finalised_at) else is_some f.finalised_at

pub record EngineeringReviewProposal : Type 0 where
  pub review_proposal_id : ℕ
  pub determination_context_id : ℕ
  pub criterion_id : String
  pub proposed_finding : CriterionFindingStatus
  pub proposer_actor_id : String
  pub proposer_role : String
  pub evidence_references : List String
  pub proposed_at : ℕ

pub record EngineeringReviewFinalisation : Type 0 where
  pub review_finalisation_id : ℕ
  pub review_proposal_id : ℕ
  pub determination_context_id : ℕ
  pub criterion_id : String
  pub final_finding : CriterionFindingStatus
  pub reviewer_actor_id : String
  pub reviewer_role : String
  pub finalised_at : ℕ

pub record DeterminationCompleteness : Type 0 where
  pub status : DeterminationCompletenessStatus
  pub required_criterion_ids : List String
  pub evaluated_criterion_ids : List String
  pub missing_criterion_ids : List String
  pub duplicate_criterion_ids : List String
