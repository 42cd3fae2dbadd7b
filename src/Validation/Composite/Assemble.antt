-- ===== src/Validation/Composite/Assemble.antt =====
-- app/backend/ot_demo/modules/validation/service.py: `assemble_composite`. The rounds of its two
-- loops are in Execution and Suspension.
pub mod Execution
pub mod Suspension
pub mod Covered
pub mod Complete
use ot_engineering_demonstra.Base.{
  String, ◌==◌, ℕ, nat_eq, Bool, true, false, not, ◌&&◌, ◌||◌, Option, none, some, List, [], ◌∷◌,
  ◌++◌, map, filter, contains, distinct, is_empty, is_some, unrepeated, map_m, str_leb,
  validation_error_boundary, validation_error, Result, ok, err, guard, or_raise, ◌>>=◌, ◌>>◌,
  if◌then◌else◌,
}
use ot_engineering_demonstra.Base.Sort.{sort_by}
use ot_engineering_demonstra.Domain.{exploratory}
use ot_engineering_demonstra.Domain.Assurance.{same_class}
use ot_engineering_demonstra.Domain.Composite.{
  incomplete_composite, complete_composite, draft_composite,
}
use ot_engineering_demonstra.Validation.{
  LoadedValidationDefinition, ConstituentCaseDefinition, ValidationExecution,
  ValidationTargetSelection,
}
use ot_engineering_demonstra.Validation.Catalogue.{get, somes}
use ot_engineering_demonstra.Validation.Evidence.{
  EvidenceSnapshot, CompositeConstituentLink, CompositeCompleteness, CompositeValidationResult,
  ValidationSuspensionRecord, composite_valid,
}
use ot_engineering_demonstra.Validation.Store.{
  DeterminationStore, get_execution, get_suspension, get_target, list_evidence,
}
use ot_engineering_demonstra.Validation.Store.Composites.{insert_composite}
use ot_engineering_demonstra.Validation.Store.Action.{Action, commit}
use ot_engineering_demonstra.Validation.Composite.{CompositeService}
use Execution.{Assembly, ExecutionSummary, add_execution, add_executions}
use Suspension.{add_suspension, add_suspensions}

pub record AssembleCompositeRequest : Type 0 where
  pub test_id : String
  pub validation_execution_ids : List ℕ
  pub validation_suspension_record_ids : List ℕ
  pub created_at : ℕ

abbrev summary : DeterminationStore → ℕ → Result ExecutionSummary
summary store i = do
  execution ← get_execution i store
  ok (record { execution = execution; evidence_snapshots = list_evidence i store })

abbrev suspension_target :
    DeterminationStore → ValidationSuspensionRecord → Result ValidationTargetSelection
suspension_target store r = get_target r.target_selection_id store

-- The cases of the constituents, each of which may be absent.
abbrev seen_case_ids : List ExecutionSummary → List ValidationTargetSelection → List String
seen_case_ids summaries targets =
    somes (map (λ s. s.execution.case_id) summaries ++ map (λ t. t.case_id) targets)

abbrev pub present_cases : Assembly → List String
present_cases assembly = sort_by str_leb (map (λ l. l.case_id) assembly.links)

abbrev pub missing_cases : List String → Assembly → List String
missing_cases required assembly = filter (λ i. not (contains (present_cases assembly) i)) required

abbrev pub is_complete_assembly : List String → Assembly → Bool
is_complete_assembly required assembly =
    is_empty (missing_cases required assembly) && is_empty assembly.unfinished

-- A case that is seen twice has raised before, and no round records a mismatch.
abbrev assembly_completeness : List String → Assembly → CompositeCompleteness
assembly_completeness required assembly = record {
  status =
      if is_complete_assembly required assembly then complete_composite else incomplete_composite;
  required_case_ids = required;
  present_case_ids = present_cases assembly;
  missing_case_ids = missing_cases required assembly;
  duplicate_case_ids = [];
  mismatched_case_ids = [];
}

abbrev pub draft_of :
    LoadedValidationDefinition
    → AssembleCompositeRequest
    → ℕ
    → List String
    → Assembly
    → String
    → String
    → String
    → CompositeValidationResult
draft_of definition request composite_id required assembly configuration version build = record {
  composite_result_id = composite_id;
  test_id = request.test_id;
  test_definition_version = definition.definition.version;
  test_definition_sha256 = definition.definition_sha256;
  catalogue_version = definition.catalogue_version;
  catalogue_sha256 = definition.catalogue_sha256;
  evidence_class = exploratory;
  application_build_id = build;
  configuration_id = configuration;
  configuration_version = version;
  required_case_ids = required;
  constituent_links = sort_by (λ a b. str_leb a.case_id b.case_id) assembly.links;
  completeness = assembly_completeness required assembly;
  status = draft_composite;
  determination = none;
  created_at = request.created_at;
  finalised_at = none;
}

-- The composite of what the loops have collected, its identifier given.
unfoldable pub composite_of :
    LoadedValidationDefinition
    → AssembleCompositeRequest
    → ℕ
    → List String
    → Assembly
    → Result CompositeValidationResult
composite_of definition request composite_id required assembly = do
  common ← or_raise assembly.configuration validation_error_boundary
  build ← or_raise assembly.application_build_id validation_error_boundary
  version ← or_raise common.1 validation_error
  let composite = draft_of definition request composite_id required assembly common.0 version build
  guard (composite_valid composite) validation_error
  ok composite

abbrev pub nothing_assembled : Assembly
nothing_assembled = record {
  links = [];
  unfinished = [];
  configuration = none;
  application_build_id = none;
}

unfoldable pub assembled :
    CompositeService
    → AssembleCompositeRequest
    → ℕ
    → DeterminationStore
    → Result CompositeValidationResult
assembled service request composite_id store = do
  guard (unrepeated nat_eq request.validation_execution_ids) validation_error_boundary
  guard (unrepeated nat_eq request.validation_suspension_record_ids) validation_error_boundary
  definition ← get service.catalogue request.test_id
  let cases = definition.definition.constituent_cases
  guard (not (is_empty cases)) validation_error_boundary
  guard (same_class definition.definition.evidence_class exploratory) validation_error_boundary
  summaries ← map_m (summary store) request.validation_execution_ids
  suspensions ← map_m (λ i. get_suspension i store) request.validation_suspension_record_ids
  targets ← map_m (suspension_target store) suspensions
  guard (distinct (seen_case_ids summaries targets)) validation_error_boundary
  executed ← add_executions service definition store summaries nothing_assembled
  all_added ← add_suspensions service definition store suspensions executed
  composite_of definition request composite_id (map (λ c. c.case_id) cases) all_added

-- A conflict of the repository is the service's own error.
unfoldable pub insert_assembled :
    CompositeValidationResult → DeterminationStore → Result DeterminationStore
insert_assembled composite store = elim (insert_composite composite store) [
  | ok store' ↦ ok store'
  | err failure ↦ err validation_error_boundary
]

unfoldable pub assemble_composite :
    CompositeService → AssembleCompositeRequest → ℕ → Action CompositeValidationResult
assemble_composite service request composite_id =
    commit (assembled service request composite_id) (λ composite. insert_assembled composite)
