-- ===== src/Validation/Composite/Assemble/Execution.antt =====
-- app/backend/ot_demo/modules/validation/service.py: the round of `assemble_composite` for an
-- execution.
use ot_engineering_demonstra.Base.{
  String, ◌==◌, ℕ, nat_eq, Bool, true, false, ◌&&◌, Option, none, some, List, [], ◌∷◌, ◌++◌, all,
  same_by, record_not_found, validation_error, validation_error_boundary, Result, ok, err, guard,
  or_raise, ◌>>=◌, ◌>>◌,
}
use ot_engineering_demonstra.Domain.{exploratory, exploration}
use ot_engineering_demonstra.Domain.Assurance.{same_class, is_active_execution}
use ot_engineering_demonstra.Domain.Composite.{same_mode, execution_result}
use ot_engineering_demonstra.Scenario.{RunContext}
use ot_engineering_demonstra.Scenario.Store.{get_run}
use ot_engineering_demonstra.Validation.{
  LoadedValidationDefinition, ConstituentCaseDefinition, ValidationExecution,
  ExecutedValidationResult,
}
use ot_engineering_demonstra.Validation.Catalogue.{find_last}
use ot_engineering_demonstra.Validation.Evidence.{
  EvidenceSnapshot, CompositeConstituentLink, link_valid,
}
use ot_engineering_demonstra.Validation.Store.{DeterminationStore}
use ot_engineering_demonstra.Validation.Composite.{CompositeService, verified_executed_result}
use ot_engineering_demonstra.Validation.Composite.Provenance.{same_text}
use ot_engineering_demonstra.Validation.Composite.Finalise.{decided}

pub record ExecutionSummary : Type 0 where
  pub execution : ValidationExecution
  pub evidence_snapshots : List EvidenceSnapshot

-- What the loops carry on: the links, the unfinished cases, and the identities that the
-- constituents have in common.
pub record Assembly : Type 0 where
  pub links : List CompositeConstituentLink
  pub unfinished : List String
  pub configuration : Option (String × Option String)
  pub application_build_id : Option String

abbrev pub case_by_id : LoadedValidationDefinition → String → Option ConstituentCaseDefinition
case_by_id definition case_id =
    find_last (λ c. c.case_id == case_id) definition.definition.constituent_cases

module _ (service : CompositeService) where
  abbrev pub provenance :
      LoadedValidationDefinition → ConstituentCaseDefinition → ValidationExecution → Bool
  provenance definition case_ execution =
      execution.test_id == definition.definition.test_id
      && execution.test_definition_version == definition.definition.version
      && execution.test_definition_sha256 == definition.definition_sha256
      && execution.catalogue_version == definition.catalogue_version
      && execution.catalogue_sha256 == definition.catalogue_sha256
      && same_text execution.case_definition_version (some case_.version)
      && same_text execution.case_definition_sha256 (some (service.case_sha256 case_))
      && execution.application_build_id == service.application_build_id
      && execution.configuration_version == "1.1"
      && execution.configuration_id == service.corrected_configuration_id
      && same_by same_mode execution.scenario_mode (some exploration)
      && same_class execution.evidence_class exploratory

  abbrev pub evidence_of_case :
      ConstituentCaseDefinition → String → ValidationExecution → EvidenceSnapshot → Bool
  evidence_of_case case_ case_id execution evidence =
      nat_eq evidence.validation_execution_id execution.validation_execution_id
      && same_by nat_eq (some evidence.scenario_run_id) execution.scenario_run_id
      && same_text evidence.case_id (some case_id)
      && same_text evidence.case_definition_sha256 (some (service.case_sha256 case_))

abbrev pub run_of_execution : ConstituentCaseDefinition → ValidationExecution → RunContext → Bool
run_of_execution case_ execution run =
    same_by nat_eq (some run.scenario_run_id) execution.scenario_run_id
    && same_mode run.mode exploration
    && same_class run.evidence_class exploratory
    && run.configuration_id == execution.configuration_id
    && run.configuration_version == execution.configuration_version
    && run.application_build_id == execution.application_build_id
    && run.fault_section_id == case_.selected_fault_section_id

-- The first constituent sets the identities; the others have the same configuration.
abbrev pub with_common : ValidationExecution → Assembly → Result Assembly
with_common execution assembly = elim assembly.configuration [
  | none ↦ ok (record assembly {
    configuration = some (execution.configuration_id, some execution.configuration_version);
    application_build_id = some execution.application_build_id;
  })
  | some common ↦
      guard (execution.configuration_id == common.0) validation_error_boundary >> ok assembly
]

abbrev pub link_of :
    String
    → ConstituentCaseDefinition
    → ExecutedValidationResult
    → ValidationExecution
    → (ConstituentCaseDefinition → String)
    → CompositeConstituentLink
link_of case_id case_ result execution case_sha256 = record {
  case_id = case_id;
  source_kind = execution_result;
  validation_execution_id = some execution.validation_execution_id;
  executed_result_id = some result.executed_result_id;
  suspension_record_id = none;
  scenario_run_id = execution.scenario_run_id;
  case_definition_sha256 = some (case_sha256 case_);
  unavailable_required_input_role = none;
  constituent_verdict = execution.verdict;
  evidence_snapshot_ids = execution.evidence_snapshot_ids;
}

abbrev pub find_run : CompositeService → Option ℕ → Result RunContext
find_run service none = err record_not_found
find_run service (some i) = get_run service.scenarios i

unfoldable pub finished_link :
    CompositeService
    → String
    → ConstituentCaseDefinition
    → ExecutionSummary
    → DeterminationStore
    → Result CompositeConstituentLink
finished_link service case_id case_ summary store = do
  guard (decided summary.execution.verdict) validation_error_boundary
  result ← verified_executed_result summary.execution summary.evidence_snapshots store
  let link = link_of case_id case_ result summary.execution service.case_sha256
  guard (link_valid link) validation_error
  ok link

abbrev pub add_link : Assembly → CompositeConstituentLink → Assembly
add_link assembly link = record assembly { links = assembly.links ++ (link ∷ []) }

abbrev pub add_unfinished : Assembly → String → Assembly
add_unfinished assembly case_id = record assembly {
  unfinished = assembly.unfinished ++ (case_id ∷ []);
}

unfoldable pub add_execution :
    CompositeService
    → LoadedValidationDefinition
    → DeterminationStore
    → ExecutionSummary
    → Assembly
    → Result Assembly
add_execution service definition store summary assembly = do
  let execution = summary.execution
  case_id ← or_raise execution.case_id validation_error_boundary
  case_ ← or_raise (case_by_id definition case_id) validation_error_boundary
  guard (provenance service definition case_ execution) validation_error_boundary
  common ← with_common execution assembly
  run ← find_run service execution.scenario_run_id
  guard (run_of_execution case_ execution run) validation_error_boundary
  guard (all (evidence_of_case service case_ case_id execution) summary.evidence_snapshots)
      validation_error_boundary
  elim (is_active_execution execution.status) [
    | true ↦ ok (add_unfinished common case_id)
    | false ↦
        finished_link service case_id case_ summary store >>= λ link. ok (add_link common link)
  ]

unfoldable pub add_executions :
    CompositeService
    → LoadedValidationDefinition
    → DeterminationStore
    → List ExecutionSummary
    → Assembly
    → Result Assembly
add_executions service definition store [] assembly = ok assembly
add_executions service definition store (summary ∷ summaries) assembly = do
  added ← add_execution service definition store summary assembly
  add_executions service definition store summaries added
