-- ===== src/Validation/Composite/Assemble/Suspension.antt =====
-- app/backend/ot_demo/modules/validation/service.py: the round of `assemble_composite` for a
-- suspension.
use ot_engineering_demonstra.Base.{
  String, ◌==◌, nat_eq, Bool, true, false, not, ◌&&◌, ◌||◌, Option, none, some, List, [], ◌∷◌, map,
  is_some, same_by, lookup, key_error, validation_error, validation_error_boundary, Result, ok,
  guard, or_raise, ◌>>=◌, ◌>>◌, if◌then◌else◌,
}
use ot_engineering_demonstra.Domain.{exploratory}
use ot_engineering_demonstra.Domain.Assurance.{
  same_class, vsc_003, RequiredInputRole, catalogue, test_definition, case_definition,
  configuration, application_build, blocked_test,
}
use ot_engineering_demonstra.Domain.Composite.{
  is_finalised_suspension, is_suspended, same_condition, same_role, role_value, suspension_result,
}
use ot_engineering_demonstra.Validation.{
  LoadedValidationDefinition, ConstituentCaseDefinition, ValidationTargetSelection,
}
use ot_engineering_demonstra.Validation.Value.{Json, text, object, field, end, json_equal}
use ot_engineering_demonstra.Validation.Evidence.{
  CompositeConstituentLink, ValidationSuspensionRecord, link_valid,
}
use ot_engineering_demonstra.Validation.Store.{DeterminationStore, get_target}
use ot_engineering_demonstra.Validation.Composite.{CompositeService, provenance_as_boundary}
use ot_engineering_demonstra.Validation.Composite.Provenance.{
  ResolvedSuspensionSource, resolve_suspension_source, same_text,
}
use ot_engineering_demonstra.Validation.Composite.Assemble.Execution.{
  Assembly, case_by_id, add_link,
}

-- The role that a suspension under VSC-003 has found unresolved, which is the target's.
abbrev pub unavailable_role :
    ValidationSuspensionRecord → ValidationTargetSelection → Option RequiredInputRole
unavailable_role r target =
    if same_condition r.condition_id vsc_003
      && same_text r.failed_required_input_role (role_text target.unresolved_required_role)
    then target.unresolved_required_role
    else none
  where
    role_text : Option RequiredInputRole → Option String
    role_text none = none
    role_text (some role) = some (role_value role)

abbrev pair_of : String → String → String → String → Json
pair_of k v j w = object (field k (text v) (field j (text w) end))

-- `intended[role.value] == expected`
abbrev intended : ValidationTargetSelection → RequiredInputRole → Json → Result Bool
intended target role expected = do
  value ← or_raise (lookup (role_value role) target.intended_identity_evidence) key_error
  ok (json_equal value expected)

-- `first and rest`, the rest evaluated only where the first holds
abbrev and_then : Result Bool → Result Bool → Result Bool
and_then first rest = first >>= λ b. elim b [ false ↦ ok false | true ↦ rest ]

module _ (service : CompositeService) (definition : LoadedValidationDefinition) where
  abbrev pub intended_matches : ConstituentCaseDefinition → ValidationTargetSelection → Result Bool
  intended_matches case_ target =
      and_then
        (intended target catalogue (
          pair_of "catalogue_version" definition.catalogue_version "catalogue_sha256"
            definition.catalogue_sha256))
        (and_then
          (intended target test_definition (
            pair_of "test_definition_version" definition.definition.version "test_definition_sha256"
              definition.definition_sha256))
          (and_then
            (intended target case_definition (
              pair_of "case_definition_version" case_.version "case_definition_sha256"
                (service.case_sha256 case_)))
            (and_then
              (intended target configuration (
                pair_of "configuration_id" service.corrected_configuration_id
                  "configuration_version" "1.1"))
              (intended target application_build
                (object (field "application_build_id" (text service.application_build_id) end))))))

  -- What is not the unavailable role agrees with the definition, the case and the service.
  abbrev target_agrees :
      ConstituentCaseDefinition → ValidationTargetSelection → Option RequiredInputRole → Bool
  target_agrees case_ target role =
      (is_role test_definition
        || (same_text target.test_definition_version (some definition.definition.version)
            && same_text target.test_definition_sha256 (some definition.definition_sha256)))
      && (is_role catalogue
          || (same_text target.catalogue_version (some definition.catalogue_version)
              && same_text target.catalogue_sha256 (some definition.catalogue_sha256)))
      && (is_role case_definition
          || same_text target.case_definition_sha256 (some (service.case_sha256 case_)))
      && (is_role configuration
          || (same_text target.configuration_version (some "1.1")
              && same_text target.configuration_id (some service.corrected_configuration_id)))
      && (is_role application_build
          || same_text target.target_application_build_id (some service.application_build_id))
    where
      is_role : RequiredInputRole → Bool
      is_role r = same_by same_role role (some r)

  abbrev run_of_case : ConstituentCaseDefinition → ResolvedSuspensionSource → Bool
  run_of_case case_ source = elim source.run [
    | none ↦ true
    | some run ↦ run.fault_section_id == case_.selected_fault_section_id
  ]

  abbrev pub suspension_provenance :
      ConstituentCaseDefinition
      → ValidationSuspensionRecord
      → ValidationTargetSelection
      → ResolvedSuspensionSource
      → Bool
      → Bool
  suspension_provenance case_ r target source matches =
      is_finalised_suspension r.status
      && is_suspended source.attempt.status
      && nat_eq r.target_selection_id target.target_selection_id
      && target.test_id == definition.definition.test_id
      && matches
      && target_agrees case_ target (unavailable_role r target)
      && same_class target.evidence_class exploratory
      && same_text target.assurance_verifier_application_build_id
          (some service.application_build_id)
      && r.verifier_application_build_id == service.application_build_id
      && run_of_case case_ source

  abbrev pub suspension_link :
      String
      → ConstituentCaseDefinition
      → ValidationSuspensionRecord
      → Option RequiredInputRole
      → ResolvedSuspensionSource
      → CompositeConstituentLink
  suspension_link case_id case_ r role source = record {
    case_id = case_id;
    source_kind = suspension_result;
    validation_execution_id = none;
    executed_result_id = none;
    suspension_record_id = some r.suspension_record_id;
    scenario_run_id = r.scenario_run_id;
    case_definition_sha256 =
        if same_by same_role role (some case_definition)
        then none
        else some (service.case_sha256 case_);
    unavailable_required_input_role = role;
    constituent_verdict = some blocked_test;
    evidence_snapshot_ids = map (λ e. e.evidence_snapshot_id) source.evidence_snapshots;
  }

-- The configuration of a target is set, or agrees with the one in common, where it has one.
abbrev pub common_configuration :
    ValidationTargetSelection
    → Option (String × Option String)
    → Result (Option (String × Option String))
common_configuration target common = elim target.configuration_id [
  | none ↦ ok common
  | some i ↦ elim common [
    | none ↦ ok (some (i, target.configuration_version))
    | some c ↦
        guard (i == c.0 && same_text target.configuration_version c.1) validation_error_boundary
        >> ok (some c)
  ]
]

abbrev pub common_build : ValidationTargetSelection → Option String → Result (Option String)
common_build target common = elim target.target_application_build_id [
  | none ↦ ok common
  | some b ↦ elim common [
    | none ↦ ok (some b)
    | some c ↦ guard (b == c) validation_error_boundary >> ok (some c)
  ]
]

unfoldable pub checked_source :
    CompositeService
    → LoadedValidationDefinition
    → DeterminationStore
    → ValidationSuspensionRecord
    → ValidationTargetSelection
    → ConstituentCaseDefinition
    → Result ResolvedSuspensionSource
checked_source service definition store r target case_ = do
  source ← provenance_as_boundary (resolve_suspension_source service r store)
  guard (not (is_some target.unresolved_required_role) || is_some (unavailable_role r target))
      validation_error_boundary
  matches ← intended_matches service definition case_ target
  guard (suspension_provenance service definition case_ r target source matches)
      validation_error_boundary
  ok source

-- The target is the one that was read with the suspension, before the loops.
unfoldable pub add_suspension :
    CompositeService
    → LoadedValidationDefinition
    → DeterminationStore
    → ValidationSuspensionRecord
    → Assembly
    → Result Assembly
add_suspension service definition store r assembly = do
  target ← get_target r.target_selection_id store
  case_id ← or_raise target.case_id validation_error_boundary
  case_ ← or_raise (case_by_id definition case_id) validation_error_boundary
  source ← checked_source service definition store r target case_
  configuration_ ← common_configuration target assembly.configuration
  build ← common_build target assembly.application_build_id
  let link = suspension_link service definition case_id case_ r (unavailable_role r target) source
  guard (link_valid link) validation_error
  ok (
      add_link (record assembly { configuration = configuration_; application_build_id = build })
        link)

unfoldable pub add_suspensions :
    CompositeService
    → LoadedValidationDefinition
    → DeterminationStore
    → List ValidationSuspensionRecord
    → Assembly
    → Result Assembly
add_suspensions service definition store [] assembly = ok assembly
add_suspensions service definition store (r ∷ rs) assembly = do
  added ← add_suspension service definition store r assembly
  add_suspensions service definition store rs added
