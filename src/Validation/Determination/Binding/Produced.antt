-- ===== src/Validation/Determination/Binding/Produced.antt =====
-- app/backend/ot_demo/modules/validation/determination.py: the source record that
-- `_persist_produced_source` makes of what the source authority produced for a role.
use ot_engineering_demonstra.Base.{
  String, ◌==◌, ℕ, List, map, all, filter, contains, determination_error, Result, ok, guard, ◌>>=◌,
  ◌>>◌,
}
use ot_engineering_demonstra.Domain.Assurance.{same_class}
use ot_engineering_demonstra.Validation.{
  CriterionDefinition, AuthoritativeRecordSnapshot, DeterminationSourceRecord,
}
use ot_engineering_demonstra.Validation.Adapters.{validate_capture, common_provenance}
use ot_engineering_demonstra.Validation.Adapters.Selector.{selector_roots}
use ot_engineering_demonstra.Validation.Catalogue.{get, get_method}
use ot_engineering_demonstra.Validation.Store.{DeterminationStore, get_attempt, get_target}
use ot_engineering_demonstra.Validation.Determination.{DeterminationService, ProducedRoleAuthority}

-- A source is eligible for the criteria whose selectors start at the types of its records.
unfoldable pub eligible_criteria :
    List CriterionDefinition → List AuthoritativeRecordSnapshot → List String
eligible_criteria criteria items =
    map (λ c. c.criterion_id)
      (filter
        (λ c.
          all (contains (map (λ item. item.record_type) items)) (selector_roots c.source_selector))
        criteria)

unfoldable pub produced_source :
    DeterminationService
    → ℕ
    → ProducedRoleAuthority
    → ℕ
    → ℕ
    → DeterminationStore
    → Result DeterminationSourceRecord
produced_source service attempt_id authority created_at record_id store = do
  attempt ← get_attempt attempt_id store
  target ← get_target attempt.target_selection_id store
  loaded ← get service.catalogue target.test_id
  method ← get_method service.catalogue target.test_id target.case_id
  guard (contains method.required_context_roles authority.source_role) determination_error
  owner ← validate_capture authority.source_type authority.records
  provenance ← common_provenance authority.records
  guard (provenance.application_build_id == service.application_build_id) determination_error
  guard (all (λ item. same_class item.evidence_class method.evidence_class) authority.records)
      determination_error
  ok (record {
    source_record_id = record_id;
    source_type = authority.source_type;
    owner_module = owner;
    source_role = authority.source_role;
    validation_attempt_id = attempt_id;
    test_id = target.test_id;
    case_id = target.case_id;
    catalogue_version = loaded.catalogue_version;
    catalogue_sha256 = loaded.catalogue_sha256;
    method_id = method.method_id;
    method_version = method.version;
    method_sha256 = method.method_sha256;
    eligible_criterion_ids = eligible_criteria method.criteria authority.records;
    application_build_id = provenance.application_build_id;
    configuration_id = provenance.configuration_id;
    configuration_version = provenance.configuration_version;
    scenario_run_id = provenance.scenario_run_id;
    validation_execution_id = provenance.validation_execution_id;
    evidence_class = method.evidence_class;
    authority_records = authority.records;
    evidence_references = authority.evidence_references;
    canonical_payload_sha256 = service.payload_sha256 authority.source_role authority.records;
    created_at = created_at;
  })
