-- ===== src/Validation/Adapters.antt =====
-- app/backend/ot_demo/modules/validation/source_adapters.py: the registry of source adapters, the
-- ownership test of a capture, and the provenance that its records share.
pub mod Selector
use ot_engineering_demonstra.Base.{
  String, ◌==◌, ℕ, nat_eq, Bool, true, false, not, ◌&&◌, Option, none, some, List, [], ◌∷◌, map,
  any, all, filter, contains, Failure, source_adapter_error, Result, ok, err, guard, ◌>>=◌, ◌>>◌,
  is_empty,
}
use ot_engineering_demonstra.Domain.Assurance.{
  DeterminationSourceAdapterKind, configuration_package, scenario_state, fixture_source,
  operational_event_history, validation_investigation_history, deterministic_repeat,
  evidence_package, nfr_review,
}
use ot_engineering_demonstra.Validation.{AuthoritativeRecordSnapshot, DeterminationSourceRecord}

pub record SourceAdapterDefinition : Type 0 where
  pub owner_module : String
  pub record_types : List String

unfoldable pub source_adapter_registry : DeterminationSourceAdapterKind → SourceAdapterDefinition
source_adapter_registry configuration_package = record {
  owner_module = "configuration-package-authority";
  record_types =
      "ConfigurationPackageAdapter" ∷ "ConfigurationComparisonResult"
      ∷ "NetworkConfigurationPackage" ∷ "NetworkConfigurationSchema" ∷ "AuthorityRoleBinding" ∷ [];
}
source_adapter_registry scenario_state = record {
  owner_module = "scenario-topology-outage-authority";
  record_types =
      "ScenarioRun" ∷ "ScenarioSnapshot" ∷ "TopologyResult" ∷ "OutageResult" ∷ "IsolationProof"
      ∷ "ActionProjection" ∷ "EvidenceSnapshot" ∷ "RestorationAssessment" ∷ "TelemetrySnapshot"
      ∷ "DeviceState" ∷ "CommandResult" ∷ "PostExecutionSnapshot" ∷ "ScenarioRevisionSequence"
      ∷ "CurrentScenarioExecutionAdapter" ∷ "CurrentValidationExecutionAdapter"
      ∷ "ValidationExecution" ∷ "AssessmentInvalidationAdapter" ∷ "CommandAvailability"
      ∷ "CommandResultReplayComparison" ∷ "ExecutedValidationResultAdapter"
      ∷ "PersistenceAssuranceResult" ∷ "RestorationProjection" ∷ "ScenarioResetAdapter"
      ∷ "ValidationExecutionAdapter" ∷ "AlarmAdapter" ∷ "OperationalEvent"
      ∷ "OperationalEventAdapter" ∷ "OperationalEventRegistry" ∷ "AuthorityRoleBinding" ∷ [];
}
source_adapter_registry fixture_source = record {
  owner_module = "controlled-fixture-execution-authority";
  record_types =
      "ControlledFixtureAdapter" ∷ "ControlledFixtureResult" ∷ "ControlledFixture"
      ∷ "CapacityFixture" ∷ "TelemetryValidityResult" ∷ "RestorationAssessment" ∷ "ActionProjection"
      ∷ "ConfigurationPackageAdapter" ∷ "RestorationProjection" ∷ "TopologyResult"
      ∷ "AuthorityRoleBinding" ∷ [];
}
source_adapter_registry operational_event_history = record {
  owner_module = "operational-event-history-authority";
  record_types =
      "OperationalEventAdapter" ∷ "OperationalEvent" ∷ "AlarmRecord" ∷ "AlarmAdapter"
      ∷ "AlarmLifecycleAdapter" ∷ "OperationalEventRegistry" ∷ "ScenarioRun" ∷ "ScenarioSnapshot"
      ∷ "AuthorityRoleBinding" ∷ [];
}
source_adapter_registry validation_investigation_history = record {
  owner_module = "validation-investigation-history-authority";
  record_types =
      "InvestigationAdapter" ∷ "ValidationExecution" ∷ "ValidationEvidenceAdapter"
      ∷ "FormalProgressAdapter" ∷ "ScenarioRunAdapter" ∷ "ConfigurationComparisonResult"
      ∷ "FormalScenarioDefinition" ∷ "ScenarioInitialisationBoundaryAdapter"
      ∷ "ScenarioCommandApiBoundaryAdapter" ∷ "NetworkConfigurationPackage" ∷ "DefectRecord"
      ∷ "CorrectionRecord" ∷ "RepeatLink" ∷ "ExecutedValidationResultAdapter"
      ∷ "PersistenceAssuranceResult" ∷ "ScenarioResetAdapter" ∷ "ValidationExecutionAdapter"
      ∷ "EngineeringReviewRecord" ∷ "OperationalEventAdapter" ∷ "AuthorityRoleBinding" ∷ [];
}
source_adapter_registry deterministic_repeat = record {
  owner_module = "deterministic-repeat-authority";
  record_types =
      "DeterministicRepeatAdapter" ∷ "RepeatMemberIdentity" ∷ "AuthorityRoleBinding" ∷ [];
}
source_adapter_registry evidence_package = record {
  owner_module = "evidence-package-authority";
  record_types =
      "EvidencePackageAdapter" ∷ "EvidencePackageIdentity" ∷ "HistoricalCatalogueResolver"
      ∷ "AuthorityRoleBinding" ∷ [];
}
source_adapter_registry nfr_review = record {
  owner_module = "engineering-review-assurance-authority";
  record_types =
      "BuildRuntimeAdapter" ∷ "ReviewSurfaceAdapter" ∷ "SchemaAndProjectionAdapter"
      ∷ "ConfigurationPackageAdapter" ∷ "EngineeringReviewRecord" ∷ "AuthorityRoleBinding" ∷ [];
}

unfoldable pub validate_capture :
    DeterminationSourceAdapterKind → List AuthoritativeRecordSnapshot → Result String
validate_capture source_type records = do
  guard (not (is_empty records)) source_adapter_error
  let definition = source_adapter_registry source_type
  guard (all (λ item. contains definition.record_types item.record_type) records)
      source_adapter_error
  guard (all (λ item. item.owner_module == definition.owner_module) records) source_adapter_error
  ok definition.owner_module

-- The records of a stored source, whose ownership is tested again.
unfoldable pub records : DeterminationSourceRecord → Result (List AuthoritativeRecordSnapshot)
records source = do
  owner ← validate_capture source.source_type source.authority_records
  guard (owner == source.owner_module) source_adapter_error
  ok source.authority_records

-- What `common_provenance` returns, in its order.
pub record CommonProvenance : Type 0 where
  pub application_build_id : String
  pub configuration_id : Option String
  pub configuration_version : Option String
  pub scenario_run_id : Option ℕ
  pub validation_execution_id : Option ℕ

-- The one value that the records which have the field give it.
module _ {A : Type 0} (same : A → A → Bool) where
  abbrev pub agreed : List (Option A) → Result (Option A)
  agreed [] = ok none
  agreed (none ∷ xs) = agreed xs
  agreed (some a ∷ xs) = do
    rest ← agreed xs
    elim rest [ none ↦ ok (some a) | some b ↦ guard (same a b) source_adapter_error >> ok (some a) ]

unfoldable pub common_provenance : List AuthoritativeRecordSnapshot → Result CommonProvenance
common_provenance items = do
  build ← agreed ◌==◌ (map (λ item. some item.application_build_id) items)
  configuration ← agreed ◌==◌ (map (λ item. item.configuration_id) items)
  version ← agreed ◌==◌ (map (λ item. item.configuration_version) items)
  run ← agreed nat_eq (map (λ item. item.scenario_run_id) items)
  execution ← agreed nat_eq (map (λ item. item.validation_execution_id) items)
  elim build [
    | none ↦ err source_adapter_error
    | some build_id ↦ ok (record {
      application_build_id = build_id;
      configuration_id = configuration;
      configuration_version = version;
      scenario_run_id = run;
      validation_execution_id = execution;
    })
  ]
