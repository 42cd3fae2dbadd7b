-- ===== src/Tests/Determination.antt =====
-- A small method and what the determination service runs it with: the data of the tests.
use ot_engineering_demonstra.Base.{String, true, false, none, some, List, [], ◌∷◌, ok}
use ot_engineering_demonstra.Domain.{formal_evidence}
use ot_engineering_demonstra.Domain.Assurance.{
  frozen, incomplete_determination, not_started, preserved_record_set, machine_comparison,
  engineering_review, scalar_equal, review_finding_equal, satisfied, not_satisfied,
  configuration_package, pass_verdict,
}
use ot_engineering_demonstra.Validation.{
  ExecutedValidationResult, DeterminationContext, DeterminationSourceRecord,
  DeterminationCompleteness, CriterionFinding, CriterionDefinition, DeterminationMethodDefinition,
  LoadedValidationDefinition, ValidationTargetSelection, ValidationAttempt,
  AuthoritativeRecordSnapshot,
}
use ot_engineering_demonstra.Validation.Value.{Json, null, bool, number, text, array, object, end}
use ot_engineering_demonstra.Validation.Store.{DeterminationStore}
use ot_engineering_demonstra.Validation.Determination.{
  DeterminationService, observed, ProducedRoleAuthority,
}
use ot_engineering_demonstra.Validation.Determination.Binding.{BindingRequest}
use ot_engineering_demonstra.Validation.Determination.Changes.Calls.{
  Call, prepare, evaluate, propose, review, finalise, run_all,
}

abbrev pub machine_criterion : CriterionDefinition
machine_criterion = record {
  criterion_id = "CR-1";
  version = "1.0";
  criterion_sha256 = "c1";
  kind = machine_comparison;
  test_id = "VT-CFG-ID-001";
  case_id = none;
  context_checkpoint = "CP";
  expected_value = bool true;
  source_selector = "ConfigurationPackageAdapter.manifest";
  operator = scalar_equal;
  normalisation = "no exclusions";
  required_evidence = "manifest";
  evidence_roles = "PACKAGE" ∷ [];
  requirement_ids = "R-1" ∷ [];
}

abbrev pub review_criterion_two : CriterionDefinition
review_criterion_two = record machine_criterion {
  criterion_id = "CR-2";
  criterion_sha256 = "c2";
  kind = engineering_review;
  operator = review_finding_equal;
  source_selector = "AuthorityRoleBinding.role";
}

abbrev pub small_method : DeterminationMethodDefinition
small_method = record {
  method_id = "DM-CFG-1";
  version = "1.0";
  method_sha256 = "m1";
  test_id = "VT-CFG-ID-001";
  case_id = none;
  evidence_class = formal_evidence;
  context_kind = preserved_record_set;
  required_context_roles = "PACKAGE" ∷ [];
  criterion_ids = "CR-1" ∷ "CR-2" ∷ [];
  criteria = machine_criterion ∷ review_criterion_two ∷ [];
  controlled_fixture = none;
}

abbrev pub loaded : LoadedValidationDefinition
loaded = record {
  definition = record {
    test_id = "VT-CFG-ID-001";
    version = "1.0";
    evidence_class = formal_evidence;
    expected_result_statement = "identity";
    constituent_cases = [];
    determination_method = some small_method;
  };
  definition_sha256 = "d1";
  catalogue_id = "CAT";
  catalogue_version = "1.0";
  catalogue_sha256 = "k1";
}

abbrev pub printed : Json → String
printed null = "null"
printed (bool true) = "true"
printed (bool false) = "false"
printed (number c p) = "number"
printed (text s) = s
printed (array xs) = "array"
printed (object fs) = "object"

abbrev pub package_record : AuthoritativeRecordSnapshot
package_record = record {
  record_type = "ConfigurationPackageAdapter";
  record_id = "P-1";
  record_version = "1";
  owner_module = "configuration-package-authority";
  application_build_id = "build";
  configuration_id = some "CFG";
  configuration_version = some "1.0";
  scenario_run_id = none;
  validation_execution_id = none;
  evidence_class = formal_evidence;
  canonical_payload = object end;
  canonical_payload_sha256 = "p1";
}

abbrev pub package_authority : ProducedRoleAuthority
package_authority = record {
  source_type = configuration_package;
  source_role = "PACKAGE";
  records = package_record ∷ [];
  evidence_references = "evidence:P-1" ∷ [];
}

-- Every selector resolves to `true`, and one package is produced.
abbrev pub service : DeterminationService
service = record {
  catalogue = record { active_definitions = loaded ∷ []; loaded_definitions = (loaded ∷ []) ∷ [] };
  application_build_id = "build";
  resolve = λ source selector. observed (bool true);
  produce = λ context store. some (package_authority ∷ []);
  normalise = λ profile expected value. ok value;
  canonical_json_bytes = printed;
  payload_sha256 = λ role items. "s1";
  uuid_text = λ i. "id";
}

abbrev pub target : ValidationTargetSelection
target = record {
  target_selection_id = 1;
  test_id = "VT-CFG-ID-001";
  case_id = none;
  test_definition_version = some "1.0";
  test_definition_sha256 = some "d1";
  catalogue_version = some "1.0";
  catalogue_sha256 = some "k1";
  case_definition_version = none;
  case_definition_sha256 = none;
  evidence_class = formal_evidence;
  configuration_id = some "CFG";
  configuration_version = some "1.0";
  target_application_build_id = some "build";
  unresolved_required_role = none;
  intended_identity_evidence = [];
  assurance_verifier_application_build_id = some "build";
  canonical_selection_sha256 = "t1";
  created_at = 5;
}

abbrev pub attempt : ValidationAttempt
attempt = record {
  validation_attempt_id = 2;
  target_selection_id = 1;
  status = not_started;
  scenario_run_id = none;
  validation_execution_id = none;
  created_at = 5;
  updated_at = 5;
}

abbrev pub start : DeterminationStore
start = record {
  targets = target ∷ [];
  attempts = attempt ∷ [];
  executions = [];
  procedure_executions = [];
  executed_results = [];
  evidence = [];
  repeat_baselines = [];
  sources = [];
  bindings = [];
  contexts = [];
  members = [];
  findings = [];
  proposals = [];
  finalisations = [];
  results = [];
  suspensions = [];
  composites = [];
}

abbrev pub request : BindingRequest
request = record {
  validation_attempt_id = 2;
  frozen_at = 10;
  scenario_run_id = none;
  validation_execution_id = none;
  repeat_of_execution_id = none;
  new_execution_id = 50;
  new_context_id = 60;
  new_source_ids = λ role. 70;
}

abbrev pub calls : List Call
calls =
    prepare request
    ∷ evaluate 60 11 (λ i. 80)
    ∷ propose 60 "CR-2" satisfied "graduate-engineer" 12 90
    ∷ review 90 "independent-reviewer" satisfied 13 91 81
    ∷ finalise 60 14 100
    ∷ []

abbrev pub frozen_store : DeterminationStore
frozen_store = run_all service (prepare request ∷ []) start

-- Before the result, and with the review still open.
abbrev pub ready : DeterminationStore
ready =
    run_all service
      (prepare request
        ∷ evaluate 60 11 (λ i. 80)
        ∷ propose 60 "CR-2" satisfied "graduate-engineer" 12 90
        ∷ review 90 "independent-reviewer" satisfied 13 91 81
        ∷ [])
      start

abbrev pub unreviewed : DeterminationStore
unreviewed = run_all service (prepare request ∷ evaluate 60 11 (λ i. 80) ∷ []) start

abbrev pub package_source : DeterminationSourceRecord
package_source = record {
  source_record_id = 70;
  source_type = configuration_package;
  owner_module = "configuration-package-authority";
  source_role = "PACKAGE";
  validation_attempt_id = 2;
  test_id = "VT-CFG-ID-001";
  case_id = none;
  catalogue_version = "1.0";
  catalogue_sha256 = "k1";
  method_id = "DM-CFG-1";
  method_version = "1.0";
  method_sha256 = "m1";
  eligible_criterion_ids = "CR-1" ∷ [];
  application_build_id = "build";
  configuration_id = some "CFG";
  configuration_version = some "1.0";
  scenario_run_id = none;
  validation_execution_id = none;
  evidence_class = formal_evidence;
  authority_records = package_record ∷ [];
  evidence_references = "evidence:P-1" ∷ [];
  canonical_payload_sha256 = "s1";
  created_at = 10;
}

abbrev pub bound_start : DeterminationStore
bound_start = record start {
  sources = package_source ∷ [];
  bindings =
      record { validation_attempt_id = 2; source_role = "PACKAGE"; source_record_id = 70 } ∷ [];
}

abbrev pub bound_context : DeterminationContext
bound_context = record {
  determination_context_id = 60;
  validation_attempt_id = 2;
  test_id = "VT-CFG-ID-001";
  case_id = none;
  evidence_class = formal_evidence;
  catalogue_version = "1.0";
  catalogue_sha256 = "k1";
  method_id = "DM-CFG-1";
  method_version = "1.0";
  method_sha256 = "m1";
  context_kind = preserved_record_set;
  status = frozen;
  application_build_id = "build";
  configuration_id = some "CFG";
  configuration_version = some "1.0";
  scenario_run_id = none;
  validation_execution_id = some 50;
  members = record { role = "PACKAGE"; source_record_id = 70; source_record_sha256 = "s1" } ∷ [];
  created_at = 5;
  frozen_at = some 10;
}

abbrev pub result : ExecutedValidationResult
result = record {
  executed_result_id = 100;
  validation_attempt_id = 2;
  validation_execution_id = some 50;
  determination_context_id = 60;
  test_id = "VT-CFG-ID-001";
  case_id = none;
  catalogue_version = "1.0";
  catalogue_sha256 = "k1";
  method_id = "DM-CFG-1";
  method_version = "1.0";
  method_sha256 = "m1";
  verdict = pass_verdict;
  evidence_snapshot_ids = [];
  criterion_finding_ids = 80 ∷ 81 ∷ [];
  finalised_at = 14;
}

abbrev pub incomplete : DeterminationCompleteness
incomplete = record {
  status = incomplete_determination;
  required_criterion_ids = "CR-1" ∷ "CR-2" ∷ [];
  evaluated_criterion_ids = "CR-1" ∷ [];
  missing_criterion_ids = "CR-2" ∷ [];
  duplicate_criterion_ids = [];
}

abbrev pub late_calls : List Call
late_calls =
    evaluate 60 21 (λ i. 180)
    ∷ propose 60 "CR-2" not_satisfied "graduate-engineer" 22 190
    ∷ finalise 60 24 200
    ∷ []

abbrev pub first_finding : CriterionFinding
first_finding = record {
  criterion_finding_id = 80;
  determination_context_id = 60;
  criterion_id = "CR-1";
  criterion_version = "1.0";
  criterion_sha256 = "c1";
  expected_value = bool true;
  observed_value = bool true;
  status = satisfied;
  source_record_ids = 70 ∷ [];
  evidence_references = "evidence:P-1" ∷ [];
  finalised_at = some 11;
}
