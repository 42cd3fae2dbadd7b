-- ===== src/Validation/Composite.antt =====
-- app/backend/ot_demo/modules/validation/service.py: what the composite operations of the
-- validation service share: the aggregate verdict, and the check of an executed result.
pub mod Aggregate
pub mod Provenance
pub mod Finalise
pub mod Assemble
use ot_engineering_demonstra.Base.{
  String, ◌==◌, ℕ, nat_eq, Bool, true, false, not, ◌&&◌, ◌||◌, Option, none, some, List, [], ◌∷◌,
  map, any, all, is_empty, is_some, same_by, equal_lists, Failure, validation_error_boundary,
  suspension_provenance_error, Result, ok, err, guard, or_raise, ◌>>=◌, ◌>>◌, if◌then◌else◌,
}
use ot_engineering_demonstra.Domain.Assurance.{
  ValidationVerdict, pass_verdict, fail_verdict, not_run, blocked_test,
}
use ot_engineering_demonstra.Domain.Composite.{is_executed, same_verdict}
use ot_engineering_demonstra.Scenario.Store.{Store}
use ot_engineering_demonstra.Validation.{
  ConstituentCaseDefinition, ValidationAttempt, ValidationExecution, ExecutedValidationResult,
}
use ot_engineering_demonstra.Validation.Value.{Json}
use ot_engineering_demonstra.Validation.Catalogue.{ValidationCatalogueResolver}
use ot_engineering_demonstra.Validation.Evidence.{EvidenceSnapshot, pass_or_fail, is_blocked_test}
use ot_engineering_demonstra.Validation.Store.{DeterminationStore, get_attempt, get_executed_result}

-- The service, whose catalogue file has the digest `raw_catalogue_sha256` and whose configuration
-- v1.1 has the given identifier. `scenarios` are the tables of the coordinator, which the service
-- only reads.
pub record CompositeService : Type 0 where
  pub catalogue : ValidationCatalogueResolver
  pub raw_catalogue_sha256 : String
  pub application_build_id : String
  pub corrected_configuration_id : String
  pub scenarios : Store
  pub case_sha256 : ConstituentCaseDefinition → String
  pub payload_sha256 : Json → String

-- `except error: raise ValidationBoundaryError`, for all errors of a read and for those of a
-- suspension's provenance.
abbrev pub any_as_boundary {ℓ} : {A : Type ℓ} → Result A → Result A
any_as_boundary (ok a) = ok a
any_as_boundary (err e) = err validation_error_boundary

abbrev boundary_of : Failure → Failure
boundary_of suspension_provenance_error = validation_error_boundary
boundary_of e = e

abbrev pub provenance_as_boundary {ℓ} : {A : Type ℓ} → Result A → Result A
provenance_as_boundary (ok a) = ok a
provenance_as_boundary (err e) = err (boundary_of e)

abbrev is_fail : ValidationVerdict → Bool
is_fail v = same_verdict v fail_verdict

abbrev pub aggregable : ValidationVerdict → Bool
aggregable v = pass_or_fail v || is_blocked_test v

-- `_aggregate_verdict`
unfoldable pub aggregate_verdict : List ValidationVerdict → Result ValidationVerdict
aggregate_verdict verdicts = do
  guard (not (is_empty verdicts || any (λ v. not (aggregable v)) verdicts))
      validation_error_boundary
  ok (
      if any is_fail verdicts
      then fail_verdict
      else if any is_blocked_test verdicts
      then blocked_test
      else pass_verdict)

abbrev pub result_consistent :
    ValidationExecution
    → List EvidenceSnapshot
    → ExecutedValidationResult
    → ValidationAttempt
    → Bool
result_consistent execution evidence result attempt =
    same_by nat_eq (some result.executed_result_id) execution.executed_result_id
    && same_by nat_eq (some result.validation_attempt_id) execution.validation_attempt_id
    && same_by nat_eq result.validation_execution_id (some execution.validation_execution_id)
    && nat_eq attempt.validation_attempt_id result.validation_attempt_id
    && same_by nat_eq attempt.validation_execution_id (some execution.validation_execution_id)
    && same_by nat_eq attempt.scenario_run_id execution.scenario_run_id
    && is_executed attempt.status
    && pass_or_fail result.verdict
    && same_by same_verdict (some result.verdict) execution.verdict
    && equal_lists nat_eq result.evidence_snapshot_ids execution.evidence_snapshot_ids
    && equal_lists nat_eq result.evidence_snapshot_ids (map (λ e. e.evidence_snapshot_id) evidence)
    && all (λ e. nat_eq e.validation_execution_id execution.validation_execution_id) evidence

-- `_verified_executed_result`
unfoldable pub verified_executed_result :
    ValidationExecution
    → List EvidenceSnapshot
    → DeterminationStore
    → Result ExecutedValidationResult
verified_executed_result execution evidence store = do
  result_id ← or_raise execution.executed_result_id validation_error_boundary
  attempt_id ← or_raise execution.validation_attempt_id validation_error_boundary
  result ← any_as_boundary (get_executed_result result_id store)
  attempt ← any_as_boundary (get_attempt attempt_id store)
  guard (result_consistent execution evidence result attempt) validation_error_boundary
  ok result
