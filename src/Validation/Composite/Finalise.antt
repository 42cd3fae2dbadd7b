-- ===== src/Validation/Composite/Finalise.antt =====
-- app/backend/ot_demo/modules/validation/service.py: `finalise_composite`.
pub mod Supported
use ot_engineering_demonstra.Base.{
  String, ◌==◌, ℕ, nat_eq, Bool, true, false, not, ◌&&◌, ◌||◌, Option, none, some, List, [], ◌∷◌,
  map, same_by, equal_lists, map_m, Failure, validation_error_boundary, assertion_error, Result, ok,
  err, guard, or_raise, ◌>>=◌, ◌>>◌, if◌then◌else◌,
}
use ot_engineering_demonstra.Domain.Assurance.{
  ValidationVerdict, blocked_test, is_active_execution, vsc_003, RequiredInputRole,
}
use ot_engineering_demonstra.Domain.Composite.{
  is_execution_result, is_complete_composite, is_finalised_composite, is_finalised_suspension,
  same_verdict, same_role, same_condition, role_value, finalised_composite,
}
use ot_engineering_demonstra.Validation.{
  ValidationExecution, ValidationTargetSelection, ExecutedValidationResult,
}
use ot_engineering_demonstra.Validation.Evidence.{
  EvidenceSnapshot, CompositeConstituentLink, CompositeValidationResult, ValidationSuspensionRecord,
  pass_or_fail,
}
use ot_engineering_demonstra.Validation.Store.{
  DeterminationStore, get_execution, get_suspension, list_evidence,
}
use ot_engineering_demonstra.Validation.Store.Composites.{get_composite, update_composite}
use ot_engineering_demonstra.Validation.Store.Action.{Action, commit}
use ot_engineering_demonstra.Validation.Composite.{
  CompositeService, aggregate_verdict, verified_executed_result, provenance_as_boundary,
}
use ot_engineering_demonstra.Validation.Composite.Provenance.{
  ResolvedSuspensionSource, resolve_suspension_source, same_text,
}

-- `execution.verdict in {PASS, FAIL}`
abbrev pub decided : Option ValidationVerdict → Bool
decided none = false
decided (some v) = pass_or_fail v

abbrev pub execution_resolves :
    CompositeConstituentLink → ValidationExecution → ExecutedValidationResult → Bool
execution_resolves link execution result =
    not (is_active_execution execution.status)
    && same_text execution.case_id (some link.case_id)
    && same_by nat_eq execution.scenario_run_id link.scenario_run_id
    && same_text execution.case_definition_sha256 link.case_definition_sha256
    && same_by same_verdict execution.verdict link.constituent_verdict
    && equal_lists nat_eq execution.evidence_snapshot_ids link.evidence_snapshot_ids
    && same_by nat_eq (some result.executed_result_id) link.executed_result_id
    && same_by same_verdict (some result.verdict) link.constituent_verdict
    && decided execution.verdict

-- A case definition that is unavailable has no digest to compare.
abbrev case_definition_missing : Option RequiredInputRole → Bool
case_definition_missing role = same_by same_role role (some RequiredInputRole.case_definition)

abbrev role_text : Option RequiredInputRole → Option String
role_text none = none
role_text (some role) = some (role_value role)

abbrev pub suspension_resolves :
    CompositeConstituentLink → ValidationSuspensionRecord → ResolvedSuspensionSource → Bool
suspension_resolves link suspension source =
    is_finalised_suspension suspension.status
    && same_text source.target.case_id (some link.case_id)
    && same_by nat_eq suspension.scenario_run_id link.scenario_run_id
    && equal_lists nat_eq (map (λ e. e.evidence_snapshot_id) source.evidence_snapshots)
        link.evidence_snapshot_ids
    && same_by same_role source.target.unresolved_required_role link.unavailable_required_input_role
    && (case_definition_missing link.unavailable_required_input_role
        || same_text source.target.case_definition_sha256 link.case_definition_sha256)
    && (not (same_condition suspension.condition_id vsc_003)
        || same_text suspension.failed_required_input_role
            (role_text link.unavailable_required_input_role))
    && same_by same_verdict link.constituent_verdict (some blocked_test)

-- The verdict of a constituent of each kind, whose source is resolved again.
unfoldable pub execution_verdict :
    CompositeConstituentLink → DeterminationStore → Result ValidationVerdict
execution_verdict link store = do
  execution_id ← or_raise link.validation_execution_id assertion_error
  execution ← get_execution execution_id store
  result ←
      verified_executed_result execution (list_evidence execution.validation_execution_id store)
        store
  guard (execution_resolves link execution result) validation_error_boundary
  or_raise execution.verdict validation_error_boundary

unfoldable pub suspension_verdict :
    CompositeService → CompositeConstituentLink → DeterminationStore → Result ValidationVerdict
suspension_verdict service link store = do
  record_id ← or_raise link.suspension_record_id assertion_error
  suspension ← get_suspension record_id store
  source ← provenance_as_boundary (resolve_suspension_source service suspension store)
  guard (suspension_resolves link suspension source) validation_error_boundary
  ok blocked_test

abbrev pub link_verdict :
    CompositeService → DeterminationStore → CompositeConstituentLink → Result ValidationVerdict
link_verdict service store link =
    if is_execution_result link.source_kind
    then execution_verdict link store
    else suspension_verdict service link store

abbrev pub finalised_as :
    CompositeValidationResult → ValidationVerdict → ℕ → CompositeValidationResult
finalised_as composite determination finalised_at = record composite {
  status = finalised_composite;
  determination = some determination;
  finalised_at = some finalised_at;
}

unfoldable pub determined_composite :
    CompositeService → ℕ → ℕ → DeterminationStore → Result CompositeValidationResult
determined_composite service composite_id finalised_at store = do
  composite ← get_composite composite_id store
  guard (not (is_finalised_composite composite.status)) validation_error_boundary
  guard (is_complete_composite composite.completeness.status) validation_error_boundary
  guard (composite.catalogue_sha256 == service.raw_catalogue_sha256) validation_error_boundary
  verdicts ← map_m (link_verdict service store) composite.constituent_links
  determination ← aggregate_verdict verdicts
  ok (finalised_as composite determination finalised_at)

unfoldable pub finalise_composite : CompositeService → ℕ → ℕ → Action CompositeValidationResult
finalise_composite service composite_id finalised_at =
    commit (determined_composite service composite_id finalised_at)
      (λ composite. update_composite composite)
