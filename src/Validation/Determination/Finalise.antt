-- ===== src/Validation/Determination/Finalise.antt =====
-- app/backend/ot_demo/modules/validation/determination.py: `finalise_result`.
pub mod Complete
pub mod Verdict
pub mod Refused
use ot_engineering_demonstra.Base.{
  ℕ, Bool, true, false, not, ◌&&◌, List, [], map, any, is_empty, Option, none, some, Failure,
  determination_error, Result, ok, err, guard, ◌>>=◌, ◌>>◌, if◌then◌else◌,
}
use ot_engineering_demonstra.Domain.Assurance.{
  ValidationVerdict, pass_verdict, fail_verdict, is_scenario, is_complete, is_not_satisfied,
}
use ot_engineering_demonstra.Validation.{
  CriterionFinding, DeterminationContext, ExecutedValidationResult,
}
use ot_engineering_demonstra.Validation.Store.{
  DeterminationStore, get_context, list_findings, list_evidence,
}
use ot_engineering_demonstra.Validation.Store.Results.{insert_result}
use ot_engineering_demonstra.Validation.Store.Action.{Action, commit}
use ot_engineering_demonstra.Validation.Determination.{DeterminationService, completeness}

abbrev pub verdict_of : List CriterionFinding → ValidationVerdict
verdict_of findings =
    if any (λ f. is_not_satisfied f.status) findings then fail_verdict else pass_verdict

abbrev pub execution_evidence : DeterminationContext → DeterminationStore → List ℕ
execution_evidence context store = elim context.validation_execution_id [
  | none ↦ []
  | some e ↦
      if is_scenario context.context_kind
      then map (λ row. row.evidence_snapshot_id) (list_evidence e store)
      else []
]

-- The result that the findings of a complete context determine. The findings are listed again, as
-- the completeness test has listed them.
unfoldable pub determined_result :
    DeterminationService → ℕ → ℕ → ℕ → DeterminationStore → Result ExecutedValidationResult
determined_result service context_id finalised_at result_id store = do
  context ← get_context context_id store
  complete ← completeness service context_id store
  guard (is_complete complete.status) determination_error
  let findings = list_findings context_id store
  let evidence = execution_evidence context store
  guard (not (is_scenario context.context_kind && is_empty evidence)) determination_error
  ok (record {
    executed_result_id = result_id;
    validation_attempt_id = context.validation_attempt_id;
    validation_execution_id = context.validation_execution_id;
    determination_context_id = context.determination_context_id;
    test_id = context.test_id;
    case_id = context.case_id;
    catalogue_version = context.catalogue_version;
    catalogue_sha256 = context.catalogue_sha256;
    method_id = context.method_id;
    method_version = context.method_version;
    method_sha256 = context.method_sha256;
    verdict = verdict_of findings;
    evidence_snapshot_ids = evidence;
    criterion_finding_ids = map (λ f. f.criterion_finding_id) findings;
    finalised_at = finalised_at;
  })

unfoldable pub finalise_result : DeterminationService → ℕ → ℕ → ℕ → Action ExecutedValidationResult
finalise_result service context_id finalised_at result_id =
    commit (determined_result service context_id finalised_at result_id)
      (λ result. insert_result result)
