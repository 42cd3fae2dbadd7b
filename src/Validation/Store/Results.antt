-- ===== src/Validation/Store/Results.antt =====
-- app/backend/ot_demo/infrastructure/determination_repository.py: `insert_result`, one transaction
-- that stores a result, finalises its execution and ends its attempt.
use ot_engineering_demonstra.Base.{
  ◌==◌, ℕ, nat_eq, Bool, true, false, not, ◌&&◌, ◌||◌, Option, none, some, List, [], ◌∷◌, ◌++◌, any,
  find, is_some, validation_conflict, Result, ok, or_raise, ◌>>=◌, if◌then◌else◌,
}
use ot_engineering_demonstra.Domain.Assurance.{
  executed, finalised_execution, ValidationVerdict, pass_verdict, fail_verdict, not_run,
  blocked_test, is_open_attempt, is_active_execution,
}
use ot_engineering_demonstra.Validation.{ValidationExecution, ExecutedValidationResult}
use ot_engineering_demonstra.Validation.Store.{DeterminationStore, find_context, store_if}
use ot_engineering_demonstra.Validation.Store.Write.{attempt_exists, replace_attempt}

abbrev same_execution : Option ℕ → Option ℕ → Bool
same_execution none none = true
same_execution none (some j) = false
same_execution (some i) none = false
same_execution (some i) (some j) = nat_eq i j

abbrev executed_verdict : ValidationVerdict → Bool
executed_verdict pass_verdict = true
executed_verdict fail_verdict = true
executed_verdict not_run = false
executed_verdict blocked_test = false

-- The keys of dc006_executed_validation_results, its checks, and the triggers that bind a result to
-- the execution of its context.
abbrev pub result_allowed : ExecutedValidationResult → DeterminationStore → Bool
result_allowed r store =
    not (
      any
        (λ q.
          nat_eq q.executed_result_id r.executed_result_id
          || nat_eq q.validation_attempt_id r.validation_attempt_id
          || nat_eq q.determination_context_id r.determination_context_id)
        store.results)
    && attempt_exists r.validation_attempt_id store
    && is_some r.validation_execution_id
    && elim (find_context r.determination_context_id store.contexts) [
      | none ↦ false
      | some c ↦ same_execution r.validation_execution_id c.validation_execution_id
    ]
    && executed_verdict r.verdict
    && (not (r.test_id == "VT-EXP-ALL-001" || r.test_id == "VT-EXP-ROLE-001") || is_some r.case_id)

abbrev finalise_with : Bool → ExecutedValidationResult → ValidationExecution → ValidationExecution
finalise_with procedure r e = record e {
  status = finalised_execution;
  finalised_at = if procedure then some r.finalised_at else e.finalised_at;
  finalised_scenario_time = if procedure then e.finalised_scenario_time else some r.finalised_at;
  observed_criterion_finding_ids = r.criterion_finding_ids;
  evidence_snapshot_ids = r.evidence_snapshot_ids;
  verdict = some r.verdict;
  executed_result_id = some r.executed_result_id;
}

-- `UPDATE ... WHERE validation_execution_id=? AND status='ACTIVE'`
abbrev pub finalise_row :
    Bool → ExecutedValidationResult → ℕ → List ValidationExecution → List ValidationExecution
finalise_row procedure r i [] = []
finalise_row procedure r i (e ∷ es) =
    (if nat_eq e.validation_execution_id i && is_active_execution e.status
      then finalise_with procedure r e
      else e)
    ∷ finalise_row procedure r i es

abbrev pub active_row : ℕ → List ValidationExecution → Bool
active_row i es = any (λ e. nat_eq e.validation_execution_id i && is_active_execution e.status) es

abbrev pub has_row : ℕ → List ValidationExecution → Bool
has_row i es = any (λ e. nat_eq e.validation_execution_id i) es

-- A scenario's execution also has its row of executed_validation_results, whose keys are the
-- result, the attempt and the execution.
abbrev row_taken : ExecutedValidationResult → DeterminationStore → Bool
row_taken r store =
    any
      (λ q.
        nat_eq q.executed_result_id r.executed_result_id
        || nat_eq q.validation_attempt_id r.validation_attempt_id
        || same_execution q.validation_execution_id r.validation_execution_id)
      store.executed_results

unfoldable pub finalise_scenario_execution :
    ExecutedValidationResult → ℕ → DeterminationStore → Result DeterminationStore
finalise_scenario_execution r i store =
    store_if (active_row i store.executions && not (row_taken r store)) (record store {
      executions = finalise_row false r i store.executions;
      executed_results = store.executed_results ++ (r ∷ []);
    })

unfoldable pub finalise_procedure_execution :
    ExecutedValidationResult → ℕ → DeterminationStore → Result DeterminationStore
finalise_procedure_execution r i store =
    store_if (active_row i store.procedure_executions)
      (record store { procedure_executions = finalise_row true r i store.procedure_executions })

abbrev pub finalise_execution_of :
    ExecutedValidationResult → Option ℕ → DeterminationStore → Result DeterminationStore
finalise_execution_of r none store = ok store
finalise_execution_of r (some i) store =
    if has_row i store.executions
    then finalise_scenario_execution r i store
    else finalise_procedure_execution r i store

-- An attempt that is suspended or executed is not available.
unfoldable pub execute_attempt :
    ExecutedValidationResult → DeterminationStore → Result DeterminationStore
execute_attempt r store = do
  attempt ←
      or_raise (find (λ a. nat_eq a.validation_attempt_id r.validation_attempt_id) store.attempts)
        validation_conflict
  store_if (is_open_attempt attempt.status) (record store {
    attempts =
        replace_attempt (record attempt { status = executed; updated_at = r.finalised_at })
          store.attempts;
  })

unfoldable pub insert_result :
    ExecutedValidationResult → DeterminationStore → Result DeterminationStore
insert_result r store = do
  stored ← store_if (result_allowed r store) (record store { results = store.results ++ (r ∷ []) })
  finalised ← finalise_execution_of r r.validation_execution_id stored
  execute_attempt r finalised
