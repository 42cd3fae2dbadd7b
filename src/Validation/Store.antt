-- ===== src/Validation/Store.antt =====
-- app/backend/ot_demo/infrastructure/determination_repository.py and the parts of
-- validation_repository.py that it works on: the tables as lists of the records that a row's
-- payload holds, oldest first, and what the repositories read.
pub mod Write
pub mod Results
pub mod Action
pub mod Stored
pub mod Composites
pub mod Suspensions
pub mod Executions
use ot_engineering_demonstra.Base.{
  String, ◌==◌, ℕ, nat_eq, leb, ltb, Bool, true, false, ◌&&◌, ◌||◌, Option, none, some, List, [],
  ◌∷◌, map, filter, any, find, str_leb, Failure, validation_not_found, validation_conflict, ◌≡◌,
  refl, ok-injective, true, false, Result, err, ok, err, or_raise,
}
use ot_engineering_demonstra.Base.Sort.{sort_by}
use ot_engineering_demonstra.Validation.Evidence.{
  EvidenceSnapshot, ValidationSuspensionRecord, CompositeValidationResult,
}
use ot_engineering_demonstra.Validation.{
  ValidationTargetSelection, ValidationAttempt, ValidationExecution, ExecutedValidationResult,
  DeterminationSourceRecord, DeterminationContext, DeterminationContextMember, CriterionFinding,
  EngineeringReviewProposal, EngineeringReviewFinalisation,
}

-- A row of determination_source_origin_bindings.
pub record SourceBinding : Type 0 where
  pub validation_attempt_id : ℕ
  pub source_role : String
  pub source_record_id : ℕ

-- A row of determination_context_members.
pub record MemberRow : Type 0 where
  pub determination_context_id : ℕ
  pub member : DeterminationContextMember

-- A row of dc006_repeat_source_baselines.
pub record RepeatBaseline : Type 0 where
  pub repeat_execution_id : ℕ
  pub source_execution_id : ℕ

pub record DeterminationStore : Type 0 where
  pub targets : List ValidationTargetSelection
  pub attempts : List ValidationAttempt
  pub executions : List ValidationExecution
  pub procedure_executions : List ValidationExecution
  pub executed_results : List ExecutedValidationResult
  pub evidence : List EvidenceSnapshot
  pub repeat_baselines : List RepeatBaseline
  pub sources : List DeterminationSourceRecord
  pub bindings : List SourceBinding
  pub contexts : List DeterminationContext
  pub members : List MemberRow
  pub findings : List CriterionFinding
  pub proposals : List EngineeringReviewProposal
  pub finalisations : List EngineeringReviewFinalisation
  pub results : List ExecutedValidationResult
  pub suspensions : List ValidationSuspensionRecord
  pub composites : List CompositeValidationResult

unfoldable pub get_target : ℕ → DeterminationStore → Result ValidationTargetSelection
get_target i store =
    or_raise (find (λ t. nat_eq t.target_selection_id i) store.targets) validation_not_found

unfoldable pub get_attempt : ℕ → DeterminationStore → Result ValidationAttempt
get_attempt i store =
    or_raise (find (λ a. nat_eq a.validation_attempt_id i) store.attempts) validation_not_found

-- Executions of a scenario come first.
unfoldable pub get_execution : ℕ → DeterminationStore → Result ValidationExecution
get_execution i store = elim (find (λ e. nat_eq e.validation_execution_id i) store.executions) [
  | some execution ↦ ok execution
  | none ↦
      or_raise (find (λ e. nat_eq e.validation_execution_id i) store.procedure_executions)
        validation_not_found
]

-- `ORDER BY scenario_time_ms, checkpoint_id`
abbrev pub checkpoint_leb : EvidenceSnapshot → EvidenceSnapshot → Bool
checkpoint_leb a b =
    ltb a.scenario_time b.scenario_time
    || (nat_eq a.scenario_time b.scenario_time && str_leb a.checkpoint_id b.checkpoint_id)

unfoldable pub list_evidence : ℕ → DeterminationStore → List EvidenceSnapshot
list_evidence i store =
    sort_by checkpoint_leb (filter (λ e. nat_eq e.validation_execution_id i) store.evidence)

unfoldable pub source_ids_for_attempt : ℕ → DeterminationStore → List SourceBinding
source_ids_for_attempt i store =
    sort_by (λ a b. str_leb a.source_role b.source_role)
      (filter (λ b. nat_eq b.validation_attempt_id i) store.bindings)

unfoldable pub get_source : ℕ → DeterminationStore → Result DeterminationSourceRecord
get_source i store =
    or_raise (find (λ r. nat_eq r.source_record_id i) store.sources) validation_not_found

abbrev pub find_context : ℕ → List DeterminationContext → Option DeterminationContext
find_context i contexts = find (λ c. nat_eq c.determination_context_id i) contexts

unfoldable pub get_context : ℕ → DeterminationStore → Result DeterminationContext
get_context i store = or_raise (find_context i store.contexts) validation_not_found

abbrev pub findings_of : ℕ → DeterminationStore → List CriterionFinding
findings_of i store = filter (λ f. nat_eq f.determination_context_id i) store.findings

unfoldable pub list_findings : ℕ → DeterminationStore → List CriterionFinding
list_findings i store = sort_by (λ a b. str_leb a.criterion_id b.criterion_id) (findings_of i store)

unfoldable pub get_review_proposal : ℕ → DeterminationStore → Result EngineeringReviewProposal
get_review_proposal i store =
    or_raise (find (λ p. nat_eq p.review_proposal_id i) store.proposals) validation_not_found

unfoldable pub get_result : ℕ → DeterminationStore → Result ExecutedValidationResult
get_result i store =
    or_raise (find (λ r. nat_eq r.executed_result_id i) store.results) validation_not_found

-- The result of an execution, then that of a determination.
unfoldable pub get_executed_result : ℕ → DeterminationStore → Result ExecutedValidationResult
get_executed_result i store =
    elim (find (λ r. nat_eq r.executed_result_id i) store.executed_results) [
      | some result ↦ ok result
      | none ↦ get_result i store
    ]

unfoldable pub has_executed_result_for_attempt : ℕ → DeterminationStore → Bool
has_executed_result_for_attempt i store =
    any (λ r. nat_eq r.validation_attempt_id i) store.executed_results
    || any (λ r. nat_eq r.validation_attempt_id i) store.results

unfoldable pub get_suspension : ℕ → DeterminationStore → Result ValidationSuspensionRecord
get_suspension i store =
    or_raise (find (λ r. nat_eq r.suspension_record_id i) store.suspensions) validation_not_found

-- A transaction whose constraints hold is stored; one that breaks a constraint is a conflict.
unfoldable pub store_if : Bool → DeterminationStore → Result DeterminationStore
store_if true store = ok store
store_if false store = err validation_conflict

pub store_if-eq-ok :
    (allowed : Bool) (s : DeterminationStore) {t : DeterminationStore}
    → store_if allowed s ≡ ok t
    → (allowed ≡ true) × (s ≡ t)
unfolding store_if
store_if-eq-ok true s h = (refl, ok-injective h)
store_if-eq-ok false s h = cc
