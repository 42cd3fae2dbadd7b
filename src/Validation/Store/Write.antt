-- ===== src/Validation/Store/Write.antt =====
-- app/backend/ot_demo/infrastructure/determination_repository.py: the inserts of sources, contexts,
-- findings and reviews. Each is one transaction: a constraint or a trigger of the tables that
-- refuses a row refuses the whole, as a conflict. The tests on the length of a digest are left out.
use ot_engineering_demonstra.Base.{
  String, ◌==◌, ℕ, nat_eq, Bool, true, false, not, ◌&&◌, ◌||◌, Option, none, some, List, [], ◌∷◌,
  ◌++◌, map, any, all, is_some, is_empty, distinct, validation_conflict, Result, ok, err, ◌>>=◌,
  ◌>>◌, if◌then◌else◌,
}
use ot_engineering_demonstra.Domain.Assurance.{
  is_scenario, is_frozen, is_not_evaluated, is_not_started,
}
use ot_engineering_demonstra.Validation.{
  ValidationAttempt, ValidationExecution, DeterminationSourceRecord, DeterminationContext,
  DeterminationContextMember, CriterionFinding, EngineeringReviewProposal,
  EngineeringReviewFinalisation, finding_valid,
}
use ot_engineering_demonstra.Validation.Store.{
  DeterminationStore, MemberRow, find_context, store_if, get_execution, get_executed_result,
}

abbrev pub attempt_exists : ℕ → DeterminationStore → Bool
attempt_exists i store = any (λ a. nat_eq a.validation_attempt_id i) store.attempts

abbrev pub source_exists : ℕ → DeterminationStore → Bool
source_exists i store = any (λ r. nat_eq r.source_record_id i) store.sources

abbrev pub context_exists : ℕ → DeterminationStore → Bool
context_exists i store = any (λ c. nat_eq c.determination_context_id i) store.contexts

-- The key of a binding is its attempt and its role.
abbrev bound : ℕ → String → DeterminationStore → Bool
bound attempt role store =
    any (λ b. nat_eq b.validation_attempt_id attempt && b.source_role == role) store.bindings

unfoldable pub insert_produced_source :
    DeterminationSourceRecord → DeterminationStore → Result DeterminationStore
insert_produced_source record_ store =
    store_if
      (not (source_exists record_.source_record_id store)
        && attempt_exists record_.validation_attempt_id store
        && not (bound record_.validation_attempt_id record_.source_role store))
      (record store {
        sources = store.sources ++ (record_ ∷ []);
        bindings =
            store.bindings
            ++ (record {
              validation_attempt_id = record_.validation_attempt_id;
              source_role = record_.source_role;
              source_record_id = record_.source_record_id;
            }
                ∷ []);
      })

-- A test that is assembled of cases names one.
abbrev case_named : String → Option String → Bool
case_named test_id case_id =
    not (test_id == "VT-EXP-ALL-001" || test_id == "VT-EXP-ROLE-001") || is_some case_id

-- The columns of a scenario's run and execution, or that of a procedure's execution, are set.
abbrev execution_shape : DeterminationContext → DeterminationStore → Bool
execution_shape c store =
    if is_scenario c.context_kind
    then is_some c.scenario_run_id && is_some c.validation_execution_id
    else not (is_some c.scenario_run_id) && elim c.validation_execution_id [
      | none ↦ false
      | some e ↦ any (λ x. nat_eq x.validation_execution_id e) store.procedure_executions
    ]

abbrev context_row_allowed : DeterminationContext → DeterminationStore → Bool
context_row_allowed c store =
    not (context_exists c.determination_context_id store)
    && attempt_exists c.validation_attempt_id store
    && case_named c.test_id c.case_id
    && execution_shape c store

abbrev add_context : DeterminationContext → DeterminationStore → DeterminationStore
add_context c store = record store { contexts = store.contexts ++ (c ∷ []) }

-- An empty draft; `context.members` is tested first.
unfoldable pub insert_context :
    DeterminationContext → DeterminationStore → Result DeterminationStore
insert_context c store =
    store_if (not (is_frozen c.status) && is_empty c.members && context_row_allowed c store)
      (add_context c store)

abbrev member_rows : ℕ → List DeterminationContextMember → List MemberRow
member_rows i [] = []
member_rows i (m ∷ ms) = record { determination_context_id = i; member = m } ∷ member_rows i ms

unfoldable pub insert_frozen_context :
    DeterminationContext → DeterminationStore → Result DeterminationStore
insert_frozen_context c store = do
  store_if
      (is_frozen c.status
        && context_row_allowed c store
        && distinct (map (λ m. m.role) c.members)
        && all (λ m. source_exists m.source_record_id store) c.members)
      (record (add_context c store) {
        members = store.members ++ member_rows c.determination_context_id c.members;
      })

-- A draft acquires members, a frozen context none.
unfoldable pub add_member :
    ℕ → DeterminationContextMember → DeterminationStore → Result DeterminationStore
add_member i m store = elim (find_context i store.contexts) [
  | none ↦ err validation_conflict
  | some c ↦
      store_if
        (not (is_frozen c.status)
          && source_exists m.source_record_id store
          && not (
              any (λ r. nat_eq r.determination_context_id i && r.member.role == m.role)
                store.members))
        (record store { members = store.members ++ member_rows i (m ∷ []) })
]

abbrev replace_draft : DeterminationContext → List DeterminationContext → List DeterminationContext
replace_draft c [] = []
replace_draft c (d ∷ ds) =
    (if nat_eq d.determination_context_id c.determination_context_id && not (is_frozen d.status)
      then c
      else d)
    ∷ replace_draft c ds

unfoldable pub freeze_context :
    DeterminationContext → DeterminationStore → Result DeterminationStore
freeze_context c store =
    store_if
      (is_frozen c.status
        && any
            (λ d.
              nat_eq d.determination_context_id c.determination_context_id
              && not (is_frozen d.status))
            store.contexts)
      (record store { contexts = replace_draft c store.contexts })

-- A determination that has its result acquires nothing more.
abbrev pub determined : ℕ → DeterminationStore → Bool
determined i store = any (λ r. nat_eq r.determination_context_id i) store.results

-- The keys, the foreign key and the trigger of criterion_findings.
abbrev pub finding_allowed : CriterionFinding → DeterminationStore → Bool
finding_allowed f store =
    not (any (λ g. nat_eq g.criterion_finding_id f.criterion_finding_id) store.findings)
    && not (
        any
          (λ g.
            nat_eq g.determination_context_id f.determination_context_id
            && g.criterion_id == f.criterion_id)
          store.findings)
    && context_exists f.determination_context_id store
    && not (determined f.determination_context_id store)
    && finding_valid f

unfoldable pub insert_finding : CriterionFinding → DeterminationStore → Result DeterminationStore
insert_finding f store =
    store_if (finding_allowed f store) (record store { findings = store.findings ++ (f ∷ []) })

unfoldable pub insert_review_proposal :
    EngineeringReviewProposal → DeterminationStore → Result DeterminationStore
insert_review_proposal p store =
    store_if
      (not (any (λ q. nat_eq q.review_proposal_id p.review_proposal_id) store.proposals)
        && not (
            any
              (λ q.
                nat_eq q.determination_context_id p.determination_context_id
                && q.criterion_id == p.criterion_id)
              store.proposals)
        && context_exists p.determination_context_id store
        && not (determined p.determination_context_id store)
        && not (is_not_evaluated p.proposed_finding))
      (record store { proposals = store.proposals ++ (p ∷ []) })

unfoldable pub finalise_review :
    EngineeringReviewFinalisation
    → CriterionFinding
    → DeterminationStore
    → Result DeterminationStore
finalise_review r f store =
    store_if
      (not (
          any
            (λ q.
              nat_eq q.review_finalisation_id r.review_finalisation_id
              || nat_eq q.review_proposal_id r.review_proposal_id
              || (nat_eq q.determination_context_id r.determination_context_id
                  && q.criterion_id == r.criterion_id))
            store.finalisations)
        && any (λ p. nat_eq p.review_proposal_id r.review_proposal_id) store.proposals
        && context_exists r.determination_context_id store
        && not (is_not_evaluated r.final_finding)
        && finding_allowed f store)
      (record store {
        finalisations = store.finalisations ++ (r ∷ []);
        findings = store.findings ++ (f ∷ []);
      })

abbrev pub replace_attempt : ValidationAttempt → List ValidationAttempt → List ValidationAttempt
replace_attempt a [] = []
replace_attempt a (b ∷ bs) =
    (if nat_eq b.validation_attempt_id a.validation_attempt_id then a else b) ∷ replace_attempt a bs

-- validation_repository.py: only an attempt that was not started takes an execution.
unfoldable pub bind_attempt_procedure_execution :
    ValidationAttempt → ValidationExecution → DeterminationStore → Result DeterminationStore
bind_attempt_procedure_execution attempt execution store =
    store_if
      (not (is_scenario execution.context_kind)
        && any
            (λ a.
              nat_eq a.validation_attempt_id attempt.validation_attempt_id
              && is_not_started a.status)
            store.attempts
        && not (
            any
              (λ e.
                nat_eq e.validation_execution_id execution.validation_execution_id
                || same_id e.validation_attempt_id execution.validation_attempt_id
                || same_id e.target_selection_id execution.target_selection_id)
              store.procedure_executions))
      (record store {
        attempts = replace_attempt attempt store.attempts;
        procedure_executions = store.procedure_executions ++ (execution ∷ []);
      })
  where
    same_id : Option ℕ → Option ℕ → Bool
    same_id none none = true
    same_id none (some j) = false
    same_id (some i) none = false
    same_id (some i) (some j) = nat_eq i j

abbrev pub result_readable : Option ℕ → DeterminationStore → Result (Unit {0})
result_readable none store = ok tt
result_readable (some i) store = get_executed_result i store >>= λ result. ok tt

-- The baseline of a repeat is its source, which is read with its result; the digests that the
-- baseline keeps are left out.
unfoldable pub capture_repeat_source_baseline :
    ℕ → ℕ → DeterminationStore → Result DeterminationStore
capture_repeat_source_baseline repeat_id source_id store = do
  source ← get_execution source_id store
  result_readable source.executed_result_id store
  store_if
      (not (
        any (λ b. nat_eq b.repeat_execution_id repeat_id || nat_eq b.source_execution_id source_id)
          store.repeat_baselines))
      (record store {
        repeat_baselines =
            store.repeat_baselines
            ++ (record { repeat_execution_id = repeat_id; source_execution_id = source_id } ∷ []);
      })
