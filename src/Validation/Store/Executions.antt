-- ===== src/Validation/Store/Executions.antt =====
-- app/backend/ot_demo/infrastructure/validation_repository.py: binding an attempt that was not started
-- to a run, or to its execution. A key that is taken raises sqlite3's own error in the second. The
-- validator of an execution gives a scenario's execution its run, mode and start.
use ot_engineering_demonstra.Base.{
  nat_eq, Bool, true, not, ◌&&◌, [], ◌∷◌, ◌++◌, any, guard, integrity_error, validation_conflict,
  Result, ok, ◌>>◌, if◌then◌else◌, ◌≡◌, refl, subst, ok-injective, guard-eq-ok,
}
use ot_engineering_demonstra.Domain.Assurance.{is_not_started, is_scenario}
use ot_engineering_demonstra.Validation.{ValidationAttempt, ValidationExecution}
use ot_engineering_demonstra.Validation.Store.{DeterminationStore}
use ot_engineering_demonstra.Validation.Store.Write.{
  bind_attempt_procedure_execution, replace_attempt,
}

abbrev pub unstarted : ValidationAttempt → DeterminationStore → Bool
unstarted a store =
    any (λ b. nat_eq b.validation_attempt_id a.validation_attempt_id && is_not_started b.status)
      store.attempts

unfoldable pub bind_attempt_run : ValidationAttempt → DeterminationStore → Result DeterminationStore
bind_attempt_run attempt store = do
  guard (unstarted attempt store) validation_conflict
  ok (record store { attempts = replace_attempt attempt store.attempts })

unfoldable pub bind_scenario_execution :
    ValidationAttempt → ValidationExecution → DeterminationStore → Result DeterminationStore
bind_scenario_execution attempt execution store = do
  guard (unstarted attempt store) validation_conflict
  guard
      (not (
        any (λ e. nat_eq e.validation_execution_id execution.validation_execution_id)
          store.executions))
      integrity_error
  ok (record store {
    attempts = replace_attempt attempt store.attempts;
    executions = store.executions ++ (execution ∷ []);
  })

unfoldable pub bind_attempt_execution :
    ValidationAttempt → ValidationExecution → DeterminationStore → Result DeterminationStore
bind_attempt_execution attempt execution store =
    if is_scenario execution.context_kind
    then bind_scenario_execution attempt execution store
    else bind_attempt_procedure_execution attempt execution store

-- What both store: the attempt was not started, is replaced, and no result is added.
abbrev pub Binds : ValidationAttempt → DeterminationStore → DeterminationStore → Type 0
Binds a s t =
    (unstarted a s ≡ true) × (t.attempts ≡ replace_attempt a s.attempts) × (t.results ≡ s.results)

pub bind_attempt_run-Binds :
    (a : ValidationAttempt) (s : DeterminationStore) {t : DeterminationStore}
    → bind_attempt_run a s ≡ ok t
    → Binds a s t
unfolding bind_attempt_run
bind_attempt_run-Binds a s h =
    let (u, e) = guard-eq-ok (unstarted a s) validation_conflict _ h in
    subst (Binds a s) (ok-injective e) (u, refl, refl)

pub bind_scenario_execution-Binds :
    (a : ValidationAttempt) (e : ValidationExecution) (s : DeterminationStore)
    {t : DeterminationStore}
    → bind_scenario_execution a e s ≡ ok t
    → Binds a s t
unfolding bind_scenario_execution
bind_scenario_execution-Binds a e s h =
    let (u, h1) = guard-eq-ok (unstarted a s) validation_conflict _ h in
    let (v, h2) =
      guard-eq-ok
        (not (any (λ x. nat_eq x.validation_execution_id e.validation_execution_id) s.executions))
        integrity_error _ h1 in
    subst (Binds a s) (ok-injective h2) (u, refl, refl)
