-- ===== src/Scenario/Execute/Refusals.antt =====
-- What `execute` answers: refusals, transitions, and repeated commands.
use ot_engineering_demonstra.Base.{
  eq_iff, ◌==◌, ℕ, true, false, none, [], nat_eq, ltb, ok, >>=-eq-ok, ok-injective, branch-eq-ok,
  option-eq-ok, inl, inr, ◌≡◌, ◌≢◌, ◌↔◌, refl, ap, ◌∙◌, subst, arith,
}
use ot_engineering_demonstra.Domain.{
  ScenarioCommandType, initiate_fault, acknowledge_alarm, operate_isolation_device,
  restore_normal_source, assess_restoration, execute_restoration, reset_run, closed_run,
}
use ot_engineering_demonstra.Domain.Config.{LoadedConfiguration}
use ot_engineering_demonstra.Scenario.{RunContext, ScenarioCommandRequest, CommandResult}
use ot_engineering_demonstra.Scenario.Store.{get_run, get_command_result}
use ot_engineering_demonstra.Scenario.Snapshot.{Coordinator, State}
use ot_engineering_demonstra.Scenario.Execute.{dispatch, refusal, execute_new, execute}
use ot_engineering_demonstra.Scenario.Execute.Lifecycle.{
  Recorded, Concluded, Answered, reject-Answered,
}
use ot_engineering_demonstra.Scenario.Execute.Lifecycle.Fault.{
  initiate_fault_command-Answered, acknowledge_alarm_command-Answered,
  operate_isolation_device_command-Answered,
}
use ot_engineering_demonstra.Scenario.Execute.Lifecycle.Reset.{reset_run_command-Answered}
use ot_engineering_demonstra.Scenario.Replay.Repeated.{
  Answers, Repeats, Answers-Repeats, replayed-store,
}
use ot_engineering_demonstra.Scenario.Execute.Lifecycle.Restoration.{
  restore_normal_source_command-Answered, assess_restoration_command-Answered,
  execute_restoration_command-Answered,
}

-- No general refusal is given exactly to a command that expects the run's revision, does not come
-- before the run's time, and does not meet a closed run.
pub refusal-none :
    (run : RunContext) (request : ScenarioCommandRequest)
    → (refusal run request ≡ none) ↔ (
        (request.expected_revision ≡ run.state_revision)
        × (ltb request.scenario_time run.scenario_time ≡ false)
        × (run.status ≢ closed_run))
unfolding refusal
refusal-none run request = ground arith

module _ (K : Coordinator) where
  dispatch-Answered :
      (type : ScenarioCommandType) (loaded : LoadedConfiguration) (s : State) (run : RunContext)
      (request : ScenarioCommandRequest) (a : CommandResult × State)
      → dispatch K type loaded s run request ≡ ok a
      → Answered K loaded request type run a
  unfolding dispatch
  dispatch-Answered initiate_fault loaded s run request a h =
      initiate_fault_command-Answered K loaded s run request a h
  dispatch-Answered acknowledge_alarm loaded s run request a h =
      acknowledge_alarm_command-Answered K loaded s run request a h
  dispatch-Answered operate_isolation_device loaded s run request a h =
      operate_isolation_device_command-Answered K loaded s run request a h
  dispatch-Answered restore_normal_source loaded s run request a h =
      restore_normal_source_command-Answered K loaded s run request a h
  dispatch-Answered assess_restoration loaded s run request a h =
      assess_restoration_command-Answered K loaded s run request a h
  dispatch-Answered execute_restoration loaded s run request a h =
      execute_restoration_command-Answered K loaded s run request a h
  dispatch-Answered reset_run loaded s run request a h =
      reset_run_command-Answered K loaded s run request a h

  -- A new command that returns finds its run; its result is stored under its identity. Either it is
  -- refused, or it is accepted and the run makes a transition of its command's type: the run that
  -- the result shows is then the one that is stored, under the same identity but for a reset.
  pub execute_new-Answered :
      (s : State) (request : ScenarioCommandRequest) (a : CommandResult × State)
      → execute_new K s request ≡ ok a
      → (run : RunContext) × (loaded : LoadedConfiguration) × (get_run s.store
            request.scenario_run_id
          ≡ ok run)
        × Recorded K loaded request a.0 a.1
        × Concluded K loaded request request.command_type run a.0 a.1
  unfolding execute_new
  execute_new-Answered s request a h =
      let (run, e1, h1) = >>=-eq-ok (get_run s.store request.scenario_run_id) _ h in
      let (loaded, e2, h2) = >>=-eq-ok (K.load run.configuration_version) _ h1 in
      elim (option-eq-ok (refusal run request) _ _ h2) [
        | inl (code, e, r) ↦
            let (rec, con) =
              reject-Answered K loaded request s run run request.command_type code [] a r in
            (run, loaded, e1, rec, con)
        | inr r ↦
            let (rec, con) = dispatch-Answered request.command_type loaded s run request a r in
            (run, loaded, e1, rec, con)
      ]

  execute-Answers :
      (s : State) (run_id : ℕ) (request : ScenarioCommandRequest) (a : CommandResult × State)
      → execute K s run_id request ≡ ok a
      → (nat_eq request.scenario_run_id run_id ≡ true)
        × Answers K request.command_id (K.request_sha request) a.0 a.1
  unfolding execute
  execute-Answers s run_id request a h =
      elim (branch-eq-ok (nat_eq request.scenario_run_id run_id) _ _ h) [
        | inr (f, r) ↦ cc
        | inl (t, r) ↦ elim (option-eq-ok (get_command_result s.store request.command_id) _ _ r) [
          | inr new ↦
              let (run, loaded, e1, rec, con) = execute_new-Answered s request a new in (t, rec)
          | inl (row, found, r2) ↦
              elim (branch-eq-ok (row.request_sha256 == K.request_sha request) _ _ r2) [
                | inr (f, r3) ↦ cc
                | inl (test, r3) ↦
                    let kept =
                      replayed-store K s request.command_id (K.request_sha request) row.result in
                    (
                      t,
                      subst (λ b. Answers K request.command_id (K.request_sha request) b.0 b.1)
                          (ok-injective r3)
                          (
                            row,
                            ap (λ store. get_command_result store request.command_id) kept ∙ found,
                            (eq_iff row.request_sha256 (K.request_sha request)).0 test,
                            refl,
                          ),
                    )
              ]
        ]
      ]

  -- A command that returned a result returns the same result when it is sent again. It then leaves
  -- the tables and the UUIDs drawn as they are, and notes at most one replay comparison, which
  -- reports the same result, no new event and no new invalidation; once more it changes nothing.
  pub execute-repeated :
      (s : State) (run_id : ℕ) (request : ScenarioCommandRequest) (a : CommandResult × State)
      → execute K s run_id request ≡ ok a
      → Repeats K request.command_id (K.request_sha request) (λ u. execute K u run_id request) a
  unfolding execute
  execute-repeated s run_id request a h =
      let (t, answers) = execute-Answers s run_id request a h in
      Answers-Repeats K request.command_id (K.request_sha request) (λ u. execute K u run_id request)
        (λ u. execute_new K u request) a.0 a.1 (λ u. rw (t, execute) refl) answers
