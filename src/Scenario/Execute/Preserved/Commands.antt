-- ===== src/Scenario/Execute/Preserved/Commands.antt =====
-- What each command keeps of the runs other than its own.
use ot_engineering_demonstra.Base.{
  String, ℕ, suc, not, ◌&&◌, ◌||◌, Option, none, some, List, [], ◌∷◌, ok, >>=-eq-ok, ok-injective,
  branch-eq-ok, option-eq-ok, inl, inr, ◌≡◌, refl, sym, ap, subst,
}
use ot_engineering_demonstra.Domain.{
  ScenarioCommandType, initiate_fault, acknowledge_alarm, operate_isolation_device,
  restore_normal_source, assess_restoration, execute_restoration, reset_run, is_closed,
}
use ot_engineering_demonstra.Domain.Config.{LoadedConfiguration}
use ot_engineering_demonstra.Telemetry.{TelemetryPoint, is_acknowledged}
use ot_engineering_demonstra.Restoration.{RestorationAssessment}
use ot_engineering_demonstra.Restoration.Candidate.{item}
use ot_engineering_demonstra.Scenario.{
  RunContext, ScenarioCommandRequest, CommandResult, OperationalEvent, is_n0, is_n3, is_n4,
}
use ot_engineering_demonstra.Scenario.Store.{
  Store, update_run, insert_run, insert_events, insert_assessment_invalidation,
  insert_derived_snapshots, put_telemetry,
}
use ot_engineering_demonstra.Scenario.Store.Kept.{
  Kept, Kept-trans, same_runs-Kept, update_run-Kept, insert_run-Kept, put_telemetry-Kept,
  insert_assessment_invalidation-Kept, insert_events-Kept, insert_derived_snapshots-Kept,
}
use ot_engineering_demonstra.Scenario.Derive.{
  derive, gate_topology, affected_feeder, assess_now, assessment_binding_matches,
}
use ot_engineering_demonstra.Scenario.Actions.{restore_gate, isolated_without_reclose}
use ot_engineering_demonstra.Scenario.Snapshot.{Coordinator, State, assemble_snapshot}
use ot_engineering_demonstra.Scenario.Operations.{
  initiate_fault_command, requested_alarm, acknowledge_alarm_command, open_target,
  operate_isolation_device_command,
}
use ot_engineering_demonstra.Scenario.Restoring.{
  restore_normal_source_command, reassessment_allowed, assess_restoration_command,
  executable_assessment, execute_bound, execute_restoration_command,
}
use ot_engineering_demonstra.Scenario.Execute.{
  normal_telemetry, put_all, invalidate_current, close_run, start_run, reset_run_command, dispatch,
}
use ot_engineering_demonstra.Scenario.Execute.Preserved.{
  record_result-Kept, reject-Kept, initiate_fault_at-Keeps, acknowledge-Keeps, operate_at-Keeps,
  restore_at-Keeps, assess_at-Keeps, invalidate-Keeps, close_tie-Keeps,
}

module _ (K : Coordinator) (loaded : LoadedConfiguration) (s : State) (run : RunContext)
    (request : ScenarioCommandRequest) (a : CommandResult × State) where
  abbrev Keeps : Type 0
  Keeps = Kept run.scenario_run_id s.store a.1.store

  initiate_fault_command-Keeps : initiate_fault_command K loaded s run request ≡ ok a → Keeps
  unfolding initiate_fault_command
  initiate_fault_command-Keeps h =
      elim (branch-eq-ok (is_n0 run.network_state_label && not run.fault_active) _ _ h) [
        | inr (f, r) ↦ reject-Kept K loaded request run.scenario_run_id s run _ _ a r
        | inl (t, r) ↦
            let (feeder, e1, h1) = >>=-eq-ok (affected_feeder loaded run) _ r in
            let (previous, e2, h2) = >>=-eq-ok (item feeder.source_breaker_id _) _ h1 in
            elim (branch-eq-ok (is_closed previous.value) _ _ h2) [
              | inr (o, r2) ↦ reject-Kept K loaded request run.scenario_run_id s run _ _ a r2
              | inl (c, r2) ↦ initiate_fault_at-Keeps K loaded s run request _ previous a r2
            ]
      ]

  acknowledge_alarm_command-Keeps : acknowledge_alarm_command K loaded s run request ≡ ok a → Keeps
  unfolding acknowledge_alarm_command
  acknowledge_alarm_command-Keeps h =
      elim (option-eq-ok (requested_alarm K loaded s run request.alarm_id) _ _ h) [
        | inr r ↦ reject-Kept K loaded request run.scenario_run_id s run _ _ a r
        | inl (alarm, e, h1) ↦
            elim (branch-eq-ok (alarm.active && not (is_acknowledged alarm.acknowledgement_state)) _
              _ h1) [
                | inr (f, r) ↦ reject-Kept K loaded request run.scenario_run_id s run _ _ a r
                | inl (t, r) ↦ acknowledge-Keeps K loaded s run request alarm a r
              ]
      ]

  operate_isolation_device_command-Keeps :
      operate_isolation_device_command K loaded s run request ≡ ok a → Keeps
  unfolding operate_isolation_device_command
  operate_isolation_device_command-Keeps h =
      let (topology, e1, h1) = >>=-eq-ok (gate_topology K.libraries loaded run _ _) _ h in
      elim (option-eq-ok (open_target K loaded run topology request) _ _ h1) [
        | inr r ↦ reject-Kept K loaded request run.scenario_run_id s run _ _ a r
        | inl (target, e, r) ↦ operate_at-Keeps K loaded s run request target a r
      ]

  restore_normal_source_command-Keeps :
      restore_normal_source_command K loaded s run request ≡ ok a → Keeps
  unfolding restore_normal_source_command
  restore_normal_source_command-Keeps h =
      let (topology, e1, h1) = >>=-eq-ok (gate_topology K.libraries loaded run _ _) _ h in
      let (feeder, e2, h2) = >>=-eq-ok (affected_feeder loaded run) _ h1 in
      let (available, e3, h3) = >>=-eq-ok (restore_gate K.libraries loaded run _ _ _) _ h2 in
      elim (branch-eq-ok available _ _ h3) [
        | inr (f, r) ↦ reject-Kept K loaded request run.scenario_run_id s run _ _ a r
        | inl (t, r) ↦
            let (previous, e4, h4) = >>=-eq-ok (item feeder.source_breaker_id _) _ r in
            elim (branch-eq-ok (is_closed previous.value) _ _ h4) [
              | inl (c, r2) ↦ reject-Kept K loaded request run.scenario_run_id s run _ _ a r2
              | inr (o, r2) ↦ restore_at-Keeps K loaded s run request _ previous a r2
            ]
      ]

  assess_restoration_command-Keeps :
      assess_restoration_command K loaded s run request ≡ ok a → Keeps
  unfolding assess_restoration_command
  assess_restoration_command-Keeps h =
      let (topology, e1, h1) = >>=-eq-ok (gate_topology K.libraries loaded run _ _) _ h in
      let (without, e2, h2) =
        >>=-eq-ok (isolated_without_reclose K.libraries loaded run _ _ _) _ h1 in
      elim (branch-eq-ok
        (is_n3 run.network_state_label
          || without
          || is_n4 run.network_state_label && reassessment_allowed s run)
        _ _ h2) [
          | inr (f, r) ↦ reject-Kept K loaded request run.scenario_run_id s run _ _ a r
          | inl (t, r) ↦ assess_at-Keeps K loaded s run request a r
        ]

  execute_restoration_command-Keeps :
      execute_restoration_command K loaded s run request ≡ ok a → Keeps
  unfolding execute_restoration_command execute_bound
  execute_restoration_command-Keeps h =
      elim (option-eq-ok (executable_assessment s run request) _ _ h) [
        | inr r ↦ reject-Kept K loaded request run.scenario_run_id s run _ _ a r
        | inl (e, found, r) ↦
            let (projection, e1, h1) = >>=-eq-ok (assess_now K.libraries loaded run _ _ _ _) _ r in
            let t : State = record s { drawn = suc s.drawn } in
            elim (branch-eq-ok (assessment_binding_matches e.0 projection) _ _ h1) [
              | inr (f, r2) ↦ invalidate-Keeps K loaded t run request e.0 a r2
              | inl (m, r2) ↦
                  let (previous, e2, h2) = >>=-eq-ok (item e.1.tie_device_id _) _ r2 in
                  elim (branch-eq-ok (is_closed previous.value) _ _ h2) [
                    | inl (c, r3) ↦ reject-Kept K loaded request run.scenario_run_id t run _ _ a r3
                    | inr (o, r3) ↦
                        close_tie-Keeps K loaded t run request e.0 e.1.tie_device_id previous a r3
                  ]
            ]
      ]

put_all-Kept :
    (own : ℕ) (s : Store) (id : ℕ) (ps : List TelemetryPoint) → Kept own s (put_all s id ps)
unfolding put_all
put_all-Kept own s id [] = same_runs-Kept own s s refl
put_all-Kept own s id (p ∷ ps) =
    Kept-trans own s (put_telemetry s id p) (put_all (put_telemetry s id p) id ps)
      (put_telemetry-Kept own s id p) (put_all-Kept own (put_telemetry s id p) id ps)

module _ (K : Coordinator) where
  invalidate_current-Kept :
      (own : ℕ) (s t : State) (run : RunContext) (time : ℕ) (events : List OperationalEvent)
      (o : Option RestorationAssessment)
      → invalidate_current K s run time o events ≡ ok t
      → Kept own s.store t.store
  unfolding invalidate_current
  invalidate_current-Kept own s t run time events none h =
      same_runs-Kept own s.store t.store (ap (λ u. u.store.runs) (sym (ok-injective h)))
  invalidate_current-Kept own s t run time [] (some b) h =
      same_runs-Kept own s.store t.store (ap (λ u. u.store.runs) (sym (ok-injective h)))
  invalidate_current-Kept own s t run time (first ∷ events) (some b) h =
      let (store, e, h1) = >>=-eq-ok (insert_assessment_invalidation s.store _) _ h in
      subst (λ u. Kept own s.store u.store) (ok-injective h1)
        (insert_assessment_invalidation-Kept own s.store store _ e)

  close_run-Kept :
      (s : State) (run : RunContext) (command_id : ℕ) (actor : String) (time : ℕ)
      (b : List OperationalEvent × State)
      → close_run K s run command_id actor time ≡ ok b
      → Kept run.scenario_run_id s.store b.1.store
  unfolding close_run
  close_run-Kept s run command_id actor time b h =
      let own = run.scenario_run_id in
      let (s1, e1, h1) = >>=-eq-ok (update_run s.store _) _ h in
      let (s2, e2, h2) = >>=-eq-ok (insert_events s1 _) _ h1 in
      let (t, e3, h3) = >>=-eq-ok (invalidate_current K _ run time _ _) _ h2 in
      subst (λ c. Kept own s.store c.1.store) (ok-injective h3)
        (Kept-trans own s.store s1 t.store (update_run-Kept s.store s1 _ e1) (
          Kept-trans own s1 s2 t.store (insert_events-Kept own s1 s2 _ e2)
            (invalidate_current-Kept own _ t run time _ _ e3)))

  start_run-Kept :
      (own : ℕ) (s : State) (loaded : LoadedConfiguration) (run : RunContext) (command_id : ℕ)
      (actor : String) (b : List OperationalEvent × State)
      → start_run K s loaded run command_id actor ≡ ok b
      → Kept own s.store b.1.store
  unfolding start_run
  start_run-Kept own s loaded run command_id actor b h =
      let telemetry = normal_telemetry loaded run in
      let (s1, e1, h1) = >>=-eq-ok (insert_run s.store run) _ h in
      let s2 = put_all s1 run.scenario_run_id telemetry in
      let (derived, e2, h2) = >>=-eq-ok (derive K.libraries loaded run telemetry none) _ h1 in
      let (s3, e3, h3) =
        >>=-eq-ok (insert_derived_snapshots s2 run.scenario_run_id 0 derived.0 derived.1) _ h2 in
      let (s4, e4, h4) = >>=-eq-ok (insert_events s3 _) _ h3 in
      subst (λ c. Kept own s.store c.1.store) (ok-injective h4)
        (Kept-trans own s.store s1 s4 (insert_run-Kept own s.store s1 run e1) (
          Kept-trans own s1 s2 s4 (put_all-Kept own s1 run.scenario_run_id telemetry) (
            Kept-trans own s2 s3 s4
              (insert_derived_snapshots-Kept own s2 s3 _ 0 derived.0 derived.1 e3)
              (insert_events-Kept own s3 s4 _ e4))))

  reset_run_command-Keeps :
      (loaded : LoadedConfiguration) (s : State) (run : RunContext)
      (request : ScenarioCommandRequest) (a : CommandResult × State)
      → reset_run_command K loaded s run request ≡ ok a
      → Kept run.scenario_run_id s.store a.1.store
  unfolding reset_run_command
  reset_run_command-Keeps loaded s run request a h =
      let own = run.scenario_run_id in
      let (closing, e1, h1) = >>=-eq-ok (close_run K s run _ _ request.scenario_time) _ h in
      let (u, e2, h2) = >>=-eq-ok (K.failure_hook "AFTER_PRIMARY_MUTATION") _ h1 in
      let (starting, e3, h3) = >>=-eq-ok (start_run K _ loaded _ request.command_id _) _ h2 in
      let (v, e4, h4) = >>=-eq-ok (K.failure_hook "BEFORE_COMMIT") _ h3 in
      let (snapshot, e5, h5) = >>=-eq-ok (assemble_snapshot K loaded starting.1 _) _ h4 in
      Kept-trans own s.store closing.1.store a.1.store (close_run-Kept s run _ _ _ closing e1) (
        Kept-trans own closing.1.store starting.1.store a.1.store
          (start_run-Kept own _ loaded _ _ _ starting e3)
          (record_result-Kept K loaded request own starting.1 own _ a h5))

  pub dispatch-Keeps :
      (type : ScenarioCommandType) (loaded : LoadedConfiguration) (s : State) (run : RunContext)
      (request : ScenarioCommandRequest) (a : CommandResult × State)
      → dispatch K type loaded s run request ≡ ok a
      → Kept run.scenario_run_id s.store a.1.store
  unfolding dispatch
  dispatch-Keeps initiate_fault = initiate_fault_command-Keeps K
  dispatch-Keeps acknowledge_alarm = acknowledge_alarm_command-Keeps K
  dispatch-Keeps operate_isolation_device = operate_isolation_device_command-Keeps K
  dispatch-Keeps restore_normal_source = restore_normal_source_command-Keeps K
  dispatch-Keeps assess_restoration = assess_restoration_command-Keeps K
  dispatch-Keeps execute_restoration = execute_restoration_command-Keeps K
  dispatch-Keeps reset_run = reset_run_command-Keeps
