-- ===== src/Scenario/Execute/Preserved.antt =====
-- What the accepting bodies of the handlers keep of the runs other than their own.
pub mod Commands
pub mod History
use ot_engineering_demonstra.Base.{
  String, ℕ, suc, Bool, true, false, none, some, List, [], ok, >>=-eq-ok, ok-injective,
  branch-eq-ok, option-eq-ok, inl, inr, ◌≡◌, refl, sym, ap, ◌∙◌, subst,
}
use ot_engineering_demonstra.Domain.Config.{LoadedConfiguration}
use ot_engineering_demonstra.Telemetry.{TelemetryPoint, AlarmRecord}
use ot_engineering_demonstra.Restoration.{RestorationAssessment}
use ot_engineering_demonstra.Restoration.Candidate.{item}
use ot_engineering_demonstra.Scenario.{
  RunContext, ScenarioCommandRequest, CommandResult, EventSpec, OperationalEvent,
}
use ot_engineering_demonstra.Scenario.Store.{
  Store, update_run, insert_run, insert_alarm, update_alarm, insert_assessment, insert_events,
  insert_assessment_invalidation, insert_derived_snapshots, insert_command_result, put_telemetry,
}
use ot_engineering_demonstra.Scenario.Store.Kept.{
  Kept, Kept-trans, same_runs-Kept, update_run-Kept, insert_run-Kept, put_telemetry-Kept,
  insert_alarm-Kept, update_alarm-Kept, insert_assessment-Kept, insert_assessment_invalidation-Kept,
  insert_events-Kept, insert_derived_snapshots-Kept, insert_command_result-Kept,
}
use ot_engineering_demonstra.Scenario.Derive.{assess_now, derive}
use ot_engineering_demonstra.Scenario.Events.{events_from_specs}
use ot_engineering_demonstra.Scenario.Snapshot.{
  Coordinator, State, assemble_snapshot, record_result, reject, complete_accepted,
}
use ot_engineering_demonstra.Scenario.Operations.{
  derive_after, initiate_fault_at, acknowledge, operate_at,
}
use ot_engineering_demonstra.Scenario.Restoring.{restore_at, assess_at, invalidate, close_tie}
use ot_engineering_demonstra.Scenario.Execute.{
  normal_telemetry, put_all, invalidate_current, close_run, start_run, current_assessment,
}

module _ (K : Coordinator) (loaded : LoadedConfiguration) (request : ScenarioCommandRequest)
    (own : ℕ) where
  pub record_result-Kept :
      (s : State) (run_id : ℕ) (result : CommandResult) (a : CommandResult × State)
      → record_result K loaded s run_id request result ≡ ok a
      → Kept own s.store a.1.store
  unfolding record_result
  record_result-Kept s run_id result a h =
      let (store, e, h1) = >>=-eq-ok (insert_command_result s.store _) _ h in
      subst (λ b. Kept own s.store b.1.store) (ok-injective h1)
        (insert_command_result-Kept own s.store store _ e)

  pub reject-Kept :
      (s : State) (run : RunContext) (code : String) (ids : List ℕ) (a : CommandResult × State)
      → reject K loaded s run request code ids ≡ ok a
      → Kept own s.store a.1.store
  unfolding reject
  reject-Kept s run code ids a h =
      let (snapshot, e, h1) = >>=-eq-ok (assemble_snapshot K loaded s run) _ h in
      record_result-Kept s run.scenario_run_id _ a h1

  complete_accepted-Kept :
      (s : State) (before after : RunContext) (code : String) (specs : List EventSpec)
      (ids : List ℕ) (a : CommandResult × State)
      → complete_accepted K loaded s before after request code specs ids ≡ ok a
      → Kept own s.store a.1.store
  unfolding complete_accepted
  complete_accepted-Kept s before after code specs ids a h =
      let (store, e1, h1) = >>=-eq-ok (insert_events s.store _) _ h in
      let (u, e2, h2) = >>=-eq-ok (K.failure_hook "BEFORE_COMMIT") _ h1 in
      let (snapshot, e3, h3) = >>=-eq-ok (assemble_snapshot K loaded _ after) _ h2 in
      Kept-trans own s.store store a.1.store (insert_events-Kept own s.store store _ e1)
        (record_result-Kept _ before.scenario_run_id _ a h3)

module _ (K : Coordinator) (loaded : LoadedConfiguration) (s : State) (run : RunContext)
    (request : ScenarioCommandRequest) where
  abbrev Keeps : CommandResult × State → Type 0
  Keeps a = Kept run.scenario_run_id s.store a.1.store

  -- A body that writes the run, a point and snapshots, and completes.
  written-Keeps :
      (s1 s2 : Store) (updated : RunContext) (point : TelemetryPoint) (a : CommandResult × State)
      → updated.scenario_run_id ≡ run.scenario_run_id
      → update_run s.store updated ≡ ok s1
      → Kept run.scenario_run_id (put_telemetry s1 run.scenario_run_id point) s2
      → Kept run.scenario_run_id s2 a.1.store
      → Keeps a
  written-Keeps s1 s2 updated point a same e later last =
      let own = run.scenario_run_id in
      Kept-trans own s.store s1 a.1.store
        (subst (λ k. Kept k s.store s1) same (update_run-Kept s.store s1 updated e))
        (Kept-trans own s1 (put_telemetry s1 own point) a.1.store
          (put_telemetry-Kept own s1 own point)
          (Kept-trans own (put_telemetry s1 own point) s2 a.1.store later last))

  pub initiate_fault_at-Keeps :
      (breaker_id : String) (previous : TelemetryPoint) (a : CommandResult × State)
      → initiate_fault_at K loaded s run request breaker_id previous ≡ ok a
      → Keeps a
  unfolding initiate_fault_at
  initiate_fault_at-Keeps breaker_id previous a h =
      let own = run.scenario_run_id in
      let (s1, e1, h1) = >>=-eq-ok (update_run s.store _) _ h in
      let (s2, e2, h2) = >>=-eq-ok (insert_alarm _ _) _ h1 in
      let (u, e3, h3) = >>=-eq-ok (K.failure_hook "AFTER_PRIMARY_MUTATION") _ h2 in
      let (derived, e4, h4) = >>=-eq-ok (derive_after K loaded s.store run _ breaker_id _) _ h3 in
      let (s3, e5, h5) = >>=-eq-ok (insert_derived_snapshots s2 own _ derived.0 derived.1) _ h4 in
      written-Keeps s1 s2 _ _ a refl e1 (insert_alarm-Kept own _ s2 _ e2) (
        Kept-trans own s2 s3 a.1.store
          (insert_derived_snapshots-Kept own s2 s3 own _ derived.0 derived.1 e5)
          (complete_accepted-Kept K loaded request own _ run _ _ _ _ a h5))

  pub acknowledge-Keeps :
      (alarm : AlarmRecord) (a : CommandResult × State)
      → acknowledge K loaded s run request alarm ≡ ok a
      → Keeps a
  unfolding acknowledge
  acknowledge-Keeps alarm a h =
      let own = run.scenario_run_id in
      let (s1, e1, h1) = >>=-eq-ok (update_alarm s.store _) _ h in
      let (s2, e2, h2) = >>=-eq-ok (update_run s1 _) _ h1 in
      let (u, e3, h3) = >>=-eq-ok (K.failure_hook "AFTER_PRIMARY_MUTATION") _ h2 in
      Kept-trans own s.store s1 a.1.store (update_alarm-Kept own s.store s1 _ e1) (
        Kept-trans own s1 s2 a.1.store (update_run-Kept s1 s2 _ e2)
          (complete_accepted-Kept K loaded request own _ run _ _ _ _ a h3))

  pub operate_at-Keeps :
      (target : String) (a : CommandResult × State)
      → operate_at K loaded s run request target ≡ ok a
      → Keeps a
  unfolding operate_at
  operate_at-Keeps target a h =
      let own = run.scenario_run_id in
      let (previous, e1, h1) = >>=-eq-ok (item target _) _ h in
      let (u, e2, h2) = >>=-eq-ok (K.failure_hook "AFTER_PRIMARY_MUTATION") _ h1 in
      let (derived, e3, h3) = >>=-eq-ok (derive_after K loaded s.store run _ target _) _ h2 in
      let (s1, e4, h4) = >>=-eq-ok (update_run _ _) _ h3 in
      let (s2, e5, h5) = >>=-eq-ok (insert_derived_snapshots s1 own _ derived.0 derived.1) _ h4 in
      Kept-trans own s.store _ a.1.store (put_telemetry-Kept own s.store own _) (
        Kept-trans own _ s1 a.1.store (update_run-Kept _ s1 _ e4) (
          Kept-trans own s1 s2 a.1.store
            (insert_derived_snapshots-Kept own s1 s2 own _ derived.0 derived.1 e5)
            (complete_accepted-Kept K loaded request own _ run _ _ _ _ a h5)))

  pub restore_at-Keeps :
      (breaker_id : String) (previous : TelemetryPoint) (a : CommandResult × State)
      → restore_at K loaded s run request breaker_id previous ≡ ok a
      → Keeps a
  unfolding restore_at
  restore_at-Keeps breaker_id previous a h =
      let own = run.scenario_run_id in
      let (s1, e1, h1) = >>=-eq-ok (update_run s.store _) _ h in
      let (u, e2, h2) = >>=-eq-ok (K.failure_hook "AFTER_PRIMARY_MUTATION") _ h1 in
      let (derived, e3, h3) = >>=-eq-ok (derive_after K loaded s.store run _ breaker_id _) _ h2 in
      let (s2, e4, h4) = >>=-eq-ok (insert_derived_snapshots _ own _ derived.0 derived.1) _ h3 in
      written-Keeps s1 s2 _ _ a refl e1
        (insert_derived_snapshots-Kept own _ s2 own _ derived.0 derived.1 e4)
        (complete_accepted-Kept K loaded request own _ run _ _ _ _ a h4)

  pub assess_at-Keeps :
      (a : CommandResult × State) → assess_at K loaded s run request ≡ ok a → Keeps a
  unfolding assess_at
  assess_at-Keeps a h =
      let own = run.scenario_run_id in
      let (assessment, e1, h1) =
        >>=-eq-ok (assess_now K.libraries loaded _ _ _ _ request.scenario_time) _ h in
      let (s1, e2, h2) = >>=-eq-ok (update_run s.store _) _ h1 in
      let (s2, e3, h3) = >>=-eq-ok (insert_assessment s1 assessment) _ h2 in
      let (u, e4, h4) = >>=-eq-ok (K.failure_hook "AFTER_PRIMARY_MUTATION") _ h3 in
      Kept-trans own s.store s1 a.1.store (update_run-Kept s.store s1 _ e2) (
        Kept-trans own s1 s2 a.1.store (insert_assessment-Kept own s1 s2 assessment e3)
          (complete_accepted-Kept K loaded request own _ run _ _ _ _ a h4))

  pub invalidate-Keeps :
      (current : RestorationAssessment) (a : CommandResult × State)
      → invalidate K loaded s run request current ≡ ok a
      → Keeps a
  unfolding invalidate
  invalidate-Keeps current a h =
      let own = run.scenario_run_id in
      let (s1, e1, h1) = >>=-eq-ok (update_run s.store _) _ h in
      let (s2, e2, h2) = >>=-eq-ok (insert_events s1 _) _ h1 in
      let (s3, e3, h3) = >>=-eq-ok (insert_assessment_invalidation s2 _) _ h2 in
      let (u, e4, h4) = >>=-eq-ok (K.failure_hook "AFTER_PRIMARY_MUTATION") _ h3 in
      Kept-trans own s.store s1 a.1.store (update_run-Kept s.store s1 _ e1) (
        Kept-trans own s1 s2 a.1.store (insert_events-Kept own s1 s2 _ e2) (
          Kept-trans own s2 s3 a.1.store (insert_assessment_invalidation-Kept own s2 s3 _ e3)
            (reject-Kept K loaded request own _ _ _ _ a h4)))

  pub close_tie-Keeps :
      (current : RestorationAssessment) (tie : String) (previous : TelemetryPoint)
      (a : CommandResult × State)
      → close_tie K loaded s run request current tie previous ≡ ok a
      → Keeps a
  unfolding close_tie
  close_tie-Keeps current tie previous a h =
      let own = run.scenario_run_id in
      let (s1, e1, h1) = >>=-eq-ok (update_run s.store _) _ h in
      let (u, e2, h2) = >>=-eq-ok (K.failure_hook "AFTER_PRIMARY_MUTATION") _ h1 in
      let (derived, e3, h3) = >>=-eq-ok (derive_after K loaded s.store run _ tie _) _ h2 in
      let (s2, e4, h4) = >>=-eq-ok (insert_derived_snapshots _ own _ derived.0 derived.1) _ h3 in
      written-Keeps s1 s2 _ _ a refl e1
        (insert_derived_snapshots-Kept own _ s2 own _ derived.0 derived.1 e4)
        (complete_accepted-Kept K loaded request own _ run _ _ _ _ a h4)
