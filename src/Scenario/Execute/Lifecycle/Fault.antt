-- ===== src/Scenario/Execute/Lifecycle/Fault.antt =====
-- The transitions of `_initiate_fault`, `_acknowledge_alarm` and `_operate_isolation_device`.
use ot_engineering_demonstra.Base.{
  String, Bool, true, false, not, ◌&&◌, Option, none, some, ok, >>=-eq-ok, if◌then◌else◌,
  Bool-cases, ◌⊎◌, inl, inr, and_true, branch-eq-ok, option-eq-ok, ◌≡◌, refl, sym, ap, ◌∙◌, arith,
}
use ot_engineering_demonstra.Domain.{
  NetworkStateLabel, SwitchState, opened, closed, is_closed, n0, n1, n2, initiate_fault,
  acknowledge_alarm, operate_isolation_device,
}
use ot_engineering_demonstra.Domain.Config.{LoadedConfiguration}
use ot_engineering_demonstra.Telemetry.{TelemetryPoint, AlarmRecord, is_acknowledged}
use ot_engineering_demonstra.Topology.Models.{TopologyResult}
use ot_engineering_demonstra.Restoration.Candidate.{item}
use ot_engineering_demonstra.Restoration.Permissives.{proof_isolated}
use ot_engineering_demonstra.Scenario.{
  RunContext, ScenarioCommandRequest, CommandResult, is_n0, is_exploration,
}
use ot_engineering_demonstra.Scenario.Store.{
  put_telemetry, update_run, insert_alarm, update_alarm, insert_derived_snapshots,
}
use ot_engineering_demonstra.Scenario.Store.Runs.{insert_derived_snapshots-runs}
use ot_engineering_demonstra.Scenario.Store.Found.{
  same_runs-found, update_run-found, insert_alarm-runs,
}
use ot_engineering_demonstra.Scenario.Derive.{gate_topology, affected_feeder}
use ot_engineering_demonstra.Scenario.Gates.{next_isolation_target}
use ot_engineering_demonstra.Scenario.Gates.Isolation.{
  next_isolation_target-IsNext, exploration_isolation_action_gate-closed,
}
use ot_engineering_demonstra.Scenario.Actions.{isolation_gate, is_target}
use ot_engineering_demonstra.Scenario.Snapshot.{Coordinator, State}
use ot_engineering_demonstra.Scenario.Operations.{
  derive_after, initiate_fault_at, initiate_fault_command, requested_alarm, acknowledge,
  acknowledge_alarm_command, operate_at, open_target, requested_open,
  operate_isolation_device_command,
}
use ot_engineering_demonstra.Scenario.Execute.Lifecycle.{
  faulted, noticed, operated, Answered, reject-Answered, complete_accepted-Answered,
}

is_n0-n0 : (l : NetworkStateLabel) → is_n0 l ≡ true → l ≡ n0
is_n0-n0 l h = ground arith

not-false : (b : Bool) → not b ≡ true → b ≡ false
not-false b h = ground arith

isolated_label : (b : Bool) → ((if b then n2 else n1) ≡ n1) ⊎ ((if b then n2 else n1) ≡ n2)
isolated_label true = inr refl
isolated_label false = inl refl

is_target-some :
    (o : Option String) (t : String) → is_target o t ≡ true → (u : String) × (o ≡ some u)
is_target-some none t h = cc
is_target-some (some u) t h = (u, refl)

requested_open-available :
    (state : Option SwitchState) (target : Option String) (available : String → Bool) (t : String)
    → requested_open state target available ≡ some t
    → available t ≡ true
requested_open-available (some opened) (some u) available t h = elim (Bool-cases (available u)) [
  | inl y ↦ let h1 = rw y at h in ap available (sym (some-eq h1)) ∙ y
  | inr n ↦ let h1 = rw n at h in cc
]
  where
    some-eq : {a b : String} → some a ≡ some b → a ≡ b
    some-eq h = cc
requested_open-available (some opened) none available t h = cc
requested_open-available (some closed) target available t h = cc
requested_open-available none target available t h = cc

module _ (K : Coordinator) (loaded : LoadedConfiguration) (s : State) (run : RunContext)
    (request : ScenarioCommandRequest) where
  initiate_fault_at-Answered :
      (breaker_id : String) (previous : TelemetryPoint) (a : CommandResult × State)
      → run.network_state_label ≡ n0
      → run.fault_active ≡ false
      → initiate_fault_at K loaded s run request breaker_id previous ≡ ok a
      → Answered K loaded request initiate_fault run a
  unfolding initiate_fault_at put_telemetry
  initiate_fault_at-Answered breaker_id previous a l f h =
      let (s1, e1, h1) = >>=-eq-ok (update_run s.store _) _ h in
      let (s2, e2, h2) = >>=-eq-ok (insert_alarm _ _) _ h1 in
      let (u, e3, h3) = >>=-eq-ok (K.failure_hook "AFTER_PRIMARY_MUTATION") _ h2 in
      let (derived, e4, h4) = >>=-eq-ok (derive_after K loaded s.store run _ breaker_id _) _ h3 in
      let (s3, e5, h5) =
        >>=-eq-ok (insert_derived_snapshots s2 run.scenario_run_id _ derived.0 derived.1) _ h4 in
      complete_accepted-Answered K loaded request _ run _ initiate_fault _ _ _ a
        (faulted l f refl refl refl)
        (same_runs-found s1 s3 _ _
          (insert_derived_snapshots-runs s2 s3 _ _ _ _ e5 ∙ insert_alarm-runs _ s2 _ e2)
          (update_run-found s.store s1 _ e1))
        refl h5

  pub initiate_fault_command-Answered :
      (a : CommandResult × State)
      → initiate_fault_command K loaded s run request ≡ ok a
      → Answered K loaded request initiate_fault run a
  unfolding initiate_fault_command
  initiate_fault_command-Answered a h =
      elim (branch-eq-ok (is_n0 run.network_state_label && not run.fault_active) _ _ h) [
        | inr (f, r) ↦ reject-Answered K loaded request s run run initiate_fault _ _ a r
        | inl (t, r) ↦
            let (l, f) = and_true (is_n0 run.network_state_label) (not run.fault_active) t in
            let (feeder, e1, h1) = >>=-eq-ok (affected_feeder loaded run) _ r in
            let (previous, e2, h2) = >>=-eq-ok (item feeder.source_breaker_id _) _ h1 in
            elim (branch-eq-ok (is_closed previous.value) _ _ h2) [
              | inr (o, r2) ↦ reject-Answered K loaded request s run run initiate_fault _ _ a r2
              | inl (c, r2) ↦
                  initiate_fault_at-Answered feeder.source_breaker_id previous a
                    (is_n0-n0 run.network_state_label l) (not-false run.fault_active f) r2
            ]
      ]

  acknowledge-Answered :
      (alarm : AlarmRecord) (a : CommandResult × State)
      → acknowledge K loaded s run request alarm ≡ ok a
      → Answered K loaded request acknowledge_alarm run a
  unfolding acknowledge
  acknowledge-Answered alarm a h =
      let (s1, e1, h1) = >>=-eq-ok (update_alarm s.store _) _ h in
      let (s2, e2, h2) = >>=-eq-ok (update_run s1 _) _ h1 in
      let (u, e3, h3) = >>=-eq-ok (K.failure_hook "AFTER_PRIMARY_MUTATION") _ h2 in
      complete_accepted-Answered K loaded request _ run _ acknowledge_alarm _ _ _ a
        (noticed refl refl) (update_run-found s1 s2 _ e2) refl h3

  pub acknowledge_alarm_command-Answered :
      (a : CommandResult × State)
      → acknowledge_alarm_command K loaded s run request ≡ ok a
      → Answered K loaded request acknowledge_alarm run a
  unfolding acknowledge_alarm_command
  acknowledge_alarm_command-Answered a h =
      elim (option-eq-ok (requested_alarm K loaded s run request.alarm_id) _ _ h) [
        | inr r ↦ reject-Answered K loaded request s run run acknowledge_alarm _ _ a r
        | inl (alarm, e, h1) ↦
            elim (branch-eq-ok (alarm.active && not (is_acknowledged alarm.acknowledgement_state)) _
              _ h1) [
                | inr (f, r) ↦ reject-Answered K loaded request s run run acknowledge_alarm _ _ a r
                | inl (t, r) ↦ acknowledge-Answered alarm a r
              ]
      ]

  operate_at-Answered :
      (target : String) (a : CommandResult × State)
      → run.network_state_label ≡ n1
      → operate_at K loaded s run request target ≡ ok a
      → Answered K loaded request operate_isolation_device run a
  unfolding operate_at
  operate_at-Answered target a l h =
      let (previous, e1, h1) = >>=-eq-ok (item target _) _ h in
      let (u, e2, h2) = >>=-eq-ok (K.failure_hook "AFTER_PRIMARY_MUTATION") _ h1 in
      let (derived, e3, h3) = >>=-eq-ok (derive_after K loaded s.store run _ target _) _ h2 in
      let (s1, e4, h4) = >>=-eq-ok (update_run _ _) _ h3 in
      let (s2, e5, h5) =
        >>=-eq-ok (insert_derived_snapshots s1 run.scenario_run_id _ derived.0 derived.1) _ h4 in
      complete_accepted-Answered K loaded request _ run _ operate_isolation_device _ _ _ a
        (operated l (isolated_label (proof_isolated derived.0.isolation_proof)) refl)
        (same_runs-found s1 s2 _ _ (insert_derived_snapshots-runs s1 s2 _ _ _ _ e5)
          (update_run-found _ s1 _ e4))
        refl h5

  isolation_gate-n1 :
      (topology : TopologyResult) (target : String)
      → isolation_gate K.definition run topology target ≡ true
      → run.network_state_label ≡ n1
  unfolding isolation_gate
  isolation_gate-n1 topology target h = elim (Bool-cases (is_exploration run.mode)) [
    | inl e ↦ (exploration_isolation_action_gate-closed run topology target (rw e at h)).0
    | inr f ↦
        let (u, e) =
          is_target-some (next_isolation_target K.definition run topology) target (rw f at h) in
        (next_isolation_target-IsNext K.definition run topology u e).0
  ]

  open_target-gate :
      (topology : TopologyResult) (target : String)
      → open_target K loaded run topology request ≡ some target
      → run.network_state_label ≡ n1
  open_target-gate topology target h = isolation_gate-n1 topology target (
      requested_open-available request.requested_state request.target_entity_id
        (isolation_gate K.definition run topology) target h)

  pub operate_isolation_device_command-Answered :
      (a : CommandResult × State)
      → operate_isolation_device_command K loaded s run request ≡ ok a
      → Answered K loaded request operate_isolation_device run a
  unfolding operate_isolation_device_command
  operate_isolation_device_command-Answered a h =
      let (topology, e1, h1) =
        >>=-eq-ok (gate_topology K.libraries loaded run _ request.scenario_time) _ h in
      elim (option-eq-ok (open_target K loaded run topology request) _ _ h1) [
        | inr r ↦ reject-Answered K loaded request s run run operate_isolation_device _ _ a r
        | inl (target, e, r) ↦ operate_at-Answered target a (open_target-gate topology target e) r
      ]
