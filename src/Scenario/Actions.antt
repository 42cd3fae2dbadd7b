-- ===== src/Scenario/Actions.antt =====
-- application/scenario_coordinator.py: `_allowed_actions`.
use ot_engineering_demonstra.Base.{
  String, ◌==◌, ℕ, Bool, true, false, not, ◌&&◌, ◌||◌, Option, none, some, List, [], ◌∷◌, ◌++◌, map,
  filter, if◌then◌else◌, Result, ok, ◌>>=◌,
}
use ot_engineering_demonstra.Domain.{
  SwitchState, opened, closed, ScenarioCommandType, initiate_fault, acknowledge_alarm,
  operate_isolation_device, restore_normal_source, assess_restoration, execute_restoration,
  reset_run,
}
use ot_engineering_demonstra.Domain.Config.{LoadedConfiguration}
use ot_engineering_demonstra.Telemetry.{TelemetryPoint, AlarmRecord, is_acknowledged}
use ot_engineering_demonstra.Topology.Models.{TopologyResult, IsolationProof}
use ot_engineering_demonstra.Restoration.{Libraries, RestorationAssessment}
use ot_engineering_demonstra.Restoration.Permissives.{proof_isolated}
use ot_engineering_demonstra.Scenario.{
  RunContext, AllowedAction, FormalScenarioDefinition, is_closed_run, is_exploration, is_n0, is_n2,
  is_n3, is_n4,
}
use ot_engineering_demonstra.Scenario.Derive.{affected_feeder, normal_source_reclose_available}
use ot_engineering_demonstra.Scenario.Gates.{
  next_isolation_target, exploration_isolation_action_gate, ordered_isolation_boundaries,
}

abbrev untargeted : ScenarioCommandType → Bool → String → AllowedAction
untargeted type available code = record {
  command_type = type;
  target_entity_id = none;
  requested_state = none;
  alarm_id = none;
  assessment_id = none;
  available = available;
  reason_code = if available then "AVAILABLE" else code;
}

abbrev switching : ScenarioCommandType → String → SwitchState → Bool → String → AllowedAction
switching type target state available code = record (untargeted type available code) {
  target_entity_id = some target;
  requested_state = some state;
}

abbrev pub is_target : Option String → String → Bool
is_target none id = false
is_target (some t) id = t == id

-- `action_available`, but for the run being open
unfoldable pub isolation_gate :
    FormalScenarioDefinition → RunContext → TopologyResult → String → Bool
isolation_gate definition run topology id =
    if is_exploration run.mode
    then exploration_isolation_action_gate run topology (some id)
    else is_target (next_isolation_target definition run topology) id

unfoldable pub actual_boundaries :
    FormalScenarioDefinition → RunContext → Option IsolationProof → List String
actual_boundaries definition run none =
    if is_exploration run.mode then [] else definition.isolation_device_sequence
actual_boundaries definition run (some proof) =
    ordered_isolation_boundaries definition run proof.incident_boundary_device_ids

unfoldable pub unacknowledged_alarms : List AlarmRecord → List AlarmRecord
unacknowledged_alarms = filter λ a. a.active && not (is_acknowledged a.acknowledgement_state)

unfoldable pub alarm_actions : Bool → List AlarmRecord → List AllowedAction
alarm_actions open_run [] = untargeted acknowledge_alarm false "NO_ACTIVE_UNACKNOWLEDGED_ALARM" ∷ []
alarm_actions open_run (a ∷ as') =
    map
      (λ (x : AlarmRecord). record (untargeted acknowledge_alarm open_run "RUN_CLOSED") {
        alarm_id = some x.alarm_id;
      })
      (a ∷ as')

module _ (L : Libraries) (loaded : LoadedConfiguration) where
  -- `and (FORMAL or self._normal_source_reclose_available(...))`, which is asked in this order
  unfoldable pub restore_gate : RunContext → Bool → List TelemetryPoint → ℕ → Result Bool
  restore_gate run before telemetry time = elim (before && is_exploration run.mode) [
    | false ↦ ok before
    | true ↦ normal_source_reclose_available L loaded run telemetry time
  ]

  -- `exploration_isolated_without_reclose`
  unfoldable pub isolated_without_reclose :
      RunContext → Option IsolationProof → List TelemetryPoint → ℕ → Result Bool
  isolated_without_reclose run proof telemetry time =
      elim (is_exploration run.mode && is_n2 run.network_state_label && proof_isolated proof) [
        | false ↦ ok false
        | true ↦ (do
          available ← normal_source_reclose_available L loaded run telemetry time
          ok (not available))
      ]

  unfoldable pub allowed_actions :
      FormalScenarioDefinition
      → RunContext
      → TopologyResult
      → List TelemetryPoint
      → List AlarmRecord
      → Option RestorationAssessment
      → Bool
      → Bool
      → Result (List AllowedAction)
  allowed_actions definition run topology telemetry alarms current executable invalidated = do
    let open_run = not (is_closed_run run.status)
    let proof = topology.isolation_proof
    feeder ← affected_feeder loaded run
    restore ←
        restore_gate run (open_run && is_n2 run.network_state_label && proof_isolated proof)
          telemetry run.scenario_time
    without_reclose ← isolated_without_reclose run proof telemetry run.scenario_time
    let assess_available =
        open_run
        && (is_n3 run.network_state_label
            || without_reclose
            || is_n4 run.network_state_label && invalidated)
    ok (
        untargeted initiate_fault
            (open_run && is_n0 run.network_state_label && not run.fault_active)
            "REQUIRES_N0_NO_ACTIVE_FAULT"
          ∷ alarm_actions open_run (unacknowledged_alarms alarms)
        ++ map
            (λ id.
              switching operate_isolation_device id opened
                (open_run && isolation_gate definition run topology id)
                "ISOLATION_ACTION_UNAVAILABLE")
            (actual_boundaries definition run proof)
        ++ (switching restore_normal_source feeder.source_breaker_id closed restore
              "ISOLATION_NOT_PROVEN_AT_N2"
            ∷ untargeted assess_restoration assess_available
                "REQUIRES_POST_ISOLATION_ASSESSMENT_GATE"
            ∷ record (untargeted execute_restoration
                (open_run && is_n4 run.network_state_label && executable)
                "CURRENT_PERMITTED_ASSESSMENT_REQUIRED") {
                  assessment_id = elim current [ none ↦ none | some a ↦ some a.assessment_id ];
                }
            ∷ untargeted reset_run open_run "RUN_CLOSED"
            ∷ []))
