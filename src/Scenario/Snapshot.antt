-- ===== src/Scenario/Snapshot.antt =====
-- application/scenario_coordinator.py: `_assemble_snapshot`, `_reject` and `_complete_accepted`.
use ot_engineering_demonstra.Base.{
  String, ℕ, ◌+◌, Bool, true, false, not, ◌&&◌, Option, none, some, List, [], map, any, length,
  get_last?, is_some, nat_eq, Result, ok, ◌>>=◌, ◌>>◌,
}
use ot_engineering_demonstra.Domain.Config.{LoadedConfiguration}
use ot_engineering_demonstra.Telemetry.{TelemetryPoint, classify}
use ot_engineering_demonstra.Restoration.{Libraries, RestorationAssessment, AssessmentInvalidation}
use ot_engineering_demonstra.Scenario.{
  RunContext, ScenarioCommandRequest, InitialiseRunRequest, ScenarioSnapshot, CommandResult,
  FormalScenarioDefinition, EventSpec,
}
use ot_engineering_demonstra.Scenario.Store.{
  Store, list_telemetry, list_alarms, list_events, list_assessments, list_assessment_invalidations,
  get_outage_snapshot, insert_command_result, insert_events,
}
use ot_engineering_demonstra.Scenario.Events.{events_from_specs}
use ot_engineering_demonstra.Scenario.Derive.{
  derive, assess_now, assessment_binding_matches, is_permitted,
}
use ot_engineering_demonstra.Scenario.Actions.{allowed_actions}

-- What the coordinator is constructed with: the libraries, the loader of configurations by
-- version, the identity of the build, the failure hook by stage, the numbers that `uuid4` yields,
-- and the digests of requests and results.
pub record Coordinator : Type 1 where
  pub libraries : Libraries
  pub definition : FormalScenarioDefinition
  pub load : String → Result LoadedConfiguration
  pub application_build_id : String
  pub failure_hook : String → Result (Unit {0})
  pub uuids : ℕ → ℕ
  pub request_sha : ScenarioCommandRequest → String
  pub initialise_sha : InitialiseRunRequest → String
  pub result_sha : CommandResult → String

-- What `_return_duplicate` notes of a replay, under the run that keys it.
pub record ReplayComparison : Type 0 where
  pub scenario_run_id : ℕ
  pub command_id : ℕ
  pub request_sha256 : String
  pub stored_result_sha256 : String
  pub replayed_result_sha256 : String
  pub same_result : Bool
  pub new_event_count : ℕ
  pub new_invalidation_count : ℕ

-- The tables, how many UUIDs have been drawn, and `_replay_comparisons`, which no transaction
-- holds: the comparisons of all runs in the order in which they were made.
pub record State : Type 0 where
  pub store : Store
  pub drawn : ℕ
  pub replay_comparisons : List ReplayComparison

unfoldable pub is_invalidated : List AssessmentInvalidation → RestorationAssessment → Bool
is_invalidated invalidations a = any (λ i. nat_eq i.assessment_id a.assessment_id) invalidations

abbrev current_invalidated : List AssessmentInvalidation → Option RestorationAssessment → Bool
current_invalidated invalidations none = false
current_invalidated invalidations (some a) = is_invalidated invalidations a

module _ (K : Coordinator) (loaded : LoadedConfiguration) where
  -- `current_executable`; the identity of the projection is drawn and dropped, so the numbers
  -- drawn are not counted on.
  unfoldable pub current_executable :
      State
      → RunContext
      → List TelemetryPoint
      → List AssessmentInvalidation
      → Option RestorationAssessment
      → Result Bool
  current_executable s run telemetry invalidations none = ok false
  current_executable s run telemetry invalidations (some current) =
      elim (is_permitted current.outcome
        && is_some current.candidate
        && not (is_invalidated invalidations current)) [
          | false ↦ ok false
          | true ↦ (do
            projection ←
                assess_now K.libraries loaded run telemetry (K.uuids s.drawn) 1 run.scenario_time
            ok (assessment_binding_matches current projection))
        ]

  unfoldable pub assemble_snapshot : State → RunContext → Result ScenarioSnapshot
  assemble_snapshot s run = do
    let telemetry = list_telemetry s.store run.scenario_run_id
    derived ← derive K.libraries loaded run telemetry none
    outage ← get_outage_snapshot s.store run.scenario_run_id run.state_revision
    let alarms = list_alarms s.store run.scenario_run_id
    let assessments = list_assessments s.store run.scenario_run_id
    let invalidations = list_assessment_invalidations s.store run.scenario_run_id
    let current = get_last? assessments
    executable ← current_executable s run telemetry invalidations current
    actions ←
        allowed_actions K.libraries loaded K.definition run derived.0 telemetry alarms current
          executable (current_invalidated invalidations current)
    ok (record {
      run = run;
      telemetry = telemetry;
      telemetry_validity = map (λ p. classify p run.scenario_time) telemetry;
      alarms = alarms;
      topology = derived.0;
      outage = outage;
      events = list_events s.store run.scenario_run_id;
      restoration_assessments = assessments;
      restoration_invalidations = invalidations;
      allowed_actions = actions;
    })

  -- The result is stored under the given run, and returned.
  unfoldable pub record_result :
      State → ℕ → ScenarioCommandRequest → CommandResult → Result (CommandResult × State)
  record_result s run_id request result = do
    store ← insert_command_result s.store (record {
      command_id = request.command_id;
      scenario_run_id = run_id;
      request_sha256 = K.request_sha request;
      result = result;
    })
    ok (result, record s { store = store })

  -- `_reject`
  unfoldable pub reject :
      State → RunContext → ScenarioCommandRequest → String → List ℕ → Result (CommandResult × State)
  reject s run request reason_code new_event_ids = do
    snapshot ← assemble_snapshot s run
    record_result s run.scenario_run_id request (record {
      command_id = request.command_id;
      accepted = false;
      reason_code = reason_code;
      prior_revision = run.state_revision;
      current_revision = run.state_revision;
      run_status = run.status;
      new_event_ids = new_event_ids;
      new_assessment_ids = [];
      snapshot = snapshot;
    })

  -- `_complete_accepted`
  unfoldable pub complete_accepted :
      State
      → RunContext
      → RunContext
      → ScenarioCommandRequest
      → String
      → List EventSpec
      → List ℕ
      → Result (CommandResult × State)
  complete_accepted s prior_run updated_run request reason_code specs new_assessment_ids = do
    let events =
        events_from_specs K.uuids s.store updated_run request.command_id request.actor s.drawn specs
    store ← insert_events s.store events
    let t : State = record s { store = store; drawn = s.drawn + length specs }
    K.failure_hook "BEFORE_COMMIT"
    snapshot ← assemble_snapshot t updated_run
    record_result t prior_run.scenario_run_id request (record {
      command_id = request.command_id;
      accepted = true;
      reason_code = reason_code;
      prior_revision = prior_run.state_revision;
      current_revision = updated_run.state_revision;
      run_status = updated_run.status;
      new_event_ids = map (λ e. e.event_id) events;
      new_assessment_ids = new_assessment_ids;
      snapshot = snapshot;
    })
