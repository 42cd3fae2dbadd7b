-- ===== src/Scenario/Initialise.antt =====
-- application/scenario_coordinator.py: `initialise`, `initialise_replacement_run` and
-- `initialise_next_run`.
pub mod Started
use ot_engineering_demonstra.Base.{
  String, ◌==◌, ℕ, suc, Bool, true, false, not, Option, none, some, List, [], ◌++◌, map, all,
  contains, Result, ok, err, guard, ◌>>=◌, ◌>>◌, or_raise, command_conflict, boundary_error,
}
use ot_engineering_demonstra.Domain.{ScenarioMode, formal, exploration}
use ot_engineering_demonstra.Domain.Config.{LoadedConfiguration}
use ot_engineering_demonstra.Scenario.{
  RunContext, InitialiseRunRequest, CommandResult, OperationalEvent,
}
use ot_engineering_demonstra.Scenario.Store.{
  Store, has_mutable_run, get_mutable_run, get_command_result, insert_command_result,
}
use ot_engineering_demonstra.Scenario.Snapshot.{Coordinator, State, assemble_snapshot}
use ot_engineering_demonstra.Scenario.Replay.{answered_or}
use ot_engineering_demonstra.Scenario.Execute.{new_run, close_run, start_run}

-- `request.fault_section_id is not None and request.fault_section_id != fixed`, negated
abbrev unset_or : Option String → String → Bool
unset_or none fixed = true
unset_or (some id) fixed = id == fixed

abbrev section_ids : LoadedConfiguration → List String
section_ids loaded = map (λ s. s.entity_id) loaded.config.sections

module _ (K : Coordinator) where
  unfoldable pub validate_definition : LoadedConfiguration → Result (Unit {0})
  validate_definition loaded = do
    guard (contains (section_ids loaded) K.definition.fault_section_id) boundary_error
    guard
        (all (contains (map (λ d. d.entity_id) loaded.config.switching_devices))
          K.definition.isolation_device_sequence)
        boundary_error

  unfoldable pub validate_initialisation :
      InitialiseRunRequest → LoadedConfiguration → Result String
  validate_initialisation request loaded = elim request.mode [
    | formal ↦ do
      guard (unset_or request.fault_section_id K.definition.fault_section_id) boundary_error
      validate_definition loaded
      ok K.definition.fault_section_id
    | exploration ↦ do
      guard (request.configuration_version == "1.1") boundary_error
      section ← or_raise request.fault_section_id boundary_error
      guard (contains (section_ids loaded) section) boundary_error
      ok section
  ]

  -- The run that a request for a new run asks for.
  abbrev pub requested_run : LoadedConfiguration → InitialiseRunRequest → ℕ → String → RunContext
  requested_run loaded request id fault =
      new_run id loaded request.scenario_time K.application_build_id request.mode fault

  -- The end of both bodies: the snapshot and the result, stored under a run.
  unfoldable pub record_initialised :
      State
      → LoadedConfiguration
      → RunContext
      → InitialiseRunRequest
      → ℕ
      → String
      → ℕ
      → List OperationalEvent
      → Result (CommandResult × State)
  record_initialised s loaded run request run_id reason_code prior_revision events = do
    K.failure_hook "BEFORE_COMMIT"
    snapshot ← assemble_snapshot K loaded s run
    let result : CommandResult = record {
      command_id = request.command_id;
      accepted = true;
      reason_code = reason_code;
      prior_revision = prior_revision;
      current_revision = 0;
      run_status = run.status;
      new_event_ids = map (λ e. e.event_id) events;
      new_assessment_ids = [];
      snapshot = snapshot;
    }
    store ← insert_command_result s.store (record {
      command_id = request.command_id;
      scenario_run_id = run_id;
      request_sha256 = K.initialise_sha request;
      result = result;
    })
    ok (result, record s { store = store })

  -- `initialise`, for a command that is not a duplicate
  unfoldable pub initialise_new : State → InitialiseRunRequest → Result (CommandResult × State)
  initialise_new s request = do
    guard (not (has_mutable_run s.store)) boundary_error
    loaded ← K.load request.configuration_version
    fault ← validate_initialisation request loaded
    let run = requested_run loaded request (K.uuids s.drawn) fault
    starting ←
        start_run K (record s { drawn = suc s.drawn }) loaded run request.command_id request.actor
    record_initialised starting.1 loaded run request run.scenario_run_id "RUN_INITIALISED" 0
        starting.0

  -- `initialise_replacement_run`, for a command that is not a duplicate
  unfoldable pub replace_new : State → InitialiseRunRequest → Result (CommandResult × State)
  replace_new s request = do
    prior ← or_raise (get_mutable_run s.store) boundary_error
    loaded ← K.load request.configuration_version
    fault ← validate_initialisation request loaded
    guard (prior.application_build_id == K.application_build_id) boundary_error
    closing ← close_run K s prior request.command_id request.actor prior.scenario_time
    let t = closing.1
    let run = requested_run loaded request (K.uuids t.drawn) fault
    starting ←
        start_run K (record t { drawn = suc t.drawn }) loaded run request.command_id request.actor
    record_initialised starting.1 loaded run request prior.scenario_run_id "LINKED_RUN_INITIALISED"
        prior.state_revision (closing.0 ++ starting.0)

  unfoldable pub initialise : State → InitialiseRunRequest → Result (CommandResult × State)
  initialise s request =
      answered_or K s request.command_id (K.initialise_sha request) (initialise_new s request)

  unfoldable pub initialise_replacement_run :
      State → InitialiseRunRequest → Result (CommandResult × State)
  initialise_replacement_run s request =
      answered_or K s request.command_id (K.initialise_sha request) (replace_new s request)

  unfoldable pub initialise_next_run : State → InitialiseRunRequest → Result (CommandResult × State)
  initialise_next_run s request = elim (has_mutable_run s.store) [
    | true ↦ initialise_replacement_run s request
    | false ↦ initialise s request
  ]
