-- ===== src/Scenario/Restoring.antt =====
-- application/scenario_coordinator.py: `_restore_normal_source`, `_assess_restoration` and
-- `_execute_restoration`.
use ot_engineering_demonstra.Base.{
  List, ℕ, String, ◌==◌, ◌<>◌, suc, ◌+◌, Bool, true, false, not, ◌&&◌, ◌||◌, Option, none, some, [],
  ◌∷◌, ◌++◌, map, get_last?, nat_eq, is_some, if◌then◌else◌, Result, ◌>>=◌, ◌>>◌,
}
use ot_engineering_demonstra.Domain.{
  closed, is_closed, active, run_complete, upstream_restored, restoration_assessed,
  restoration_executed, n3, n4, n5, operator, adms_restoration, switching_action,
  restoration_candidate_identified, restoration_no_candidate, restoration_assessed_event,
  restoration_assessment_invalidated, RestorationOutcome, no_candidate, blocked, rejected,
  permitted,
}
use ot_engineering_demonstra.Domain.Config.{LoadedConfiguration}
use ot_engineering_demonstra.Telemetry.{TelemetryPoint}
use ot_engineering_demonstra.Restoration.{
  RestorationAssessment, RestorationCandidate, AssessmentInvalidation,
}
use ot_engineering_demonstra.Restoration.Candidate.{item}
use ot_engineering_demonstra.Restoration.Permissives.{proof_isolated}
use ot_engineering_demonstra.Scenario.{
  RunContext, ScenarioCommandRequest, CommandResult, EventSpec, is_n2, is_n3, is_n4,
}
use ot_engineering_demonstra.Scenario.Store.{
  update_run, put_telemetry, insert_derived_snapshots, list_telemetry, list_assessments,
  list_assessment_invalidations, next_assessment_sequence, insert_assessment, insert_events,
  insert_assessment_invalidation,
}
use ot_engineering_demonstra.Scenario.Events.{events_from_specs, derived_event_specs}
use ot_engineering_demonstra.Scenario.Derive.{
  gate_topology, affected_feeder, telemetry_map, switched, assess_now, assessment_binding_matches,
  is_permitted,
}
use ot_engineering_demonstra.Scenario.Actions.{restore_gate, isolated_without_reclose}
use ot_engineering_demonstra.Scenario.Snapshot.{
  Coordinator, State, reject, complete_accepted, is_invalidated,
}
use ot_engineering_demonstra.Scenario.Operations.{derive_after, spec, change_spec, operation_specs}

abbrev pub outcome_value : RestorationOutcome → String
outcome_value no_candidate = "NO_CANDIDATE"
outcome_value blocked = "BLOCKED"
outcome_value rejected = "REJECTED"
outcome_value permitted = "PERMITTED"

abbrev pub tie_of : RestorationAssessment → Option String
tie_of a = elim a.candidate [ none ↦ none | some c ↦ some c.tie_device_id ]

-- The event of an invalidation.
abbrev pub invalidation_spec : RestorationAssessment → EventSpec
invalidation_spec a = record (spec adms_restoration restoration_assessment_invalidated (tie_of a)) {
  previous_value = some (outcome_value a.outcome);
  new_value = some "INVALIDATED";
  assessment_id = some a.assessment_id;
}

abbrev pub requests_close : ScenarioCommandRequest → String → Bool
requests_close request breaker_id =
    elim request.target_entity_id [ none ↦ false | some t ↦ t == breaker_id ]
    && elim request.requested_state [ none ↦ false | some s ↦ is_closed s ]

-- `assessments and assessments[-1].assessment_id in invalidated_ids`
unfoldable pub reassessment_allowed : State → RunContext → Bool
reassessment_allowed s run = elim (get_last? (list_assessments s.store run.scenario_run_id)) [
  | none ↦ false
  | some a ↦ is_invalidated (list_assessment_invalidations s.store run.scenario_run_id) a
]

-- What `_execute_restoration` asks of the current assessment, but for its candidate.
abbrev pub may_execute :
    List AssessmentInvalidation → RunContext → Option ℕ → RestorationAssessment → Bool
may_execute invalidations run requested a =
    elim requested [ none ↦ false | some id ↦ nat_eq id a.assessment_id ]
    && not (is_invalidated invalidations a)
    && is_permitted a.outcome
    && is_n4 run.network_state_label

abbrev pub with_candidate :
    Bool
    → RestorationAssessment
    → Option RestorationCandidate
    → Option (RestorationAssessment × RestorationCandidate)
with_candidate true a (some c) = some (a, c)
with_candidate false a (some c) = none
with_candidate may a none = none

abbrev pub executable_of :
    List AssessmentInvalidation
    → RunContext
    → Option ℕ
    → Option RestorationAssessment
    → Option (RestorationAssessment × RestorationCandidate)
executable_of invalidations run requested none = none
executable_of invalidations run requested (some a) =
    with_candidate (may_execute invalidations run requested a) a a.candidate

-- The current assessment, where it may be executed.
unfoldable pub executable_assessment :
    State
    → RunContext
    → ScenarioCommandRequest
    → Option (RestorationAssessment × RestorationCandidate)
executable_assessment s run request =
    executable_of (list_assessment_invalidations s.store run.scenario_run_id) run
      request.assessment_id (get_last? (list_assessments s.store run.scenario_run_id))

module _ (K : Coordinator) (loaded : LoadedConfiguration) where
  unfoldable pub restore_at :
      State
      → RunContext
      → ScenarioCommandRequest
      → String
      → TelemetryPoint
      → Result (CommandResult × State)
  restore_at s run request breaker_id previous = do
    let next_revision = suc run.state_revision
    let changed = switched previous closed request.scenario_time next_revision
    let updated : RunContext = record run {
      scenario_time = request.scenario_time;
      state_revision = next_revision;
      workflow_stage = upstream_restored;
      network_state_label = n3;
      status = active;
    }
    s1 ← update_run s.store updated
    K.failure_hook "AFTER_PRIMARY_MUTATION"
    derived ← derive_after K loaded s.store run updated breaker_id changed
    s2 ←
        insert_derived_snapshots (put_telemetry s1 run.scenario_run_id changed) run.scenario_run_id
          next_revision derived.0 derived.1
    complete_accepted K loaded (record s { store = s2 }) run updated request
        "NORMAL_SOURCE_RESTORED"
        (change_spec operator switching_action previous changed breaker_id none
            ∷ operation_specs previous changed breaker_id none
          ++ derived_event_specs none)
        []

  -- `_restore_normal_source`
  unfoldable pub restore_normal_source_command :
      State → RunContext → ScenarioCommandRequest → Result (CommandResult × State)
  restore_normal_source_command s run request = do
    let telemetry = list_telemetry s.store run.scenario_run_id
    topology ← gate_topology K.libraries loaded run telemetry request.scenario_time
    feeder ← affected_feeder loaded run
    available ←
        restore_gate K.libraries loaded run
          (is_n2 run.network_state_label
            && proof_isolated topology.isolation_proof
            && requests_close request feeder.source_breaker_id)
          telemetry request.scenario_time
    elim available [
      | false ↦ reject K loaded s run request "NORMAL_SOURCE_RESTORE_UNAVAILABLE" []
      | true ↦ (do
        previous ← item feeder.source_breaker_id (telemetry_map telemetry)
        elim (is_closed previous.value) [
          | true ↦ reject K loaded s run request "NORMAL_SOURCE_BREAKER_NOT_OPEN" []
          | false ↦ restore_at s run request feeder.source_breaker_id previous
        ])
    ]

  unfoldable pub assess_at :
      State → RunContext → ScenarioCommandRequest → Result (CommandResult × State)
  assess_at s run request = do
    let updated : RunContext = record run {
      scenario_time = request.scenario_time;
      workflow_stage = restoration_assessed;
      network_state_label = n4;
    }
    assessment ←
        assess_now K.libraries loaded updated (list_telemetry s.store run.scenario_run_id)
          (K.uuids s.drawn) (next_assessment_sequence s.store run.scenario_run_id)
          request.scenario_time
    s1 ← update_run s.store updated
    s2 ← insert_assessment s1 assessment
    K.failure_hook "AFTER_PRIMARY_MUTATION"
    let found =
        if is_some assessment.candidate
        then restoration_candidate_identified
        else restoration_no_candidate
    complete_accepted K loaded (record s { store = s2; drawn = suc s.drawn }) run updated request
        ("RESTORATION_" <> outcome_value assessment.outcome)
        (record (spec adms_restoration found (tie_of assessment)) {
          assessment_id = some assessment.assessment_id;
        }
          ∷ record (spec adms_restoration restoration_assessed_event (tie_of assessment)) {
            new_value = some (outcome_value assessment.outcome);
            assessment_id = some assessment.assessment_id;
          }
          ∷ [])
        (assessment.assessment_id ∷ [])

  -- `_assess_restoration`
  unfoldable pub assess_restoration_command :
      State → RunContext → ScenarioCommandRequest → Result (CommandResult × State)
  assess_restoration_command s run request = do
    let telemetry = list_telemetry s.store run.scenario_run_id
    topology ← gate_topology K.libraries loaded run telemetry request.scenario_time
    without_reclose ←
        isolated_without_reclose K.libraries loaded run topology.isolation_proof telemetry
          request.scenario_time
    elim (is_n3 run.network_state_label
        || without_reclose
        || is_n4 run.network_state_label && reassessment_allowed s run) [
          | false ↦ reject K loaded s run request "RESTORATION_ASSESSMENT_UNAVAILABLE" []
          | true ↦ assess_at s run request
        ]

  -- The branch for an assessment whose binding no longer matches.
  unfoldable pub invalidate :
      State
      → RunContext
      → ScenarioCommandRequest
      → RestorationAssessment
      → Result (CommandResult × State)
  invalidate s run request current = do
    let updated : RunContext = record run { scenario_time = request.scenario_time }
    s1 ← update_run s.store updated
    let events =
        events_from_specs K.uuids s1 updated request.command_id request.actor s.drawn
          (invalidation_spec current ∷ [])
    s2 ← insert_events s1 events
    s3 ← insert_assessment_invalidation s2 (record {
      invalidation_id = K.uuids (suc s.drawn);
      assessment_id = current.assessment_id;
      scenario_run_id = run.scenario_run_id;
      superseding_state_revision = run.state_revision;
      superseding_scenario_time = request.scenario_time;
      reason_code = "BOUND_EVIDENCE_NO_LONGER_CURRENT";
      event_id = K.uuids s.drawn;
    })
    K.failure_hook "AFTER_PRIMARY_MUTATION"
    reject K loaded (record s { store = s3; drawn = s.drawn + 2 }) updated request
        "RESTORATION_ASSESSMENT_INVALIDATED" (map (λ e. e.event_id) events)

  unfoldable pub close_tie :
      State
      → RunContext
      → ScenarioCommandRequest
      → RestorationAssessment
      → String
      → TelemetryPoint
      → Result (CommandResult × State)
  close_tie s run request current tie previous = do
    let next_revision = suc run.state_revision
    let changed = switched previous closed request.scenario_time next_revision
    let bound = some current.assessment_id
    let updated : RunContext = record run {
      scenario_time = request.scenario_time;
      state_revision = next_revision;
      workflow_stage = restoration_executed;
      network_state_label = n5;
      status = run_complete;
    }
    s1 ← update_run s.store updated
    K.failure_hook "AFTER_PRIMARY_MUTATION"
    derived ← derive_after K loaded s.store run updated tie changed
    s2 ←
        insert_derived_snapshots (put_telemetry s1 run.scenario_run_id changed) run.scenario_run_id
          next_revision derived.0 derived.1
    complete_accepted K loaded (record s { store = s2 }) run updated request "RESTORATION_EXECUTED"
        (change_spec operator switching_action previous changed tie bound
            ∷ operation_specs previous changed tie bound
          ++ derived_event_specs bound)
        []

  unfoldable pub execute_bound :
      State
      → RunContext
      → ScenarioCommandRequest
      → RestorationAssessment
      → RestorationCandidate
      → Result (CommandResult × State)
  execute_bound s run request current candidate = do
    let telemetry = list_telemetry s.store run.scenario_run_id
    projection ←
        assess_now K.libraries loaded run telemetry (K.uuids s.drawn) 1 request.scenario_time
    let t : State = record s { drawn = suc s.drawn }
    elim (assessment_binding_matches current projection) [
      | false ↦ invalidate t run request current
      | true ↦ (do
        previous ← item candidate.tie_device_id (telemetry_map telemetry)
        elim (is_closed previous.value) [
          | true ↦ reject K loaded t run request "RESTORATION_TIE_NOT_OPEN" []
          | false ↦ close_tie t run request current candidate.tie_device_id previous
        ])
    ]

  -- `_execute_restoration`
  unfoldable pub execute_restoration_command :
      State → RunContext → ScenarioCommandRequest → Result (CommandResult × State)
  execute_restoration_command s run request = elim (executable_assessment s run request) [
    | none ↦ reject K loaded s run request "RESTORATION_EXECUTION_UNAVAILABLE" []
    | some e ↦ execute_bound s run request e.0 e.1
  ]
