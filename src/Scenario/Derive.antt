-- ===== src/Scenario/Derive.antt =====
-- application/scenario_coordinator.py: `_derive` and what reads it: the gate topology, the
-- reclose check, and the projection and binding of an assessment.
use ot_engineering_demonstra.Base.{
  String, ◌==◌, ℕ, suc, Bool, true, false, not, ◌&&◌, Option, none, some, List, [], ◌∷◌, map,
  filter, find, subset, Dict, lookup, insert, dict_of, by_id, nat_eq, if◌then◌else◌, Result, ok,
  ◌>>=◌, or_raise, map_m, stop_iteration,
}
use ot_engineering_demonstra.Base.Sort.{sort_on}
use ot_engineering_demonstra.Domain.{
  SwitchState, closed, is_closed, good, RestorationOutcome, permitted,
}
use ot_engineering_demonstra.Domain.Config.{LoadedConfiguration, Feeder}
use ot_engineering_demonstra.Telemetry.{TelemetryPoint, TelemetryValidity, classify}
use ot_engineering_demonstra.Topology.Models.{TopologyInputs, TopologyResult, BoundaryObservation}
use ot_engineering_demonstra.Topology.Calculate as Topology
use ot_engineering_demonstra.Outage.{OutageResult}
use ot_engineering_demonstra.Outage as Outage
use ot_engineering_demonstra.Restoration.{Libraries, RestorationAssessment}
use ot_engineering_demonstra.Restoration.Candidate.{item}
use ot_engineering_demonstra.Restoration.Assess.{assess}
use ot_engineering_demonstra.Restoration.Permissives.{proof_isolated}
use ot_engineering_demonstra.Scenario.{RunContext}

abbrev observation : Dict TelemetryValidity → TelemetryPoint → Result (String × BoundaryObservation)
observation validities p = do
  v ← item p.point_id validities
  ok (
    p.entity_id,
    record {
      device_id = p.entity_id;
      observed_state = some p.value;
      quality = some p.quality;
      freshness_status = some v.freshness;
    },
  )

abbrev pub classified : RunContext → List TelemetryPoint → List TelemetryValidity
classified run telemetry =
    map (λ p. classify p run.scenario_time) (sort_on (λ p. p.point_id) telemetry)

-- The inputs that `_derive` gives to the topology service.
unfoldable pub topology_inputs : RunContext → List TelemetryPoint → Result TopologyInputs
topology_inputs run telemetry = do
  observations ← map_m (observation (by_id (λ v. v.point_id) (classified run telemetry))) telemetry
  ok (record {
    device_states = dict_of (map (λ p. (p.entity_id, p.value)) telemetry);
    source_availability = run.source_availability;
    faulted_section_ids = if run.fault_active then run.fault_section_id ∷ [] else [];
    active_fault_section_id = if run.fault_active then some run.fault_section_id else none;
    boundary_observations = dict_of observations;
  })

-- The points with one of them replaced, `tuple(points.values())`.
abbrev pub values {ℓ} : {A : Type ℓ} → Dict A → List A
values d = map (λ e. e.1) d

abbrev pub telemetry_map : List TelemetryPoint → Dict TelemetryPoint
telemetry_map = by_id λ p. p.entity_id

-- `previous.model_copy(update={...})` of an operation
abbrev pub switched : TelemetryPoint → SwitchState → ℕ → ℕ → TelemetryPoint
switched p value time revision = record p {
  value = value;
  quality = good;
  last_update_scenario_time = time;
  revision = revision;
}

-- `_affected_feeder_and_breaker`
unfoldable pub affected_feeder : LoadedConfiguration → RunContext → Result Feeder
affected_feeder loaded run = do
  section ←
      or_raise (find (λ s. s.entity_id == run.fault_section_id) loaded.config.sections)
        stop_iteration
  or_raise (find (λ f. f.entity_id == section.feeder_id) loaded.config.feeders) stop_iteration

abbrev healthy_energised : TopologyResult → List String
healthy_energised t =
    map (λ s. s.section_id) (filter (λ s. s.energised && not s.faulted) t.sections)

abbrev pub is_permitted : RestorationOutcome → Bool
is_permitted permitted = true
is_permitted _ = false

module _ (L : Libraries) (loaded : LoadedConfiguration) where
  -- `_derive`; the validities are `classified run telemetry`.
  unfoldable pub derive :
      RunContext
      → List TelemetryPoint
      → Option OutageResult
      → Result (TopologyResult × OutageResult)
  derive run telemetry previous = do
    inputs ← topology_inputs run telemetry
    topology ← Topology.calculate L.graph_library loaded inputs
    outage ← Outage.calculate loaded topology previous
    ok (topology, outage)

  -- `_gate_topology`
  unfoldable pub gate_topology : RunContext → List TelemetryPoint → ℕ → Result TopologyResult
  gate_topology run telemetry time = do
    derived ← derive (record run { scenario_time = time }) telemetry none
    ok derived.0

  -- The comparison of the topologies before and after the breaker is closed.
  unfoldable pub reclose_restores :
      RunContext → Dict TelemetryPoint → String → TelemetryPoint → ℕ → Result Bool
  reclose_restores run points breaker_id breaker time = do
    current ← derive (record run { scenario_time = time }) (values points) none
    let closed_points =
        insert breaker_id (switched breaker closed time (suc run.state_revision)) points
    proposed ← derive (record run { scenario_time = time }) (values closed_points) none
    ok (
        proof_isolated proposed.0.isolation_proof
        && not (subset (healthy_energised proposed.0) (healthy_energised current.0)))

  -- `_normal_source_reclose_available`
  unfoldable pub normal_source_reclose_available :
      RunContext → List TelemetryPoint → ℕ → Result Bool
  normal_source_reclose_available run telemetry time = do
    feeder ← affected_feeder loaded run
    let points = telemetry_map telemetry
    elim (lookup feeder.source_breaker_id points) [
      | none ↦ ok false
      | some breaker ↦ elim (is_closed breaker.value) [
        | true ↦ ok false
        | false ↦ reclose_restores run points feeder.source_breaker_id breaker time
      ]
    ]

  -- The assessment of the current evidence, under the given identity.
  unfoldable pub assess_now :
      RunContext → List TelemetryPoint → ℕ → ℕ → ℕ → Result RestorationAssessment
  assess_now run telemetry assessment_id sequence time = do
    let now = record run { scenario_time = time }
    derived ← derive now telemetry none
    assess L loaded (record {
      assessment_id = assessment_id;
      assessment_sequence = sequence;
      scenario_run_id = run.scenario_run_id;
      state_revision = run.state_revision;
      scenario_time = time;
      fault_section_id = run.fault_section_id;
      telemetry = telemetry;
      telemetry_validity = classified now telemetry;
      source_availability = run.source_availability;
      current_topology = derived.0;
      current_outage = derived.1;
    })

-- `_assessment_binding_matches`
unfoldable pub assessment_binding_matches : RestorationAssessment → RestorationAssessment → Bool
assessment_binding_matches a p =
    nat_eq a.scenario_run_id p.scenario_run_id
    && a.configuration_id == p.configuration_id
    && nat_eq a.state_revision p.state_revision
    && a.telemetry_snapshot_sha256 == p.telemetry_snapshot_sha256
    && a.source_availability_sha256 == p.source_availability_sha256
    && elim a.candidate [
      | none ↦ false
      | some c ↦ elim p.candidate [ none ↦ false | some d ↦ nat_eq c.candidate_id d.candidate_id ]
    ]
    && is_permitted p.outcome
