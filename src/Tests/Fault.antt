-- ===== src/Tests/Fault.antt =====
-- The corrected network with a fault in SEC-A2 that is isolated, as test data.
use ot_engineering_demonstra.Base.{
  String, ◌==◌, ℕ, ◌*◌, ◌+◌, true, not, is_empty, some, List, [], ◌∷◌, map, contains, if◌then◌else◌,
  Result, ok, err, succeeds, ◌≡◌, refl, Dict,
}
use ot_engineering_demonstra.Domain.{SwitchState, radial, available, opened, good, fresh}
use ot_engineering_demonstra.Domain.Config.{SwitchingDevice}
use ot_engineering_demonstra.Telemetry.{TelemetryPoint}
use ot_engineering_demonstra.Topology.Graph.EdgeList.{edge_list}
use ot_engineering_demonstra.Topology.Models.{
  TopologyInputs, BoundaryObservation, SectionDerivedState, DerivedFeederLoad, IsolationProof,
  TopologyResult,
}
use ot_engineering_demonstra.Restoration.{Libraries}
use ot_engineering_demonstra.Tests.Network.{corrected}

-- What a computation that succeeds returns.
pub returned {ℓ} : {A : Type ℓ} (m : Result A) → succeeds m ≡ true → (a : A) × (m ≡ ok a)
returned (ok a) h = (a, refl)
returned (err e) h = cc

-- 2026-01-01T00:00:00 UTC, and a number of seconds after it
abbrev pub at_second : ℕ → ℕ
at_second s = 63902908800000000 + s * 1000000

abbrev pub libraries : Libraries
libraries = record {
  graph_library = edge_list;
  uuid5 = λ name. 7;
  sha256_points = λ points. "points";
  sha256_sources = λ sources. "sources";
}

-- The devices with the given ones open.
abbrev pub states_with : List String → Dict SwitchState
states_with open_ids =
    map
      (λ (d : SwitchingDevice).
        (d.entity_id, if contains open_ids d.entity_id then opened else d.normal_state))
      corrected.switching_devices

abbrev pub points_with : List String → ℕ → List TelemetryPoint
points_with open_ids time =
    map
      (λ s. record {
        point_id = s.0;
        entity_id = s.0;
        value = s.1;
        quality = good;
        last_update_scenario_time = time;
        revision = 0;
      })
      (states_with open_ids)

abbrev pub observations_with : List String → Dict BoundaryObservation
observations_with open_ids =
    map
      (λ s. (
        s.0,
        record {
          device_id = s.0;
          observed_state = some s.1;
          quality = some good;
          freshness_status = some fresh;
        },
      ))
      (states_with open_ids)

abbrev pub isolation_switches : List String
isolation_switches = "SW-A12" ∷ "SW-A23" ∷ []

-- The inputs with the switches around SEC-A2 open, and the fault there.
abbrev pub isolated_inputs : TopologyInputs
isolated_inputs = record {
  device_states = states_with isolation_switches;
  source_availability = ("ZS-01", available) ∷ [];
  faulted_section_ids = "SEC-A2" ∷ [];
  active_fault_section_id = some "SEC-A2";
  boundary_observations = observations_with isolation_switches;
}

-- The state that the topology service reports for these inputs, in part: SEC-A2 is off, and
-- SEC-A3 and SEC-A4 behind it.
abbrev state : String → List String → SectionDerivedState
state id feeders = record {
  section_id = id;
  energised = not (is_empty feeders);
  faulted = id == "SEC-A2";
  source_feeder_ids = feeders;
  source_paths = [];
}

abbrev load : String → ℕ → List String → DerivedFeederLoad
load id kw sections = record {
  feeder_id = id;
  configured_normal_load_kw = kw;
  currently_supplied_load_kw = some kw;
  supplied_section_ids = sections;
  multiply_supplied_section_ids = [];
  load_attribution_complete = true;
}

abbrev isolated_proof : IsolationProof
isolated_proof = record {
  fault_section_id = "SEC-A2";
  incident_boundary_device_ids = isolation_switches;
  boundary_evaluations = [];
  evaluated_source_feeder_ids = "FDR-A" ∷ "FDR-B" ∷ [];
  active_source_paths = [];
  all_boundaries_proven_open = true;
  zero_active_source_paths = true;
  isolated = true;
  reason_codes = "FAULT_ISOLATED" ∷ [];
}

abbrev pub isolated_topology : TopologyResult
isolated_topology = record {
  configuration_id = "network-configuration-v1.1";
  configured_edge_ids = [];
  active_edge_ids = [];
  available_source_ids = "ZS-01" ∷ [];
  available_source_feeder_ids = "FDR-A" ∷ "FDR-B" ∷ [];
  active_source_feeder_ids = "FDR-A" ∷ "FDR-B" ∷ [];
  radiality_status = radial;
  unintended_loop_component_section_ids = [];
  sections =
      state "SEC-A1" ("FDR-A" ∷ [])
      ∷ state "SEC-A2" []
      ∷ state "SEC-A3" []
      ∷ state "SEC-A4" []
      ∷ state "SEC-B1" ("FDR-B" ∷ [])
      ∷ state "SEC-B2" ("FDR-B" ∷ [])
      ∷ state "SEC-B3" ("FDR-B" ∷ [])
      ∷ state "SEC-B4" ("FDR-B" ∷ [])
      ∷ [];
  feeder_loads = load "FDR-A" 750 ("SEC-A1" ∷ []) ∷ load "FDR-B" 4200 ("SEC-B1" ∷ []) ∷ [];
  isolation_proof = some isolated_proof;
}
