-- ===== src/Topology/Boundary.antt =====
-- topology/service.py: `_evaluate_boundary` and `_derive_isolation_proof`.
use ot_engineering_demonstra.Base.{
  String, ◌==◌, ◌<>◌, Bool, true, false, not, ◌&&◌, ◌||◌, Option, none, some, List, [], ◌∷◌, ◌++◌,
  map, filter, find, all, contains, is_empty, Dict, lookup, if◌then◌else◌, Result, ok, ◌>>=◌,
  or_raise, map_m, stop_iteration,
}
use ot_engineering_demonstra.Base.Sort.{sort}
use ot_engineering_demonstra.Domain.{
  SwitchState, opened, closed, TelemetryQuality, FreshnessStatus, fresh, stale, invalid_timestamp,
  trustworthy_open, trustworthy_closed, untrustworthy_or_absent, proven_open, proven_closed,
  unproven, none_satisfied, open_required, evidence_required, is_good, is_fresh, is_proven_open,
}
use ot_engineering_demonstra.Domain.Config.{ConnectivityEdge, NetworkConfigurationData}
use ot_engineering_demonstra.Domain.Validate.{device_ids}
use ot_engineering_demonstra.Telemetry.{quality_value}
use ot_engineering_demonstra.Topology.Models.{
  BoundaryObservation, BoundaryEvaluation, IsolationProof, SourcePath,
}

abbrev pub freshness_value : FreshnessStatus → String
freshness_value fresh = "FRESH"
freshness_value stale = "STALE"
freshness_value invalid_timestamp = "INVALID_TIMESTAMP"

-- `observation.quality is GOOD and observation.freshness_status is FRESH`
abbrev pub trustworthy : BoundaryObservation → Bool
trustworthy o = holds is_good o.quality && holds is_fresh o.freshness_status
  where
    holds : {A : Type 0} → (A → Bool) → Option A → Bool
    holds p none = false
    holds p (some a) = p a

abbrev quality_reasons : Option TelemetryQuality → List String
quality_reasons none = "QUALITY_MISSING" ∷ []
quality_reasons (some q) = if is_good q then [] else ("QUALITY_" <> quality_value q) ∷ []

abbrev freshness_reasons : Option FreshnessStatus → List String
freshness_reasons none = "FRESHNESS_MISSING" ∷ []
freshness_reasons (some f) = if is_fresh f then [] else ("FRESHNESS_" <> freshness_value f) ∷ []

abbrev state_reasons : Option SwitchState → List String
state_reasons none = "OBSERVED_STATE_MISSING" ∷ []
state_reasons (some s) = []

-- The evaluation of evidence that is absent or not to be trusted.
abbrev untrusted : String → Option BoundaryObservation → BoundaryEvaluation
untrusted device_id none = record {
  boundary_device_id = device_id;
  observed_state = none;
  quality = none;
  freshness_status = none;
  evidence_condition = untrustworthy_or_absent;
  proof_status = unproven;
  operation_need = evidence_required;
  reason_codes = "OBSERVATION_MISSING" ∷ [];
}
untrusted device_id (some o) = record {
  boundary_device_id = device_id;
  observed_state = o.observed_state;
  quality = o.quality;
  freshness_status = o.freshness_status;
  evidence_condition = untrustworthy_or_absent;
  proof_status = unproven;
  operation_need = evidence_required;
  reason_codes =
      state_reasons o.observed_state
      ++ (quality_reasons o.quality ++ freshness_reasons o.freshness_status);
}

abbrev trusted : String → BoundaryObservation → Option SwitchState → BoundaryEvaluation
trusted device_id o (some opened) = record {
  boundary_device_id = device_id;
  observed_state = o.observed_state;
  quality = o.quality;
  freshness_status = o.freshness_status;
  evidence_condition = trustworthy_open;
  proof_status = proven_open;
  operation_need = none_satisfied;
  reason_codes = "TRUSTWORTHY_OPEN_SATISFIED" ∷ [];
}
trusted device_id o (some closed) = record {
  boundary_device_id = device_id;
  observed_state = o.observed_state;
  quality = o.quality;
  freshness_status = o.freshness_status;
  evidence_condition = trustworthy_closed;
  proof_status = proven_closed;
  operation_need = open_required;
  reason_codes = "TRUSTWORTHY_CLOSED_REQUIRES_OPEN" ∷ [];
}
trusted device_id o none = untrusted device_id (some o)

unfoldable pub evaluate_boundary : String → Option BoundaryObservation → BoundaryEvaluation
evaluate_boundary device_id none = untrusted device_id none
evaluate_boundary device_id (some o) =
    if trustworthy o then trusted device_id o o.observed_state else untrusted device_id (some o)

abbrev pub touches : ConnectivityEdge → String → Bool
touches e id = e.endpoint_a_id == id || e.endpoint_b_id == id

-- `next(endpoint for endpoint in (a, b) if endpoint in device_ids)`
unfoldable pub boundary_device : NetworkConfigurationData → ConnectivityEdge → Result String
boundary_device c e =
    or_raise (find (contains (device_ids c)) (e.endpoint_a_id ∷ e.endpoint_b_id ∷ []))
      stop_iteration

unfoldable pub incident_boundaries : NetworkConfigurationData → String → Result (List String)
incident_boundaries c fault_section_id = do
  devices ←
      map_m (boundary_device c) (filter (λ e. touches e fault_section_id) c.connectivity_edges)
  ok (sort devices)

abbrev when : Bool → String → List String
when true code = code ∷ []
when false code = []

-- The result of `_derive_isolation_proof` once the incident boundaries are known.
unfoldable pub isolation_of :
    String → List String → Dict BoundaryObservation → List SourcePath → List String → IsolationProof
isolation_of fault_section_id boundaries observations active_source_paths available_feeder_ids =
    let evaluations = map (λ id. evaluate_boundary id (lookup id observations)) boundaries in
    let all_open =
      not (is_empty evaluations) && all (λ e. is_proven_open e.proof_status) evaluations in
    let zero_paths = is_empty active_source_paths in
    record {
      fault_section_id = fault_section_id;
      incident_boundary_device_ids = boundaries;
      boundary_evaluations = evaluations;
      evaluated_source_feeder_ids = available_feeder_ids;
      active_source_paths = active_source_paths;
      all_boundaries_proven_open = all_open;
      zero_active_source_paths = zero_paths;
      isolated = all_open && zero_paths;
      reason_codes =
          when (not all_open) "INCIDENT_BOUNDARIES_NOT_ALL_PROVEN_OPEN"
          ++ (when (not zero_paths) "ACTIVE_SOURCE_PATH_REMAINS"
              ++ when (all_open && zero_paths) "FAULT_ISOLATED");
    }

unfoldable pub derive_isolation_proof :
    NetworkConfigurationData
    → String
    → Dict BoundaryObservation
    → List SourcePath
    → List String
    → Result IsolationProof
derive_isolation_proof c fault_section_id observations active_source_paths available_feeder_ids = do
  boundaries ← incident_boundaries c fault_section_id
  ok (
      isolation_of fault_section_id boundaries observations active_source_paths
        available_feeder_ids)
