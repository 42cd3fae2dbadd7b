-- ===== src/Restoration/Candidate.antt =====
-- restoration/service.py: `discover_candidate` and `_proposed_topology`.
pub mod Discovery
use ot_engineering_demonstra.Base.{
  String, ◌==◌, ◌<>◌, ℕ, Bool, false, not, ◌&&◌, Option, none, some, List, [], ◌∷◌, map, filter,
  find, length, contains, is_empty, dedup, sum_of, concat_map, nat_eq, Dict, lookup, insert,
  dict_of, by_id, if◌then◌else◌, Result, ok, ◌>>=◌, or_raise, map_m, filter_m, concat_m, sum_m,
  key_error, stop_iteration,
}
use ot_engineering_demonstra.Base.Sort.{sort, sort_on}
use ot_engineering_demonstra.Domain.{SwitchState, closed, available, is_tie}
use ot_engineering_demonstra.Domain.Config.{
  DistributionSection, SwitchingDevice, NetworkConfigurationData, LoadedConfiguration, Feeder,
}
use ot_engineering_demonstra.Topology.Models.{TopologyResult, SectionDerivedState, SourcePath}
use ot_engineering_demonstra.Topology.Calculate.{calculate}
use ot_engineering_demonstra.Topology.Boundary.{touches}
use ot_engineering_demonstra.Restoration.{
  Libraries, RestorationCandidate, RestorationAssessmentInputs,
}

-- `d[key]`
abbrev pub item {ℓ} : {A : Type ℓ} → String → Dict A → Result A
item k d = or_raise (lookup k d) key_error

abbrev pub section_by_id : NetworkConfigurationData → Dict DistributionSection
section_by_id c = by_id (λ s. s.entity_id) c.sections

abbrev pub state_by_id : TopologyResult → Dict SectionDerivedState
state_by_id t = by_id (λ s. s.section_id) t.sections

abbrev pub point_states : RestorationAssessmentInputs → Dict SwitchState
point_states i = dict_of (map (λ p. (p.entity_id, p.value)) i.telemetry)

-- The sections on the two sides of a tie.
unfoldable pub adjacent_sections : NetworkConfigurationData → String → Result (List String)
adjacent_sections c tie =
    map_m
      (λ e.
        or_raise (find (λ x. not (x == tie)) (e.endpoint_a_id ∷ e.endpoint_b_id ∷ []))
          stop_iteration)
      (filter (λ e. touches e tie) c.connectivity_edges)

unfoldable pub affected_sides :
    NetworkConfigurationData → String → List String → Result (List String)
affected_sides c feeder_id =
    filter_m λ s. do section ← item s (section_by_id c); ok (section.feeder_id == feeder_id)

-- A section that the tie would bring back: of the faulted feeder, not faulted, without supply
-- now, and fed by the alternate feeder in the proposed topology.
unfoldable pub restorable :
    String → String → TopologyResult → TopologyResult → String → DistributionSection → Result Bool
restorable feeder_id fault current proposed alternate section =
    if section.feeder_id == feeder_id && not (section.entity_id == fault)
    then (do
      now ← item section.entity_id (state_by_id current)
      if now.energised then ok false else (do
        later ← item section.entity_id (state_by_id proposed)
        ok (contains later.source_feeder_ids alternate)))
    else ok false

unfoldable pub alternate_paths : TopologyResult → String → String → Result (List SourcePath)
alternate_paths proposed alternate id = do
  state ← item id (state_by_id proposed)
  ok (filter (λ p. p.source_feeder_id == alternate) state.source_paths)

abbrev pub load_of : NetworkConfigurationData → String → Result ℕ
load_of c id = do section ← item id (section_by_id c); ok section.load_kw

abbrev joined : List String → String
joined [] = ""
joined (x ∷ []) = x
joined (x ∷ y ∷ r) = x <> "|" <> joined (y ∷ r)

module _ (L : Libraries) (loaded : LoadedConfiguration) (inputs : RestorationAssessmentInputs) where
  -- The topology with the tie closed and the alternate source and breaker in service.
  unfoldable pub structural_topology : SwitchingDevice → Feeder → Result TopologyResult
  structural_topology tie alternate = calculate L.graph_library loaded (record {
    device_states =
        insert alternate.source_breaker_id closed
          (insert tie.entity_id closed (point_states inputs));
    source_availability = insert alternate.source_id available inputs.source_availability;
    faulted_section_ids = inputs.fault_section_id ∷ [];
    active_fault_section_id = some inputs.fault_section_id;
    boundary_observations = [];
  })

  -- The candidate of a tie, once its sections are known.
  unfoldable pub candidate_of :
      DistributionSection
      → SwitchingDevice
      → Feeder
      → TopologyResult
      → List String
      → Result RestorationCandidate
  candidate_of fault tie alternate proposed section_ids = do
    paths ← concat_m (alternate_paths proposed alternate.entity_id) section_ids
    transferable ← sum_m (load_of loaded.config) section_ids
    ok (record {
      candidate_id = L.uuid5 (
          joined (
            loaded.configuration_id ∷ inputs.fault_section_id ∷ tie.entity_id ∷ alternate.entity_id
            ∷ section_ids));
      affected_feeder_id = fault.feeder_id;
      alternate_feeder_id = alternate.entity_id;
      alternate_source_id = alternate.source_id;
      alternate_source_breaker_id = alternate.source_breaker_id;
      tie_device_id = tie.entity_id;
      requested_tie_state = closed;
      proposed_section_ids = section_ids;
      proposed_path_edge_ids = sort (dedup (concat_map (λ p. p.edge_ids) paths));
      transferable_load_kw = transferable;
      proposed_restored_customer_count =
          sum_of (λ m. m.customer_count)
            (filter
              (λ m.
                contains section_ids m.section_id
                && contains inputs.current_outage.de_energised_section_ids m.section_id)
              loaded.config.customer_zone_mappings);
    })

  -- One round of the loop over the ties, after the alternate feeder is found.
  unfoldable pub tie_candidate :
      DistributionSection → SwitchingDevice → Feeder → Result (Option RestorationCandidate)
  tie_candidate fault tie alternate = do
    proposed ← structural_topology tie alternate
    sections ←
        filter_m
          (restorable fault.feeder_id inputs.fault_section_id inputs.current_topology proposed
            alternate.entity_id)
          loaded.config.sections
    let section_ids = sort (map (λ s. s.entity_id) sections)
    if is_empty section_ids then ok none else (do
      candidate ← candidate_of fault tie alternate proposed section_ids
      ok (some candidate))

  -- One round: a tie that does not have exactly one side on the faulted feeder is passed over.
  unfoldable pub try_tie :
      DistributionSection → SwitchingDevice → Result (Option RestorationCandidate)
  try_tie fault tie = do
    sides ← adjacent_sections loaded.config tie.entity_id
    affected ← affected_sides loaded.config fault.feeder_id sides
    if nat_eq (length affected) 1
        then (do
          side ← or_raise (find (λ s. not (contains affected s)) sides) stop_iteration
          section ← item side (section_by_id loaded.config)
          alternate ← item section.feeder_id (by_id (λ f. f.entity_id) loaded.config.feeders)
          tie_candidate fault tie alternate)
        else ok none

  unfoldable pub search_ties :
      DistributionSection → List SwitchingDevice → Result (Option RestorationCandidate)
  search_ties fault [] = ok none
  search_ties fault (tie ∷ ties) = do
    found ← try_tie fault tie
    elim found [ some candidate ↦ ok (some candidate) | none ↦ search_ties fault ties ]

  unfoldable pub discover_candidate : Result (Option RestorationCandidate)
  discover_candidate = do
    fault ← item inputs.fault_section_id (section_by_id loaded.config)
    search_ties fault (
        sort_on (λ d. d.entity_id)
          (filter (λ d. is_tie d.device_type) loaded.config.switching_devices))

  -- `_proposed_topology`
  unfoldable pub proposed_topology : RestorationCandidate → Result TopologyResult
  proposed_topology candidate = calculate L.graph_library loaded (record {
    device_states =
        insert candidate.tie_device_id candidate.requested_tie_state (point_states inputs);
    source_availability = inputs.source_availability;
    faulted_section_ids = inputs.fault_section_id ∷ [];
    active_fault_section_id = some inputs.fault_section_id;
    boundary_observations = [];
  })
