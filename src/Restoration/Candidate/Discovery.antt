-- ===== src/Restoration/Candidate/Discovery.antt =====
-- Which sections a discovered restoration candidate brings back.
use ot_engineering_demonstra.Base.{
  String, true, false, some, All, is_empty, contains, Mem, ok, lookup, ◌≡◌, ◌≢◌,
}
use ot_engineering_demonstra.Domain.{closed}
use ot_engineering_demonstra.Domain.Config.{
  DistributionSection, SwitchingDevice, Feeder, NetworkConfigurationData, LoadedConfiguration,
}
use ot_engineering_demonstra.Topology.Models.{TopologyResult, SectionDerivedState}
use ot_engineering_demonstra.Restoration.{
  Libraries, RestorationCandidate, RestorationAssessmentInputs,
}
use ot_engineering_demonstra.Restoration.Candidate.{state_by_id, structural_topology}

-- A section of the configuration that is of the feeder and not the faulted one, that is without
-- supply now, and that the alternate feeder supplies in the given topology.
abbrev pub Restores :
    NetworkConfigurationData
    → RestorationAssessmentInputs
    → String
    → String
    → TopologyResult
    → String
    → Type 0
Restores c inputs feeder alternate proposed id =
    (section : DistributionSection) × Mem section c.sections
    × (now : SectionDerivedState) × (later : SectionDerivedState) × (section.entity_id ≡ id)
    × (section.feeder_id ≡ feeder)
    × (id ≢ inputs.fault_section_id)
    × (lookup id (state_by_id inputs.current_topology) ≡ some now)
    × (now.energised ≡ false)
    × (lookup id (state_by_id proposed) ≡ some later)
    × (contains later.source_feeder_ids alternate ≡ true)

-- A candidate closes its tie to bring back some sections of the affected feeder, none of them
-- the faulted section, all without supply now and all supplied by the alternate feeder in the
-- topology with the tie closed.
abbrev pub IsRestoration :
    Libraries → LoadedConfiguration → RestorationAssessmentInputs → RestorationCandidate → Type 0
IsRestoration L loaded inputs c =
    (c.requested_tie_state ≡ closed)
    × (is_empty c.proposed_section_ids ≡ false)
    × (tie : SwitchingDevice) × (alternate : Feeder) × (proposed : TopologyResult) × (tie.entity_id
        ≡ c.tie_device_id)
    × (alternate.entity_id ≡ c.alternate_feeder_id)
    × (structural_topology L loaded inputs tie alternate ≡ ok proposed)
    × All (Restores loaded.config inputs c.affected_feeder_id c.alternate_feeder_id proposed)
        c.proposed_section_ids
