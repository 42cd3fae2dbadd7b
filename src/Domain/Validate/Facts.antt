-- ===== src/Domain/Validate/Facts.antt =====
-- What an accepted configuration guarantees.
use ot_engineering_demonstra.Base.{true, ◌≡◌, ok, all, distinct, same_set, arith, contains}
use ot_engineering_demonstra.Domain.Config.{NetworkConfigurationData}
use ot_engineering_demonstra.Domain.Validate.{
  validate, edge_connects, feeder_valid, edge_valid, engineering_entity_ids, edge_ids,
  mapping_sections, section_ids, feeder_ids,
}

pub record IsValid (c : NetworkConfigurationData) : Type 0 where
  pub edges_connect : all edge_connects c.connectivity_edges ≡ true
  pub entities_distinct : distinct (engineering_entity_ids c) ≡ true
  pub edges_distinct : distinct (edge_ids c) ≡ true
  pub feeders_valid : all (feeder_valid c) c.feeders ≡ true
  pub sections_owned : all (λ s. contains (feeder_ids c) s.feeder_id) c.sections ≡ true
  pub edges_valid : all (edge_valid c) c.connectivity_edges ≡ true
  pub mappings_distinct : distinct (mapping_sections c) ≡ true
  pub mappings_cover : same_set (mapping_sections c) (section_ids c) ≡ true

pub validate-IsValid : (c : NetworkConfigurationData) → validate c ≡ ok tt → IsValid c
unfolding validate
validate-IsValid c h = ground arith
