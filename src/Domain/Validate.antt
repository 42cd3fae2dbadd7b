-- ===== src/Domain/Validate.antt =====
-- app/backend/ot_demo/domain/configuration.py: the validators that pydantic runs on a
-- configuration, in their order. The patterns of identifiers and the lengths of names are left out.
pub mod Facts
use ot_engineering_demonstra.Base.{
  String, ◌==◌, ℕ, Bool, true, false, not, ◌&&◌, ◌||◌, Option, none, some, List, [], ◌∷◌, ◌++◌, map,
  filter, find, all, any, length, contains, distinct, dedup, subset, same_set, is_empty, ltb,
  nat_eq, if◌then◌else◌, Result, ok, err, guard, ◌>>◌, ◌>>=◌, validation_error,
}
use ot_engineering_demonstra.Domain.{SwitchingDeviceType, is_tie, is_breaker, is_sectionalising}
use ot_engineering_demonstra.Domain.Config.{
  ZoneSubstation, Feeder, DistributionSection, SwitchingDevice, ConnectivityEdge,
  CustomerZoneMapping, NetworkConfigurationData,
}

module _ (c : NetworkConfigurationData) where
  abbrev pub source_ids : List String
  source_ids = map (λ (s : ZoneSubstation). s.entity_id) c.sources

  abbrev pub feeder_ids : List String
  feeder_ids = map (λ (f : Feeder). f.entity_id) c.feeders

  abbrev pub section_ids : List String
  section_ids = map (λ (s : DistributionSection). s.entity_id) c.sections

  abbrev pub device_ids : List String
  device_ids = map (λ (d : SwitchingDevice). d.entity_id) c.switching_devices

  abbrev pub engineering_entity_ids : List String
  engineering_entity_ids = source_ids ++ (feeder_ids ++ (section_ids ++ device_ids))

  abbrev pub edge_ids : List String
  edge_ids = map (λ (e : ConnectivityEdge). e.edge_id) c.connectivity_edges

  abbrev pub mapping_sections : List String
  mapping_sections = map (λ (m : CustomerZoneMapping). m.section_id) c.customer_zone_mappings

  abbrev pub mapping_zones : List String
  mapping_zones = map (λ (m : CustomerZoneMapping). m.customer_zone_id) c.customer_zone_mappings

  abbrev pub find_device : String → Option SwitchingDevice
  find_device id = find (λ d. d.entity_id == id) c.switching_devices

abbrev pub is_id : Option String → String → Bool
is_id none id = false
is_id (some j) id = j == id

-- `SwitchingDevice.validate_feeder_ownership`
unfoldable pub device_owned : SwitchingDevice → Bool
device_owned d = elim d.feeder_id [
  | none ↦ is_tie d.device_type
  | some _ ↦ not (is_tie d.device_type)
]

-- `ConnectivityEdge.reject_self_connection`
unfoldable pub edge_connects : ConnectivityEdge → Bool
edge_connects e = not (e.endpoint_a_id == e.endpoint_b_id)

-- `{edge.endpoint_a_id, edge.endpoint_b_id}`
abbrev pub endpoints : ConnectivityEdge → List String
endpoints e = dedup (e.endpoint_a_id ∷ e.endpoint_b_id ∷ [])

-- `Field(min_length=1)` on the two collections of a feeder
abbrev feeder_present : Feeder → Bool
feeder_present f = not (is_empty f.section_ids) && not (is_empty f.sectionalising_switch_ids)

abbrev breaker_valid : Feeder → Option SwitchingDevice → Bool
breaker_valid f none = false
breaker_valid f (some b) = is_breaker b.device_type && is_id b.feeder_id f.entity_id

module _ (c : NetworkConfigurationData) where
  -- The fields of a feeder, then one round of the loop over the feeders.
  unfoldable pub feeder_valid : Feeder → Bool
  feeder_valid f =
      feeder_present f
      && contains (source_ids c) f.source_id
      && breaker_valid f (find_device c f.source_breaker_id)
      && same_set f.section_ids
          (map (λ s. s.entity_id) (filter (λ s. s.feeder_id == f.entity_id) c.sections))
      && same_set f.sectionalising_switch_ids (
          map (λ d. d.entity_id)
            (filter (λ d. is_id d.feeder_id f.entity_id && is_sectionalising d.device_type)
              c.switching_devices))

  abbrev known_owner : Option String → Bool
  known_owner none = true
  known_owner (some id) = contains (feeder_ids c) id

  abbrev pub terminal_ids : List String
  terminal_ids = source_ids c ++ section_ids c

  abbrev pub device_endpoints : ConnectivityEdge → List String
  device_endpoints e = filter (contains (device_ids c)) (endpoints e)

  abbrev pub terminal_endpoints : ConnectivityEdge → List String
  terminal_endpoints e = filter (contains terminal_ids) (endpoints e)

  -- One round of the loop over the edges.
  unfoldable pub edge_valid : ConnectivityEdge → Bool
  edge_valid e = nat_eq (length (device_endpoints e)) 1 && nat_eq (length (terminal_endpoints e)) 1

  -- `incident_counts[device_id]`
  abbrev pub incident_count : String → ℕ
  incident_count id = length (filter (λ e. contains (device_endpoints e) id) c.connectivity_edges)

  -- `Field(min_length=1)` on the six collections
  unfoldable pub collections_present : Bool
  collections_present =
      not (is_empty c.sources)
      && not (is_empty c.feeders)
      && not (is_empty c.sections)
      && not (is_empty c.switching_devices)
      && not (is_empty c.connectivity_edges)
      && not (is_empty c.customer_zone_mappings)

  -- The validators of the parts, then `validate_references_and_consistency`.
  unfoldable pub validate : Result (Unit {0})
  validate = do
    guard (all device_owned c.switching_devices) validation_error
    guard (all edge_connects c.connectivity_edges) validation_error
    guard (all (λ m. ltb 0 m.customer_count) c.customer_zone_mappings) validation_error
    guard collections_present validation_error
    guard (distinct (engineering_entity_ids c)) validation_error
    guard (distinct (edge_ids c)) validation_error
    guard (all feeder_valid c.feeders) validation_error
    guard (all (λ s. contains (feeder_ids c) s.feeder_id) c.sections) validation_error
    guard (all (λ d. known_owner d.feeder_id) c.switching_devices) validation_error
    guard (all edge_valid c.connectivity_edges) validation_error
    guard (all (λ id. nat_eq (incident_count id) 2) (device_ids c)) validation_error
    guard (distinct (mapping_sections c)) validation_error
    guard (distinct (mapping_zones c)) validation_error
    guard (subset (mapping_sections c) (section_ids c)) validation_error
    guard (same_set (mapping_sections c) (section_ids c)) validation_error
    ok tt
