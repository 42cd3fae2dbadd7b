-- ===== src/Outage.antt =====
-- app/backend/ot_demo/modules/outage: the customers that the de-energised sections leave without
-- supply, and those that came back since an earlier result.
pub mod Order
pub mod Customers
use ot_engineering_demonstra.Base.{
  String, ◌==◌, ℕ, Bool, true, false, not, ◌&&◌, Option, none, some, List, [], ◌∷◌, map, filter,
  any, sum_of, contains, same_set, nat_eq, Result, ok, ◌>>=◌, ◌>>◌, guard, validation_error,
  outage_configuration_mismatch,
}
use ot_engineering_demonstra.Base.Sort.{sort_on}
use ot_engineering_demonstra.Domain.Config.{
  CustomerZoneMapping, LoadedConfiguration, NetworkConfigurationData,
}
use ot_engineering_demonstra.Domain.Validate.{section_ids}
use ot_engineering_demonstra.Topology.Models.{TopologyResult}

pub record AffectedCustomerZone : Type 0 where
  pub section_id : String
  pub customer_zone_id : String
  pub customer_count : ℕ

pub record OutageResult : Type 0 where
  pub configuration_id : String
  pub de_energised_section_ids : List String
  pub affected_customer_zones : List AffectedCustomerZone
  pub affected_customer_count : ℕ
  pub restored_customer_delta : ℕ

abbrev pub same_list : List String → List String → Bool
same_list [] [] = true
same_list [] (y ∷ ys) = false
same_list (x ∷ xs) [] = false
same_list (x ∷ xs) (y ∷ ys) = x == y && same_list xs ys

-- `OutageResult.validate_customer_summary`
unfoldable pub outage_valid : OutageResult → Bool
outage_valid r =
    same_list r.de_energised_section_ids (map (λ z. z.section_id) r.affected_customer_zones)
    && nat_eq r.affected_customer_count (sum_of (λ z. z.customer_count) r.affected_customer_zones)

abbrev pub same_configuration : String → Option OutageResult → Bool
same_configuration id none = true
same_configuration id (some p) = p.configuration_id == id

abbrev pub affected_zone : CustomerZoneMapping → AffectedCustomerZone
affected_zone m = record {
  section_id = m.section_id;
  customer_zone_id = m.customer_zone_id;
  customer_count = m.customer_count;
}

unfoldable pub de_energised : TopologyResult → List String
de_energised t = map (λ s. s.section_id) (filter (λ s. not s.energised) t.sections)

-- The mappings of the given sections, in the order of the section identifiers.
unfoldable pub affected_zones : NetworkConfigurationData → List String → List AffectedCustomerZone
affected_zones c sections = map affected_zone (
    filter (λ m. contains sections m.section_id)
      (sort_on (λ m. m.section_id) c.customer_zone_mappings))

-- `(zone.section_id, zone.customer_zone_id) in current_zone_identities`
abbrev pub listed : List AffectedCustomerZone → AffectedCustomerZone → Bool
listed zones z =
    any (λ y. y.section_id == z.section_id && y.customer_zone_id == z.customer_zone_id) zones

unfoldable pub restored_delta : Option OutageResult → List AffectedCustomerZone → ℕ
restored_delta none zones = 0
restored_delta (some p) zones =
    sum_of (λ z. z.customer_count) (filter (λ z. not (listed zones z)) p.affected_customer_zones)

unfoldable pub outage_result :
    LoadedConfiguration → TopologyResult → Option OutageResult → OutageResult
outage_result loaded topology previous =
    let sections = de_energised topology in
    let zones = affected_zones loaded.config sections in
    record {
      configuration_id = loaded.configuration_id;
      de_energised_section_ids = sections;
      affected_customer_zones = zones;
      affected_customer_count = sum_of (λ z. z.customer_count) zones;
      restored_customer_delta = restored_delta previous zones;
    }

-- `OutageService.calculate`
unfoldable pub calculate :
    LoadedConfiguration → TopologyResult → Option OutageResult → Result OutageResult
calculate loaded topology previous = do
  guard (topology.configuration_id == loaded.configuration_id) outage_configuration_mismatch
  guard (same_configuration loaded.configuration_id previous) outage_configuration_mismatch
  guard (same_set (map (λ s. s.section_id) topology.sections) (section_ids loaded.config))
      validation_error
  guard (outage_valid (outage_result loaded topology previous)) validation_error
  ok (outage_result loaded topology previous)
