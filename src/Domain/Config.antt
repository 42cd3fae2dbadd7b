-- ===== src/Domain/Config.antt =====
-- app/backend/ot_demo/domain/configuration.py: the records of a network configuration, and
-- `LoadedConfiguration` of modules/configuration/models.py with the catalogue fields that the
-- services read. Names and schema metadata, which no service reads, are left out.
use ot_engineering_demonstra.Base.{String, ℕ, Bool, Option, List}
use ot_engineering_demonstra.Domain.{SourceAvailability, SwitchState, SwitchingDeviceType}

pub record ZoneSubstation : Type 0 where
  pub entity_id : String
  pub normal_source_availability : SourceAvailability

pub record Feeder : Type 0 where
  pub entity_id : String
  pub source_id : String
  pub source_breaker_id : String
  pub capacity_kw : ℕ
  pub normal_connected_load_kw : ℕ
  pub section_ids : List String
  pub sectionalising_switch_ids : List String

pub record DistributionSection : Type 0 where
  pub entity_id : String
  pub feeder_id : String
  pub load_kw : ℕ

pub record SwitchingDevice : Type 0 where
  pub entity_id : String
  pub device_type : SwitchingDeviceType
  pub feeder_id : Option String
  pub normal_state : SwitchState
  pub monitored : Bool

pub record ConnectivityEdge : Type 0 where
  pub edge_id : String
  pub endpoint_a_id : String
  pub endpoint_b_id : String

pub record CustomerZoneMapping : Type 0 where
  pub section_id : String
  pub customer_zone_id : String
  pub customer_count : ℕ

pub record NetworkConfigurationData : Type 0 where
  pub sources : List ZoneSubstation
  pub feeders : List Feeder
  pub sections : List DistributionSection
  pub switching_devices : List SwitchingDevice
  pub connectivity_edges : List ConnectivityEdge
  pub customer_zone_mappings : List CustomerZoneMapping

pub record LoadedConfiguration : Type 0 where
  pub configuration_id : String
  pub version : String
  pub config : NetworkConfigurationData
