-- ===== src/Tests/Network.antt =====
-- config/network/v1.1/network.json, the corrected baseline, as test data.
use ot_engineering_demonstra.Base.{true, none, some, [], ◌∷◌}
use ot_engineering_demonstra.Domain.{
  available, opened, closed, feeder_source_breaker, sectionalising_switch, tie_switch,
}
use ot_engineering_demonstra.Base.{String, ℕ}
use ot_engineering_demonstra.Domain.Config.{
  Feeder, DistributionSection, SwitchingDevice, ConnectivityEdge, CustomerZoneMapping,
  NetworkConfigurationData, LoadedConfiguration,
}

abbrev section : String → String → ℕ → DistributionSection
section id feeder load = record { entity_id = id; feeder_id = feeder; load_kw = load }

abbrev breaker : String → String → SwitchingDevice
breaker id feeder = record {
  entity_id = id;
  device_type = feeder_source_breaker;
  feeder_id = some feeder;
  normal_state = closed;
  monitored = true;
}

abbrev switch : String → String → SwitchingDevice
switch id feeder = record {
  entity_id = id;
  device_type = sectionalising_switch;
  feeder_id = some feeder;
  normal_state = closed;
  monitored = true;
}

abbrev tie : String → SwitchingDevice
tie id = record {
  entity_id = id;
  device_type = tie_switch;
  feeder_id = none;
  normal_state = opened;
  monitored = true;
}

abbrev edge : String → String → String → ConnectivityEdge
edge id a b = record { edge_id = id; endpoint_a_id = a; endpoint_b_id = b }

abbrev zone : String → String → ℕ → CustomerZoneMapping
zone section_id zone_id count = record {
  section_id = section_id;
  customer_zone_id = zone_id;
  customer_count = count;
}

abbrev feeder_a : Feeder
feeder_a = record {
  entity_id = "FDR-A";
  source_id = "ZS-01";
  source_breaker_id = "BRK-A";
  capacity_kw = 5500;
  normal_connected_load_kw = 3200;
  section_ids = "SEC-A1" ∷ "SEC-A2" ∷ "SEC-A3" ∷ "SEC-A4" ∷ [];
  sectionalising_switch_ids = "SW-A12" ∷ "SW-A23" ∷ "SW-A34" ∷ [];
}

abbrev feeder_b : Feeder
feeder_b = record {
  entity_id = "FDR-B";
  source_id = "ZS-01";
  source_breaker_id = "BRK-B";
  capacity_kw = 6000;
  normal_connected_load_kw = 4200;
  section_ids = "SEC-B1" ∷ "SEC-B2" ∷ "SEC-B3" ∷ "SEC-B4" ∷ [];
  sectionalising_switch_ids = "SW-B12" ∷ "SW-B23" ∷ "SW-B34" ∷ [];
}

abbrev pub corrected : NetworkConfigurationData
corrected = record {
  sources = record { entity_id = "ZS-01"; normal_source_availability = available } ∷ [];
  feeders = feeder_a ∷ feeder_b ∷ [];
  sections =
      section "SEC-A1" "FDR-A" 750
      ∷ section "SEC-A2" "FDR-A" 950
      ∷ section "SEC-A3" "FDR-A" 850
      ∷ section "SEC-A4" "FDR-A" 650
      ∷ section "SEC-B1" "FDR-B" 1100
      ∷ section "SEC-B2" "FDR-B" 1200
      ∷ section "SEC-B3" "FDR-B" 1000
      ∷ section "SEC-B4" "FDR-B" 900
      ∷ [];
  switching_devices =
      breaker "BRK-A" "FDR-A"
      ∷ breaker "BRK-B" "FDR-B"
      ∷ switch "SW-A12" "FDR-A"
      ∷ switch "SW-A23" "FDR-A"
      ∷ switch "SW-A34" "FDR-A"
      ∷ switch "SW-B12" "FDR-B"
      ∷ switch "SW-B23" "FDR-B"
      ∷ switch "SW-B34" "FDR-B"
      ∷ tie "TS-01"
      ∷ [];
  connectivity_edges =
      edge "EDGE-BRK-A-1" "ZS-01" "BRK-A"
      ∷ edge "EDGE-BRK-A-2" "BRK-A" "SEC-A1"
      ∷ edge "EDGE-SW-A12-1" "SEC-A1" "SW-A12"
      ∷ edge "EDGE-SW-A12-2" "SW-A12" "SEC-A2"
      ∷ edge "EDGE-SW-A23-1" "SEC-A2" "SW-A23"
      ∷ edge "EDGE-SW-A23-2" "SW-A23" "SEC-A3"
      ∷ edge "EDGE-SW-A34-1" "SEC-A3" "SW-A34"
      ∷ edge "EDGE-SW-A34-2" "SW-A34" "SEC-A4"
      ∷ edge "EDGE-BRK-B-1" "ZS-01" "BRK-B"
      ∷ edge "EDGE-BRK-B-2" "BRK-B" "SEC-B1"
      ∷ edge "EDGE-SW-B12-1" "SEC-B1" "SW-B12"
      ∷ edge "EDGE-SW-B12-2" "SW-B12" "SEC-B2"
      ∷ edge "EDGE-SW-B23-1" "SEC-B2" "SW-B23"
      ∷ edge "EDGE-SW-B23-2" "SW-B23" "SEC-B3"
      ∷ edge "EDGE-SW-B34-1" "SEC-B3" "SW-B34"
      ∷ edge "EDGE-SW-B34-2" "SW-B34" "SEC-B4"
      ∷ edge "EDGE-TS-01-1" "SEC-A4" "TS-01"
      ∷ edge "EDGE-TS-01-2" "TS-01" "SEC-B4"
      ∷ [];
  customer_zone_mappings =
      zone "SEC-A1" "CZ-A1" 180
      ∷ zone "SEC-A2" "CZ-A2" 220
      ∷ zone "SEC-A3" "CZ-A3" 260
      ∷ zone "SEC-A4" "CZ-A4" 190
      ∷ zone "SEC-B1" "CZ-B1" 240
      ∷ zone "SEC-B2" "CZ-B2" 280
      ∷ zone "SEC-B3" "CZ-B3" 230
      ∷ zone "SEC-B4" "CZ-B4" 210
      ∷ [];
}

abbrev pub corrected_v11 : LoadedConfiguration
corrected_v11 = record {
  configuration_id = "network-configuration-v1.1";
  version = "1.1";
  config = corrected;
}
