-- ===== src/Tests/Outage.antt =====
-- The outage theorems at the isolated fault.
use ot_engineering_demonstra.Base.{◌≡◌, refl, ok, some, [], ◌∷◌, map, str_leb}
use ot_engineering_demonstra.Base.Sort.{sort_by}
use ot_engineering_demonstra.Topology.Graph.EdgeList.{edge_list}
use ot_engineering_demonstra.Outage.{
  OutageResult, calculate, outage_result, outage_valid, de_energised, affected_zones,
  restored_delta,
}
use ot_engineering_demonstra.Outage.Customers.{calculate_total, calculate-customers, Accounts}
use ot_engineering_demonstra.Tests.Network.{corrected_v11}
use ot_engineering_demonstra.Tests.Fault.{isolated_inputs, isolated_topology, returned}
use ot_engineering_demonstra.Tests.Topology.{isolated_run, corrected_accepted}

-- An earlier result, in which SEC-A1 and SEC-A2 were without supply.
abbrev earlier : OutageResult
earlier = record {
  configuration_id = "network-configuration-v1.1";
  de_energised_section_ids = "SEC-A1" ∷ "SEC-A2" ∷ [];
  affected_customer_zones =
      record { section_id = "SEC-A1"; customer_zone_id = "CZ-A1"; customer_count = 180 }
      ∷ record { section_id = "SEC-A2"; customer_zone_id = "CZ-A2"; customer_count = 220 }
      ∷ [];
  affected_customer_count = 400;
  restored_customer_delta = 0;
}

calculate_total_example :
    (r : OutageResult) × (calculate corrected_v11 isolated_run.0 (some earlier) ≡ ok r)
    × (r.de_energised_section_ids ≡ de_energised isolated_run.0)
    × (map (λ z. z.section_id) r.affected_customer_zones ≡ de_energised isolated_run.0)
calculate_total_example =
    calculate_total edge_list corrected_v11 isolated_inputs isolated_run.0 (some earlier)
      corrected_accepted isolated_run.1 refl

abbrev pub outage_run :
    (r : OutageResult) × (calculate corrected_v11 isolated_topology (some earlier) ≡ ok r)
unfolding calculate outage_result outage_valid de_energised affected_zones restored_delta sort_by
    str_leb
outage_run = returned (calculate corrected_v11 isolated_topology (some earlier)) refl

calculate-customers_example : Accounts corrected_v11 isolated_topology (some earlier) outage_run.0
calculate-customers_example =
    calculate-customers corrected_v11 isolated_topology (some earlier) outage_run.0 outage_run.1
