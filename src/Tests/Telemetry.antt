-- ===== src/Tests/Telemetry.antt =====
-- The telemetry theorems at concrete instants.
use ot_engineering_demonstra.Base.{◌≡◌, refl, ok, ◌+◌, ◌≤◌, ◌↔◌, true, arith}
use ot_engineering_demonstra.Base.Int.{◌≤ℤ◌, ◌-ℤ◌, ◌+ℤ◌, ◌*ℤ◌}
use ot_engineering_demonstra.Domain.{closed, good, stale}
use ot_engineering_demonstra.Telemetry.{
  TelemetryPoint, split_delta, classify, classification_valid, instant_to_epoch_ms,
  epoch_ms_to_instant,
}
use ot_engineering_demonstra.Telemetry.Epoch.{
  instant_to_epoch_ms-mono, epoch_ms_to_instant-instant_to_epoch_ms,
}
use ot_engineering_demonstra.Telemetry.Freshness.{
  classify-overall_valid, classify-stale_forever, classify-classification_valid, maximum_age_us,
}
use ot_engineering_demonstra.Tests.Fault.{at_second}

abbrev point : TelemetryPoint
point = record {
  point_id = "BRK-A";
  entity_id = "BRK-A";
  value = closed;
  quality = good;
  last_update_scenario_time = at_second 10;
  revision = 0;
}

round_trip_example : epoch_ms_to_instant (instant_to_epoch_ms (at_second 10)) ≡ ok (at_second 10)
round_trip_example = epoch_ms_to_instant-instant_to_epoch_ms (at_second 10) refl (omega arith)

mono_example : instant_to_epoch_ms (at_second 10) ≤ℤ instant_to_epoch_ms (at_second 11)
mono_example = instant_to_epoch_ms-mono (at_second 10) (at_second 11) (omega arith)

overall_valid_example : ((classify point (at_second 70)).overall_valid ≡ true) ↔ (
    (point.quality ≡ good)
    × (point.last_update_scenario_time ≤ at_second 70)
    × (at_second 70 ≤ point.last_update_scenario_time + maximum_age_us))
overall_valid_example = classify-overall_valid point (at_second 70) refl refl

classification_example : classification_valid (classify point (at_second 70)) ≡ true
classification_example = classify-classification_valid point (at_second 70)

stale_example : (classify point (at_second 90)).freshness ≡ stale
unfolding classify instant_to_epoch_ms split_delta ◌-ℤ◌ ◌+ℤ◌ ◌*ℤ◌
stale_example = classify-stale_forever point (at_second 71) (at_second 90) (omega arith) refl
