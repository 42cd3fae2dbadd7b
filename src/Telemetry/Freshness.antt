-- ===== src/Telemetry/Freshness.antt =====
-- When a telemetry point counts as valid.
use ot_engineering_demonstra.Base.{ℕ, ◌+◌, ◌%◌, ◌≤◌, ◌≡◌, ◌↔◌, true, arith}
use ot_engineering_demonstra.Base.Int.{ -ℤ_parts}
use ot_engineering_demonstra.Domain.{good, stale}
use ot_engineering_demonstra.Telemetry.Epoch.{instant_to_epoch_ms_bounds, instant_to_epoch_ms-mono}
use ot_engineering_demonstra.Telemetry.{
  TelemetryPoint, classify, classification_valid, instant_to_epoch_ms,
}

-- Every classification passes the validator of its own record.
pub classify-classification_valid :
    (p : TelemetryPoint) (t : ℕ) → classification_valid (classify p t) ≡ true
unfolding classify classification_valid
classify-classification_valid p t = ground arith

abbrev pub maximum_age_us : ℕ
maximum_age_us = 60000000

-- A point counts as valid exactly when its quality is GOOD and the scenario time is neither before
-- its update nor more than 60 seconds after it (both instants in whole milliseconds).
pub classify-overall_valid :
    (p : TelemetryPoint) (t : ℕ)
    → t % 1000 ≡ 0
    → p.last_update_scenario_time % 1000 ≡ 0
    → ((classify p t).overall_valid ≡ true) ↔ (
        (p.quality ≡ good)
        × (p.last_update_scenario_time ≤ t)
        × (t ≤ p.last_update_scenario_time + maximum_age_us))
unfolding classify
classify-overall_valid p t wt wp =
    let u = p.last_update_scenario_time in
    ground (
      arith,
      -ℤ_parts (instant_to_epoch_ms t) (instant_to_epoch_ms u),
      instant_to_epoch_ms_bounds t,
      instant_to_epoch_ms_bounds u,
    )

-- As scenario time goes on a fresh point may become stale, and a stale one never fresh again.
pub classify-stale_forever :
    (p : TelemetryPoint) (t u : ℕ)
    → t ≤ u
    → (classify p t).freshness ≡ stale
    → (classify p u).freshness ≡ stale
unfolding classify
classify-stale_forever p t u h s =
    let v = p.last_update_scenario_time in
    ground (
      arith,
      -ℤ_parts (instant_to_epoch_ms t) (instant_to_epoch_ms v),
      -ℤ_parts (instant_to_epoch_ms u) (instant_to_epoch_ms v),
      instant_to_epoch_ms-mono t u h,
    )
