-- ===== src/Telemetry.antt =====
-- app/backend/ot_demo/modules/telemetry: observed points, alarms, and their classification in
-- scenario time. A datetime is the number of microseconds since 0001-01-01T00:00:00 UTC.
pub mod Epoch
pub mod Freshness
use ot_engineering_demonstra.Base.{
  ℕ, suc, ◌+◌, ◌-◌, ◌*◌, ◌/◌, ◌%◌, String, ◌<>◌, Bool, true, false, not, ◌&&◌, ◌||◌, Option, none,
  some, List, [], ◌∷◌, ◌++◌, if◌then◌else◌, ltb, leb, is_some, Result, ok, err, overflow_error,
}
use ot_engineering_demonstra.Base.Int.{ℤ, pos, negsuc, pos_part, ◌+ℤ◌, ◌-ℤ◌, ◌*ℤ◌, leb_ℤ, ltb_ℤ}
use ot_engineering_demonstra.Domain.{
  SwitchState, TelemetryQuality, good, uncertain, bad, is_good, FreshnessStatus, fresh, stale,
  invalid_timestamp, is_fresh, is_invalid_timestamp, AlarmAcknowledgementState, acknowledged,
  unacknowledged,
}

pub record TelemetryPoint : Type 0 where
  pub point_id : String
  pub entity_id : String
  pub value : SwitchState
  pub quality : TelemetryQuality
  pub last_update_scenario_time : ℕ
  pub revision : ℕ

pub record TelemetryValidity : Type 0 where
  pub point_id : String
  pub age_ms : ℤ
  pub freshness : FreshnessStatus
  pub quality : TelemetryQuality
  pub quality_valid : Bool
  pub timestamp_valid : Bool
  pub overall_valid : Bool
  pub reason_codes : List String

abbrev same_bool : Bool → Bool → Bool
same_bool true b = b
same_bool false b = not b

-- `TelemetryValidity.validate_classification`
pub classification_valid : TelemetryValidity → Bool
classification_valid v =
    same_bool v.timestamp_valid (not (is_invalid_timestamp v.freshness))
    && same_bool v.quality_valid (is_good v.quality)
    && same_bool v.overall_valid (v.timestamp_valid && v.quality_valid && is_fresh v.freshness)

-- UUIDs are numbers; the only alarm type is the feeder trip.
pub record AlarmRecord : Type 0 where
  pub alarm_id : ℕ
  pub scenario_run_id : ℕ
  pub entity_id : String
  pub active : Bool
  pub acknowledgement_state : AlarmAcknowledgementState
  pub generated_scenario_time : ℕ
  pub acknowledged_scenario_time : Option ℕ
  pub acknowledged_by : Option String

abbrev pub is_acknowledged : AlarmAcknowledgementState → Bool
is_acknowledged acknowledged = true
is_acknowledged unacknowledged = false

abbrev not_before : ℕ → Option ℕ → Bool
not_before t none = true
not_before t (some u) = leb t u

-- `AlarmRecord.validate_acknowledgement`
unfoldable pub alarm_valid : AlarmRecord → Bool
alarm_valid a =
    same_bool (is_acknowledged a.acknowledgement_state) (is_some a.acknowledged_scenario_time)
    && same_bool (is_acknowledged a.acknowledgement_state) (is_some a.acknowledged_by)
    && not_before a.generated_scenario_time a.acknowledged_scenario_time

-- `_EPOCH`, 719162 days after the first datetime, and the end of the year 9999
abbrev pub epoch : ℕ
epoch = 62135596800000000

abbrev pub datetime_end : ℕ
datetime_end = 315537897600000000

abbrev day_us : ℕ
day_us = 86400000000

-- A `timedelta` in Python's normal form: only the days may be negative.
pub record Timedelta : Type 0 where
  pub days : ℤ
  pub seconds : ℕ
  pub microseconds : ℕ

unfoldable pub split_delta : ℤ → Timedelta
split_delta (pos n) = record {
  days = pos (n / day_us);
  seconds = n % day_us / 1000000;
  microseconds = n % day_us % 1000000;
}
split_delta (negsuc n) = record {
  days = negsuc (n / day_us);
  seconds = (day_us - 1 - n % day_us) / 1000000;
  microseconds = (day_us - 1 - n % day_us) % 1000000;
}

unfoldable pub instant_to_epoch_ms : ℕ → ℤ
unfolding split_delta
instant_to_epoch_ms value =
    let delta = split_delta (pos value -ℤ pos epoch) in
    delta.days *ℤ 86400000 +ℤ pos (delta.seconds * 1000) +ℤ pos (delta.microseconds / 1000)

-- `_EPOCH + timedelta(milliseconds=value)`, which raises outside the years 1 to 9999
pub epoch_ms_to_instant : ℤ → Result ℕ
epoch_ms_to_instant value =
    let instant = pos epoch +ℤ value *ℤ 1000 in
    if leb_ℤ (pos 0) instant && ltb_ℤ instant (pos datetime_end)
    then ok (pos_part instant)
    else err overflow_error

abbrev pub maximum_telemetry_age_ms : ℕ
maximum_telemetry_age_ms = 60000

abbrev pub quality_value : TelemetryQuality → String
quality_value good = "GOOD"
quality_value uncertain = "UNCERTAIN"
quality_value bad = "BAD"

abbrev pub freshness_of : ℤ → FreshnessStatus
freshness_of age_ms =
    if ltb_ℤ age_ms (pos 0)
    then invalid_timestamp
    else if leb_ℤ age_ms (pos maximum_telemetry_age_ms)
    then fresh
    else stale

abbrev freshness_reasons : FreshnessStatus → List String
freshness_reasons fresh = []
freshness_reasons stale = "TELEMETRY_STALE" ∷ []
freshness_reasons invalid_timestamp = "FUTURE_TELEMETRY_TIMESTAMP" ∷ []

abbrev quality_reasons : TelemetryQuality → List String
quality_reasons q = if is_good q then [] else ("QUALITY_" <> quality_value q) ∷ []

abbrev or_valid : List String → List String
or_valid [] = "TELEMETRY_VALID" ∷ []
or_valid (r ∷ rs) = r ∷ rs

-- `TelemetryValidityService.classify`
unfoldable pub classify : TelemetryPoint → ℕ → TelemetryValidity
classify point scenario_time =
    let age =
      instant_to_epoch_ms scenario_time -ℤ instant_to_epoch_ms point.last_update_scenario_time in
    let freshness = freshness_of age in
    record {
      point_id = point.point_id;
      age_ms = age;
      freshness = freshness;
      quality = point.quality;
      quality_valid = is_good point.quality;
      timestamp_valid = not (is_invalid_timestamp freshness);
      overall_valid = is_good point.quality && is_fresh freshness;
      reason_codes = or_valid (freshness_reasons freshness ++ quality_reasons point.quality);
    }
