-- ===== src/Scenario/Store.antt =====
-- app/backend/ot_demo/infrastructure/scenario_repository.py: the tables of a unit of work, and
-- the keys of infrastructure/migrations that an insertion can violate. Rows stand in insertion order.
pub mod Runs
pub mod Kept
pub mod Found
use ot_engineering_demonstra.Base.{
  String, ◌==◌, ℕ, suc, Bool, true, not, ◌&&◌, Option, none, some, List, [], ◌∷◌, ◌++◌, map, filter,
  find, any, length, leb, ltb, nat_eq, if◌then◌else◌, Result, ok, guard, ◌>>=◌, ◌>>◌, or_raise,
  record_not_found, integrity_error,
}
use ot_engineering_demonstra.Base.Sort.{sort_on, sort_by}
use ot_engineering_demonstra.Telemetry.{TelemetryPoint, AlarmRecord}
use ot_engineering_demonstra.Topology.Models.{TopologyResult}
use ot_engineering_demonstra.Outage.{OutageResult}
use ot_engineering_demonstra.Restoration.{RestorationAssessment, AssessmentInvalidation}
use ot_engineering_demonstra.Scenario.{RunContext, CommandResult, OperationalEvent, is_closed_run}

pub record TelemetryRow : Type 0 where
  pub scenario_run_id : ℕ
  pub point : TelemetryPoint

-- A row of `topology_snapshots` with that of `outage_snapshots`, which are inserted together.
pub record SnapshotRow : Type 0 where
  pub scenario_run_id : ℕ
  pub state_revision : ℕ
  pub topology : TopologyResult
  pub outage : OutageResult

pub record CommandRow : Type 0 where
  pub command_id : ℕ
  pub scenario_run_id : ℕ
  pub request_sha256 : String
  pub result : CommandResult

pub record Store : Type 0 where
  pub runs : List RunContext
  pub telemetry : List TelemetryRow
  pub alarms : List AlarmRecord
  pub events : List OperationalEvent
  pub snapshots : List SnapshotRow
  pub command_results : List CommandRow
  pub assessments : List RestorationAssessment
  pub invalidations : List AssessmentInvalidation

abbrev pub mutable : RunContext → Bool
mutable r = not (is_closed_run r.status)

unfoldable pub has_mutable_run : Store → Bool
has_mutable_run s = any mutable s.runs

abbrev last_of {ℓ} : {A : Type ℓ} → (A → Bool) → List A → Option A
last_of p [] = none
last_of p (x ∷ xs) = elim (last_of p xs) [ some y ↦ some y | none ↦ if p x then some x else none ]

-- The mutable run with the greatest rowid.
unfoldable pub get_mutable_run : Store → Option RunContext
get_mutable_run s = last_of mutable s.runs

unfoldable pub get_run : Store → ℕ → Result RunContext
get_run s id = or_raise (find (λ r. nat_eq r.scenario_run_id id) s.runs) record_not_found

-- `one_mutable_scenario_run`, a unique index over the runs that are not CLOSED
abbrev pub one_mutable : List RunContext → Bool
one_mutable runs = leb (length (filter mutable runs)) 1

unfoldable pub insert_run : Store → RunContext → Result Store
insert_run s run = do
  guard (not (any (λ r. nat_eq r.scenario_run_id run.scenario_run_id) s.runs)) integrity_error
  guard (one_mutable (s.runs ++ run ∷ [])) integrity_error
  ok (record s { runs = s.runs ++ run ∷ [] })

abbrev pub replace_run : RunContext → List RunContext → List RunContext
replace_run run runs =
    map (λ r. if nat_eq r.scenario_run_id run.scenario_run_id then run else r) runs

unfoldable pub update_run : Store → RunContext → Result Store
update_run s run = do
  guard (any (λ r. nat_eq r.scenario_run_id run.scenario_run_id) s.runs) record_not_found
  guard (one_mutable (replace_run run s.runs)) integrity_error
  ok (record s { runs = replace_run run s.runs })

abbrev put_row : ℕ → TelemetryPoint → List TelemetryRow → List TelemetryRow
put_row id p [] = record { scenario_run_id = id; point = p } ∷ []
put_row id p (row ∷ rows) =
    let rest = put_row id p rows in
    if nat_eq row.scenario_run_id id && row.point.point_id == p.point_id
    then record { scenario_run_id = id; point = p } ∷ rows
    else row ∷ rest

-- An insertion that overwrites on a conflict.
unfoldable pub put_telemetry : Store → ℕ → TelemetryPoint → Store
put_telemetry s id p = record s { telemetry = put_row id p s.telemetry }

unfoldable pub list_telemetry : Store → ℕ → List TelemetryPoint
list_telemetry s id =
    sort_on (λ p. p.point_id)
      (map (λ row. row.point) (filter (λ row. nat_eq row.scenario_run_id id) s.telemetry))

unfoldable pub insert_alarm : Store → AlarmRecord → Result Store
insert_alarm s alarm = do
  guard (not (any (λ a. nat_eq a.alarm_id alarm.alarm_id) s.alarms)) integrity_error
  ok (record s { alarms = s.alarms ++ alarm ∷ [] })

unfoldable pub update_alarm : Store → AlarmRecord → Result Store
update_alarm s alarm = do
  guard (any (λ a. nat_eq a.alarm_id alarm.alarm_id) s.alarms) record_not_found
  ok (record s {
    alarms = map (λ a. if nat_eq a.alarm_id alarm.alarm_id then alarm else a) s.alarms;
  })

abbrev pub greatest : List ℕ → ℕ
greatest [] = 0
greatest (n ∷ ns) = let m = greatest ns in if ltb m n then n else m

abbrev pub events_of : Store → ℕ → List OperationalEvent
events_of s id = filter (λ e. nat_eq e.scenario_run_id id) s.events

-- `COALESCE(MAX(event_sequence), 0) + 1`
unfoldable pub next_event_sequence : Store → ℕ → ℕ
next_event_sequence s id = suc (greatest (map (λ e. e.event_sequence) (events_of s id)))

-- `PRIMARY KEY (event_id)` and `UNIQUE (scenario_run_id, event_sequence)`
abbrev pub conflicts : OperationalEvent → OperationalEvent → Bool
conflicts e f =
    if nat_eq e.event_id f.event_id
    then true
    else nat_eq e.scenario_run_id f.scenario_run_id && nat_eq e.event_sequence f.event_sequence

unfoldable pub insert_event : Store → OperationalEvent → Result Store
insert_event s e = do
  guard (not (any (conflicts e) s.events)) integrity_error
  ok (record s { events = s.events ++ e ∷ [] })

-- `executemany`
unfoldable pub insert_events : Store → List OperationalEvent → Result Store
insert_events s [] = ok s
insert_events s (e ∷ es) = do t ← insert_event s e; insert_events t es

unfoldable pub list_events : Store → ℕ → List OperationalEvent
list_events s id = sort_by (λ e f. leb e.event_sequence f.event_sequence) (events_of s id)

abbrev pub same_snapshot : ℕ → ℕ → SnapshotRow → Bool
same_snapshot id revision row = nat_eq row.scenario_run_id id && nat_eq row.state_revision revision

unfoldable pub insert_derived_snapshots :
    Store → ℕ → ℕ → TopologyResult → OutageResult → Result Store
insert_derived_snapshots s id revision topology outage = do
  guard (not (any (same_snapshot id revision) s.snapshots)) integrity_error
  ok (record s {
    snapshots =
        s.snapshots
        ++ record {
          scenario_run_id = id;
          state_revision = revision;
          topology = topology;
          outage = outage;
        }
          ∷ [];
  })

unfoldable pub get_outage_snapshot : Store → ℕ → ℕ → Result OutageResult
get_outage_snapshot s id revision = do
  row ← or_raise (find (same_snapshot id revision) s.snapshots) record_not_found
  ok row.outage

unfoldable pub get_topology_snapshot : Store → ℕ → ℕ → Result TopologyResult
get_topology_snapshot s id revision = do
  row ← or_raise (find (same_snapshot id revision) s.snapshots) record_not_found
  ok row.topology

abbrev pub assessments_of : Store → ℕ → List RestorationAssessment
assessments_of s id = filter (λ a. nat_eq a.scenario_run_id id) s.assessments

unfoldable pub next_assessment_sequence : Store → ℕ → ℕ
next_assessment_sequence s id =
    suc (greatest (map (λ a. a.assessment_sequence) (assessments_of s id)))

abbrev pub same_assessment : RestorationAssessment → RestorationAssessment → Bool
same_assessment a b =
    if nat_eq a.assessment_id b.assessment_id
    then true
    else nat_eq a.scenario_run_id b.scenario_run_id
      && nat_eq a.assessment_sequence b.assessment_sequence

unfoldable pub insert_assessment : Store → RestorationAssessment → Result Store
insert_assessment s a = do
  guard (not (any (same_assessment a) s.assessments)) integrity_error
  ok (record s { assessments = s.assessments ++ a ∷ [] })

unfoldable pub list_assessments : Store → ℕ → List RestorationAssessment
list_assessments s id =
    sort_by (λ a b. leb a.assessment_sequence b.assessment_sequence) (assessments_of s id)

-- `UNIQUE (assessment_id)` and the primary key
abbrev pub same_invalidation : AssessmentInvalidation → AssessmentInvalidation → Bool
same_invalidation i j =
    if nat_eq i.invalidation_id j.invalidation_id
    then true
    else nat_eq i.assessment_id j.assessment_id

unfoldable pub insert_assessment_invalidation : Store → AssessmentInvalidation → Result Store
insert_assessment_invalidation s i = do
  guard (not (any (same_invalidation i) s.invalidations)) integrity_error
  ok (record s { invalidations = s.invalidations ++ i ∷ [] })

unfoldable pub list_assessment_invalidations : Store → ℕ → List AssessmentInvalidation
list_assessment_invalidations s id = filter (λ i. nat_eq i.scenario_run_id id) s.invalidations

-- In the order of the alarms' UUIDs.
unfoldable pub list_alarms : Store → ℕ → List AlarmRecord
list_alarms s id =
    sort_by (λ a b. leb a.alarm_id b.alarm_id) (filter (λ a. nat_eq a.scenario_run_id id) s.alarms)

unfoldable pub get_command_result : Store → ℕ → Option CommandRow
get_command_result s id = find (λ row. nat_eq row.command_id id) s.command_results

unfoldable pub insert_command_result : Store → CommandRow → Result Store
insert_command_result s row = do
  guard (not (any (λ r. nat_eq r.command_id row.command_id) s.command_results)) integrity_error
  ok (record s { command_results = s.command_results ++ row ∷ [] })
