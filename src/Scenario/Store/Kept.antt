-- ===== src/Scenario/Store/Kept.antt =====
-- What writing to one run keeps of the others: each of them stands as it did, and there is still at
-- most one run that is not closed.
use ot_engineering_demonstra.Base.{
  ℕ, Bool, true, false, not, some, List, [], ◌∷◌, ◌++◌, find, any, nat_eq, nat_eq_iff, ok,
  guard-eq-ok, ok-injective, or_raise-eq-ok, or_raise, record_not_found, integrity_error,
  Bool-cases, inl, inr, ◌≡◌, refl, sym, ap, ◌∙◌,
}
use ot_engineering_demonstra.Telemetry.{TelemetryPoint, AlarmRecord}
use ot_engineering_demonstra.Topology.Models.{TopologyResult}
use ot_engineering_demonstra.Outage.{OutageResult}
use ot_engineering_demonstra.Restoration.{RestorationAssessment, AssessmentInvalidation}
use ot_engineering_demonstra.Scenario.{RunContext, OperationalEvent}
use ot_engineering_demonstra.Scenario.Store.{
  Store, CommandRow, one_mutable, replace_run, get_run, update_run, insert_run, put_telemetry,
  insert_alarm, update_alarm, insert_assessment, insert_assessment_invalidation, insert_events,
  insert_derived_snapshots, insert_command_result, same_assessment, same_invalidation,
}
use ot_engineering_demonstra.Scenario.Store.Runs.{
  insert_derived_snapshots-runs, insert_events-runs, insert_command_result-found,
}

abbrev pub Kept : ℕ → Store → Store → Type 0
Kept own s t =
    ((id : ℕ) (r : RunContext) → nat_eq own id ≡ false → get_run s id ≡ ok r → get_run t id ≡ ok r)
    × (one_mutable s.runs ≡ true → one_mutable t.runs ≡ true)

pub Kept-trans : (own : ℕ) (s t u : Store) → Kept own s t → Kept own t u → Kept own s u
Kept-trans own s t u (f, g) (f', g') = (λ id r n e. f' id r n (f id r n e), λ o. g' (g o))

pub same_runs-Kept : (own : ℕ) (s t : Store) → t.runs ≡ s.runs → Kept own s t
unfolding get_run
same_runs-Kept own s t e = (
  λ id r n h.
      ap (λ rs. or_raise (find (λ q. nat_eq q.scenario_run_id id) rs) record_not_found) e ∙ h,
  λ o. ap one_mutable e ∙ o,
)

find-replace_run :
    (run : RunContext) (id : ℕ) (runs : List RunContext)
    → nat_eq run.scenario_run_id id ≡ false
    → find (λ q. nat_eq q.scenario_run_id id) (replace_run run runs)
      ≡ find (λ q. nat_eq q.scenario_run_id id) runs
find-replace_run run id [] n = refl
find-replace_run run id (r ∷ runs) n =
    let rest = find-replace_run run id runs n in
    elim (Bool-cases (nat_eq r.scenario_run_id run.scenario_run_id)) [
      | inl y ↦
          let e = (nat_eq_iff r.scenario_run_id run.scenario_run_id).0 y in
          let m = ap (λ k. nat_eq k id) e ∙ n in rw (y, n, m) rest
      | inr f ↦ rw f (elim (Bool-cases (nat_eq r.scenario_run_id id)) [
        | inl y ↦ rw y refl
        | inr g ↦ rw g rest
      ])
    ]

find-append_found :
    (p : RunContext → Bool) (xs ys : List RunContext) (x : RunContext)
    → find p xs ≡ some x
    → find p (xs ++ ys) ≡ some x
find-append_found p [] ys x h = cc
find-append_found p (y ∷ xs) ys x h = elim (Bool-cases (p y)) [
  | inl t ↦ let w = rw t at h in rw t w
  | inr f ↦ rw f (find-append_found p xs ys x (rw f at h))
]

pub update_run-Kept :
    (s t : Store) (run : RunContext) → update_run s run ≡ ok t → Kept run.scenario_run_id s t
unfolding update_run get_run
update_run-Kept s t run h =
    let (there, h1) =
      guard-eq-ok (any (λ r. nat_eq r.scenario_run_id run.scenario_run_id) s.runs) record_not_found
        _ h in
    let (one, h2) = guard-eq-ok (one_mutable (replace_run run s.runs)) integrity_error _ h1 in
    let rows = ap (λ u. u.runs) (sym (ok-injective h2)) in
    (
      λ id r n e.
          ap (λ rs. or_raise (find (λ q. nat_eq q.scenario_run_id id) rs) record_not_found) rows
          ∙ ap (λ o. or_raise o record_not_found) (find-replace_run run id s.runs n)
          ∙ e,
      λ o. ap one_mutable rows ∙ one,
    )

pub insert_run-Kept :
    (own : ℕ) (s t : Store) (run : RunContext) → insert_run s run ≡ ok t → Kept own s t
unfolding insert_run get_run
insert_run-Kept own s t run h =
    let (free, h1) =
      guard-eq-ok (not (any (λ r. nat_eq r.scenario_run_id run.scenario_run_id) s.runs))
        integrity_error _ h in
    let (one, h2) = guard-eq-ok (one_mutable (s.runs ++ run ∷ [])) integrity_error _ h1 in
    let rows = ap (λ u. u.runs) (sym (ok-injective h2)) in
    (
      λ id r n e.
          ap (λ rs. or_raise (find (λ q. nat_eq q.scenario_run_id id) rs) record_not_found) rows
          ∙ ap (λ o. or_raise o record_not_found)
              (find-append_found (λ q. nat_eq q.scenario_run_id id) s.runs (run ∷ []) r
                (or_raise-eq-ok (find (λ q. nat_eq q.scenario_run_id id) s.runs) record_not_found
                  e)),
      λ o. ap one_mutable rows ∙ one,
    )

pub put_telemetry-Kept :
    (own : ℕ) (s : Store) (id : ℕ) (p : TelemetryPoint) → Kept own s (put_telemetry s id p)
unfolding put_telemetry
put_telemetry-Kept own s id p = same_runs-Kept own s (put_telemetry s id p) refl

module _ (own : ℕ) (s t : Store) where
  pub insert_alarm-Kept : (alarm : AlarmRecord) → insert_alarm s alarm ≡ ok t → Kept own s t
  unfolding insert_alarm
  insert_alarm-Kept alarm h =
      let (free, h1) =
        guard-eq-ok (not (any (λ a. nat_eq a.alarm_id alarm.alarm_id) s.alarms)) integrity_error _
          h in
      same_runs-Kept own s t (ap (λ u. u.runs) (sym (ok-injective h1)))

  pub update_alarm-Kept : (alarm : AlarmRecord) → update_alarm s alarm ≡ ok t → Kept own s t
  unfolding update_alarm
  update_alarm-Kept alarm h =
      let (there, h1) =
        guard-eq-ok (any (λ a. nat_eq a.alarm_id alarm.alarm_id) s.alarms) record_not_found _ h in
      same_runs-Kept own s t (ap (λ u. u.runs) (sym (ok-injective h1)))

  pub insert_assessment-Kept :
      (a : RestorationAssessment) → insert_assessment s a ≡ ok t → Kept own s t
  unfolding insert_assessment
  insert_assessment-Kept a h =
      let (free, h1) =
        guard-eq-ok (not (any (same_assessment a) s.assessments)) integrity_error _ h in
      same_runs-Kept own s t (ap (λ u. u.runs) (sym (ok-injective h1)))

  pub insert_assessment_invalidation-Kept :
      (i : AssessmentInvalidation) → insert_assessment_invalidation s i ≡ ok t → Kept own s t
  unfolding insert_assessment_invalidation
  insert_assessment_invalidation-Kept i h =
      let (free, h1) =
        guard-eq-ok (not (any (same_invalidation i) s.invalidations)) integrity_error _ h in
      same_runs-Kept own s t (ap (λ u. u.runs) (sym (ok-injective h1)))

  pub insert_events-Kept : (es : List OperationalEvent) → insert_events s es ≡ ok t → Kept own s t
  insert_events-Kept es h = same_runs-Kept own s t (insert_events-runs s t es h)

  pub insert_derived_snapshots-Kept :
      (id revision : ℕ) (topology : TopologyResult) (outage : OutageResult)
      → insert_derived_snapshots s id revision topology outage ≡ ok t
      → Kept own s t
  insert_derived_snapshots-Kept id revision topology outage h =
      same_runs-Kept own s t (insert_derived_snapshots-runs s t id revision topology outage h)

  pub insert_command_result-Kept :
      (row : CommandRow) → insert_command_result s row ≡ ok t → Kept own s t
  insert_command_result-Kept row h =
      same_runs-Kept own s t (insert_command_result-found s t row h).1
