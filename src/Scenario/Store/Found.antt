-- ===== src/Scenario/Store/Found.antt =====
-- A run that is written is the one that is read under its identity, and stays it while the other
-- tables are written.
use ot_engineering_demonstra.Base.{
  ℕ, true, false, not, some, List, [], ◌∷◌, ◌++◌, find, any, nat_eq, nat_eq_iff, ok, guard-eq-ok,
  ok-injective, or_raise, record_not_found, integrity_error, Bool-cases, inl, inr, ◌≡◌, refl, sym,
  ap, ◌∙◌, arith,
}
use ot_engineering_demonstra.Telemetry.{AlarmRecord}
use ot_engineering_demonstra.Restoration.{RestorationAssessment}
use ot_engineering_demonstra.Scenario.{RunContext}
use ot_engineering_demonstra.Scenario.Store.{
  Store, replace_run, one_mutable, get_run, update_run, insert_run, insert_alarm, insert_assessment,
  same_assessment,
}
use ot_engineering_demonstra.Scenario.Store.Runs.{find-append}

-- The run stands in the table.
abbrev pub IsStoredRun : Store → RunContext → Type 0
IsStoredRun s run = get_run s run.scenario_run_id ≡ ok run

pub same_runs-found :
    (s t : Store) (id : ℕ) (run : RunContext)
    → t.runs ≡ s.runs
    → get_run s id ≡ ok run
    → get_run t id ≡ ok run
unfolding get_run
same_runs-found s t id run e h =
    ap (λ rs. or_raise (find (λ q. nat_eq q.scenario_run_id id) rs) record_not_found) e ∙ h

find-replaced :
    (run : RunContext) (runs : List RunContext)
    → any (λ r. nat_eq r.scenario_run_id run.scenario_run_id) runs ≡ true
    → find (λ q. nat_eq q.scenario_run_id run.scenario_run_id) (replace_run run runs) ≡ some run
find-replaced run [] h = cc
find-replaced run (r ∷ runs) h = elim (Bool-cases (nat_eq r.scenario_run_id run.scenario_run_id)) [
  | inl y ↦ rw (y, (nat_eq_iff run.scenario_run_id run.scenario_run_id).1 refl) refl
  | inr f ↦ let there = rw f at h in rw (f, f) (find-replaced run runs there)
]

pub update_run-found :
    (s t : Store) (run : RunContext) → update_run s run ≡ ok t → IsStoredRun t run
unfolding update_run get_run
update_run-found s t run h =
    let (there, h1) =
      guard-eq-ok (any (λ r. nat_eq r.scenario_run_id run.scenario_run_id) s.runs) record_not_found
        _ h in
    let (one, h2) = guard-eq-ok (one_mutable (replace_run run s.runs)) integrity_error _ h1 in
    ap
      (λ rs.
        or_raise (find (λ q. nat_eq q.scenario_run_id run.scenario_run_id) rs) record_not_found)
      (ap (λ u. u.runs) (sym (ok-injective h2)))
    ∙ ap (λ o. or_raise o record_not_found) (find-replaced run s.runs there)

pub insert_run-found :
    (s t : Store) (run : RunContext) → insert_run s run ≡ ok t → IsStoredRun t run
unfolding insert_run get_run
insert_run-found s t run h =
    let (free, h1) =
      guard-eq-ok (not (any (λ r. nat_eq r.scenario_run_id run.scenario_run_id) s.runs))
        integrity_error _ h in
    let (one, h2) = guard-eq-ok (one_mutable (s.runs ++ run ∷ [])) integrity_error _ h1 in
    let absent : any (λ r. nat_eq r.scenario_run_id run.scenario_run_id) s.runs ≡ false =
      ground arith in
    ap
      (λ rs.
        or_raise (find (λ q. nat_eq q.scenario_run_id run.scenario_run_id) rs) record_not_found)
      (ap (λ u. u.runs) (sym (ok-injective h2)))
    ∙ ap (λ o. or_raise o record_not_found)
        (find-append (λ (q : RunContext). nat_eq q.scenario_run_id run.scenario_run_id) s.runs run
          absent ((nat_eq_iff run.scenario_run_id run.scenario_run_id).1 refl))

pub insert_alarm-runs :
    (s t : Store) (alarm : AlarmRecord) → insert_alarm s alarm ≡ ok t → t.runs ≡ s.runs
unfolding insert_alarm
insert_alarm-runs s t alarm h =
    let (free, h1) =
      guard-eq-ok (not (any (λ a. nat_eq a.alarm_id alarm.alarm_id) s.alarms)) integrity_error _
        h in
    ap (λ u. u.runs) (sym (ok-injective h1))

pub insert_assessment-runs :
    (s t : Store) (a : RestorationAssessment) → insert_assessment s a ≡ ok t → t.runs ≡ s.runs
unfolding insert_assessment
insert_assessment-runs s t a h =
    let (free, h1) =
      guard-eq-ok (not (any (same_assessment a) s.assessments)) integrity_error _ h in
    ap (λ u. u.runs) (sym (ok-injective h1))
