-- ===== src/Scenario/Execute/Lifecycle/Restoration.antt =====
-- The transitions of `_restore_normal_source`, `_assess_restoration` and `_execute_restoration`.
use ot_engineering_demonstra.Base.{
  String, ℕ, suc, Bool, true, false, ◌&&◌, ◌||◌, Option, none, some, List, ok, >>=-eq-ok,
  ok-injective, ◌⊎◌, inl, inr, and_true, branch-eq-ok, option-eq-ok, ◌≡◌, refl, ap, ◌∙◌, arith,
}
use ot_engineering_demonstra.Domain.{
  NetworkStateLabel, is_closed, n2, n3, n4, restore_normal_source, assess_restoration,
  execute_restoration,
}
use ot_engineering_demonstra.Domain.Config.{LoadedConfiguration}
use ot_engineering_demonstra.Telemetry.{TelemetryPoint}
use ot_engineering_demonstra.Topology.Models.{IsolationProof}
use ot_engineering_demonstra.Restoration.{
  RestorationAssessment, RestorationCandidate, AssessmentInvalidation,
}
use ot_engineering_demonstra.Restoration.Candidate.{item}
use ot_engineering_demonstra.Restoration.Permissives.{proof_isolated}
use ot_engineering_demonstra.Scenario.{
  RunContext, ScenarioCommandRequest, CommandResult, is_n2, is_n3, is_n4, is_exploration,
}
use ot_engineering_demonstra.Scenario.Store.{
  put_telemetry, update_run, insert_derived_snapshots, insert_assessment, insert_events,
  insert_assessment_invalidation, list_telemetry, list_assessment_invalidations,
}
use ot_engineering_demonstra.Scenario.Store.Runs.{insert_derived_snapshots-runs}
use ot_engineering_demonstra.Scenario.Store.Found.{
  same_runs-found, update_run-found, insert_assessment-runs,
}
use ot_engineering_demonstra.Scenario.Derive.{
  gate_topology, affected_feeder, assess_now, assessment_binding_matches,
}
use ot_engineering_demonstra.Scenario.Actions.{restore_gate, isolated_without_reclose}
use ot_engineering_demonstra.Scenario.Snapshot.{Coordinator, State}
use ot_engineering_demonstra.Scenario.Operations.{derive_after}
use ot_engineering_demonstra.Scenario.Restoring.{
  restore_at, restore_normal_source_command, reassessment_allowed, assess_at,
  assess_restoration_command, invalidate, close_tie, executable_assessment, executable_of,
  may_execute, with_candidate, execute_bound, execute_restoration_command, requests_close,
}
use ot_engineering_demonstra.Scenario.Execute.Lifecycle.{
  reclosed, assessed, executed, Answered, reject-Answered, complete_accepted-Answered,
}

is_n2-n2 : (l : NetworkStateLabel) → is_n2 l ≡ true → l ≡ n2
is_n2-n2 l h = ground arith

is_n3-n3 : (l : NetworkStateLabel) → is_n3 l ≡ true → l ≡ n3
is_n3-n3 l h = ground arith

is_n4-n4 : (l : NetworkStateLabel) → is_n4 l ≡ true → l ≡ n4
is_n4-n4 l h = ground arith

module _ (K : Coordinator) (loaded : LoadedConfiguration) (s : State) (run : RunContext)
    (request : ScenarioCommandRequest) where
  restore_at-Answered :
      (breaker_id : String) (previous : TelemetryPoint) (a : CommandResult × State)
      → run.network_state_label ≡ n2
      → restore_at K loaded s run request breaker_id previous ≡ ok a
      → Answered K loaded request restore_normal_source run a
  unfolding restore_at put_telemetry
  restore_at-Answered breaker_id previous a l h =
      let (s1, e1, h1) = >>=-eq-ok (update_run s.store _) _ h in
      let (u, e2, h2) = >>=-eq-ok (K.failure_hook "AFTER_PRIMARY_MUTATION") _ h1 in
      let (derived, e3, h3) = >>=-eq-ok (derive_after K loaded s.store run _ breaker_id _) _ h2 in
      let (s2, e4, h4) =
        >>=-eq-ok (insert_derived_snapshots _ run.scenario_run_id _ derived.0 derived.1) _ h3 in
      complete_accepted-Answered K loaded request _ run _ restore_normal_source _ _ _ a
        (reclosed l refl refl)
        (same_runs-found s1 s2 _ _ (insert_derived_snapshots-runs _ s2 _ _ _ _ e4)
          (update_run-found s.store s1 _ e1))
        refl h4

  restore_gate-before :
      (before : Bool) (telemetry : List TelemetryPoint) (time : ℕ)
      → restore_gate K.libraries loaded run before telemetry time ≡ ok true
      → before ≡ true
  unfolding restore_gate
  restore_gate-before before telemetry time h =
      elim (branch-eq-ok (before && is_exploration run.mode) _ _ h) [
        | inl (t, r) ↦ (and_true before (is_exploration run.mode) t).0
        | inr (f, r) ↦ ok-injective r
      ]

  pub restore_normal_source_command-Answered :
      (a : CommandResult × State)
      → restore_normal_source_command K loaded s run request ≡ ok a
      → Answered K loaded request restore_normal_source run a
  unfolding restore_normal_source_command
  restore_normal_source_command-Answered a h =
      let telemetry = list_telemetry s.store run.scenario_run_id in
      let (topology, e1, h1) =
        >>=-eq-ok (gate_topology K.libraries loaded run telemetry request.scenario_time) _ h in
      let (feeder, e2, h2) = >>=-eq-ok (affected_feeder loaded run) _ h1 in
      let gate =
        is_n2 run.network_state_label
        && proof_isolated topology.isolation_proof
        && requests_close request feeder.source_breaker_id in
      let (available, e3, h3) =
        >>=-eq-ok (restore_gate K.libraries loaded run gate telemetry request.scenario_time) _ h2 in
      elim (branch-eq-ok available _ _ h3) [
        | inr (f, r) ↦ reject-Answered K loaded request s run run restore_normal_source _ _ a r
        | inl (t, r) ↦
            let open_gate =
              restore_gate-before gate telemetry request.scenario_time (e3 ∙ ap ok t) in
            let label : is_n2 run.network_state_label ≡ true = ground arith in
            let (previous, e4, h4) = >>=-eq-ok (item feeder.source_breaker_id _) _ r in
            elim (branch-eq-ok (is_closed previous.value) _ _ h4) [
              | inl (c, r2) ↦
                  reject-Answered K loaded request s run run restore_normal_source _ _ a r2
              | inr (o, r2) ↦
                  restore_at-Answered feeder.source_breaker_id previous a
                    (is_n2-n2 run.network_state_label label) r2
            ]
      ]

  assess_at-Answered :
      (a : CommandResult × State)
      → (run.network_state_label ≡ n2)
        ⊎ ((run.network_state_label ≡ n3) ⊎ (run.network_state_label ≡ n4))
      → assess_at K loaded s run request ≡ ok a
      → Answered K loaded request assess_restoration run a
  unfolding assess_at
  assess_at-Answered a l h =
      let (assessment, e1, h1) =
        >>=-eq-ok (assess_now K.libraries loaded _ _ _ _ request.scenario_time) _ h in
      let (s1, e2, h2) = >>=-eq-ok (update_run s.store _) _ h1 in
      let (s2, e3, h3) = >>=-eq-ok (insert_assessment s1 assessment) _ h2 in
      let (u, e4, h4) = >>=-eq-ok (K.failure_hook "AFTER_PRIMARY_MUTATION") _ h3 in
      complete_accepted-Answered K loaded request _ run _ assess_restoration _ _ _ a
        (assessed l refl refl)
        (same_runs-found s1 s2 _ _ (insert_assessment-runs s1 s2 assessment e3)
          (update_run-found s.store s1 _ e2))
        refl h4

  isolated_without_reclose-n2 :
      (proof : Option IsolationProof) (telemetry : List TelemetryPoint) (time : ℕ)
      → isolated_without_reclose K.libraries loaded run proof telemetry time ≡ ok true
      → is_n2 run.network_state_label ≡ true
  unfolding isolated_without_reclose
  isolated_without_reclose-n2 proof telemetry time h =
      elim (branch-eq-ok
        (is_exploration run.mode && is_n2 run.network_state_label && proof_isolated proof) _ _ h) [
          | inl (t, r) ↦ ground arith
          | inr (f, r) ↦ let w = ok-injective r in cc
        ]

  pub assess_restoration_command-Answered :
      (a : CommandResult × State)
      → assess_restoration_command K loaded s run request ≡ ok a
      → Answered K loaded request assess_restoration run a
  unfolding assess_restoration_command
  assess_restoration_command-Answered a h =
      let telemetry = list_telemetry s.store run.scenario_run_id in
      let (topology, e1, h1) =
        >>=-eq-ok (gate_topology K.libraries loaded run telemetry request.scenario_time) _ h in
      let (without, e2, h2) =
        >>=-eq-ok
          (isolated_without_reclose K.libraries loaded run topology.isolation_proof telemetry
            request.scenario_time)
          _ h1 in
      elim (branch-eq-ok
        (is_n3 run.network_state_label
          || without
          || is_n4 run.network_state_label && reassessment_allowed s run)
        _ _ h2) [
          | inr (f, r) ↦ reject-Answered K loaded request s run run assess_restoration _ _ a r
          | inl (t, r) ↦
              assess_at-Answered a
                (labels without t (λ w. isolated_without_reclose-n2 _ _ _ (e2 ∙ ap ok w))) r
        ]
    where
      labels :
          (without : Bool)
          → (is_n3 run.network_state_label
              || without
              || is_n4 run.network_state_label && reassessment_allowed s run)
            ≡ true
          → (without ≡ true → is_n2 run.network_state_label ≡ true)
          → (run.network_state_label ≡ n2)
            ⊎ ((run.network_state_label ≡ n3) ⊎ (run.network_state_label ≡ n4))
      labels without t second = ground arith

  invalidate-Answered :
      (current : RestorationAssessment) (a : CommandResult × State)
      → invalidate K loaded s run request current ≡ ok a
      → Answered K loaded request execute_restoration run a
  unfolding invalidate
  invalidate-Answered current a h =
      let (s1, e1, h1) = >>=-eq-ok (update_run s.store _) _ h in
      let (s2, e2, h2) = >>=-eq-ok (insert_events s1 _) _ h1 in
      let (s3, e3, h3) = >>=-eq-ok (insert_assessment_invalidation s2 _) _ h2 in
      let (u, e4, h4) = >>=-eq-ok (K.failure_hook "AFTER_PRIMARY_MUTATION") _ h3 in
      reject-Answered K loaded request _ _ run execute_restoration _ _ a h4

  close_tie-Answered :
      (current : RestorationAssessment) (tie : String) (previous : TelemetryPoint)
      (a : CommandResult × State)
      → run.network_state_label ≡ n4
      → close_tie K loaded s run request current tie previous ≡ ok a
      → Answered K loaded request execute_restoration run a
  unfolding close_tie put_telemetry
  close_tie-Answered current tie previous a l h =
      let (s1, e1, h1) = >>=-eq-ok (update_run s.store _) _ h in
      let (u, e2, h2) = >>=-eq-ok (K.failure_hook "AFTER_PRIMARY_MUTATION") _ h1 in
      let (derived, e3, h3) = >>=-eq-ok (derive_after K loaded s.store run _ tie _) _ h2 in
      let (s2, e4, h4) =
        >>=-eq-ok (insert_derived_snapshots _ run.scenario_run_id _ derived.0 derived.1) _ h3 in
      complete_accepted-Answered K loaded request _ run _ execute_restoration _ _ _ a
        (executed l refl refl)
        (same_runs-found s1 s2 _ _ (insert_derived_snapshots-runs _ s2 _ _ _ _ e4)
          (update_run-found s.store s1 _ e1))
        refl h4

with_candidate-may :
    (may : Bool) (b : RestorationAssessment) (o : Option RestorationCandidate)
    (e : RestorationAssessment × RestorationCandidate)
    → with_candidate may b o ≡ some e
    → may ≡ true
with_candidate-may true b o e h = refl
with_candidate-may false b (some c) e h = cc
with_candidate-may false b none e h = cc

executable_of-n4 :
    (invalidations : List AssessmentInvalidation) (run : RunContext) (requested : Option ℕ)
    (o : Option RestorationAssessment) (e : RestorationAssessment × RestorationCandidate)
    → executable_of invalidations run requested o ≡ some e
    → is_n4 run.network_state_label ≡ true
executable_of-n4 invalidations run requested none e h = cc
executable_of-n4 invalidations run requested (some b) e h =
    let t = with_candidate-may (may_execute invalidations run requested b) b b.candidate e h in
    ground arith

executable_assessment-n4 :
    (s : State) (run : RunContext) (request : ScenarioCommandRequest)
    (e : RestorationAssessment × RestorationCandidate)
    → executable_assessment s run request ≡ some e
    → is_n4 run.network_state_label ≡ true
unfolding executable_assessment
executable_assessment-n4 s run request e h =
    executable_of-n4 (list_assessment_invalidations s.store run.scenario_run_id) run
      request.assessment_id _ e h

module _ (K : Coordinator) (loaded : LoadedConfiguration) (s : State) (run : RunContext)
    (request : ScenarioCommandRequest) where
  execute_bound-Answered :
      (current : RestorationAssessment) (candidate : RestorationCandidate)
      (a : CommandResult × State)
      → run.network_state_label ≡ n4
      → execute_bound K loaded s run request current candidate ≡ ok a
      → Answered K loaded request execute_restoration run a
  unfolding execute_bound
  execute_bound-Answered current candidate a l h =
      let (projection, e1, h1) =
        >>=-eq-ok (assess_now K.libraries loaded run _ _ _ request.scenario_time) _ h in
      let t : State = record s { drawn = suc s.drawn } in
      elim (branch-eq-ok (assessment_binding_matches current projection) _ _ h1) [
        | inr (f, r) ↦ invalidate-Answered K loaded t run request current a r
        | inl (m, r) ↦
            let (previous, e2, h2) = >>=-eq-ok (item candidate.tie_device_id _) _ r in
            elim (branch-eq-ok (is_closed previous.value) _ _ h2) [
              | inl (c, r2) ↦
                  reject-Answered K loaded request t run run execute_restoration _ _ a r2
              | inr (o, r2) ↦
                  close_tie-Answered K loaded t run request current candidate.tie_device_id previous
                    a l r2
            ]
      ]

  pub execute_restoration_command-Answered :
      (a : CommandResult × State)
      → execute_restoration_command K loaded s run request ≡ ok a
      → Answered K loaded request execute_restoration run a
  unfolding execute_restoration_command
  execute_restoration_command-Answered a h =
      elim (option-eq-ok (executable_assessment s run request) _ _ h) [
        | inr r ↦ reject-Answered K loaded request s run run execute_restoration _ _ a r
        | inl (e, found, r) ↦
            execute_bound-Answered e.0 e.1 a
              (is_n4-n4 run.network_state_label (executable_assessment-n4 s run request e found)) r
      ]
