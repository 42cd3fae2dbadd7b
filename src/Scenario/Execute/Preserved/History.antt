-- ===== src/Scenario/Execute/Preserved/History.antt =====
-- No command changes a closed run, and there is never a second run that is not closed.
use ot_engineering_demonstra.Base.{
  ◌==◌, ℕ, suc, true, false, [], find, nat_eq, nat_eq_iff, ok, >>=-eq-ok, ok-injective,
  or_raise-eq-ok, find-test, branch-eq-ok, option-eq-ok, option-none-ok, record_not_found,
  Bool-cases, inl, inr, ◌≡◌, ◌≢◌, sym, ap, ◌∙◌, subst, arith,
}
use ot_engineering_demonstra.Domain.{closed_run}
use ot_engineering_demonstra.Scenario.{RunContext, ScenarioCommandRequest, CommandResult}
use ot_engineering_demonstra.Scenario.Store.{Store, get_run, get_command_result, one_mutable}
use ot_engineering_demonstra.Scenario.Snapshot.{Coordinator, State}
use ot_engineering_demonstra.Scenario.Replay.Repeated.{replayed-store}
use ot_engineering_demonstra.Scenario.Execute.{refusal, execute_new, execute}
use ot_engineering_demonstra.Scenario.Execute.Refusals.{refusal-none}
use ot_engineering_demonstra.Scenario.Execute.Preserved.Commands.{dispatch-Keeps}
use ot_engineering_demonstra.Scenario.Execute.Preserved.{reject-Kept}

module _ (K : Coordinator) where
  closed_elsewhere :
      (s : Store) (requested id : ℕ) (run r : RunContext)
      → get_run s requested ≡ ok run
      → get_run s id ≡ ok r
      → r.status ≡ closed_run
      → run.status ≢ closed_run
      → nat_eq run.scenario_run_id id ≡ false
  unfolding get_run
  closed_elsewhere s requested id run r e e' c open_run =
      elim (Bool-cases (nat_eq run.scenario_run_id id)) [
        | inr f ↦ f
        | inl y ↦
            let found =
              or_raise-eq-ok (find (λ q. nat_eq q.scenario_run_id requested) s.runs)
                record_not_found e in
            let test = find-test (λ q. nat_eq q.scenario_run_id requested) s.runs run found in
            let same =
              sym ((nat_eq_iff run.scenario_run_id requested).0 test)
              ∙ (nat_eq_iff run.scenario_run_id id).0 y in
            let one = ok-injective (sym (subst (λ k. get_run s k ≡ ok run) same e) ∙ e') in
            absurd (open_run (ap (λ q. q.status) one ∙ c))
      ]

  -- What a new command keeps: the runs but one that is not closed.
  execute_new-Keeps :
      (s : State) (request : ScenarioCommandRequest) (a : CommandResult × State)
      → execute_new K s request ≡ ok a
      → ((id : ℕ) (r : RunContext)
          → get_run s.store id ≡ ok r
          → r.status ≡ closed_run
          → get_run a.1.store id ≡ ok r)
        × (one_mutable s.store.runs ≡ true → one_mutable a.1.store.runs ≡ true)
  unfolding execute_new
  execute_new-Keeps s request a h =
      let (run, e1, h1) = >>=-eq-ok (get_run s.store request.scenario_run_id) _ h in
      let (loaded, e2, h2) = >>=-eq-ok (K.load run.configuration_version) _ h1 in
      elim (option-none-ok (refusal run request) _ _ h2) [
        | inl (code, e, r) ↦ (
          λ id q g c. (reject-Kept K loaded request (suc id) s run code [] a r).0 id q (other id) g,
          (reject-Kept K loaded request 0 s run code [] a r).1,
        )
        | inr (none_refused, r) ↦
            let kept = dispatch-Keeps K request.command_type loaded s run request a r in
            let open_run = ((refusal-none run request).0 none_refused).2 in
            (
              λ id q g c.
                  kept.0 id q
                    (closed_elsewhere s.store request.scenario_run_id id run q e1 g c open_run) g,
              kept.1,
            )
      ]
    where
      other : (id : ℕ) → nat_eq (suc id) id ≡ false
      other id = ground arith

  execute-Keeps :
      (s : State) (run_id : ℕ) (request : ScenarioCommandRequest) (a : CommandResult × State)
      → execute K s run_id request ≡ ok a
      → ((id : ℕ) (r : RunContext)
          → get_run s.store id ≡ ok r
          → r.status ≡ closed_run
          → get_run a.1.store id ≡ ok r)
        × (one_mutable s.store.runs ≡ true → one_mutable a.1.store.runs ≡ true)
  unfolding execute
  execute-Keeps s run_id request a h =
      elim (branch-eq-ok (nat_eq request.scenario_run_id run_id) _ _ h) [
        | inr (f, r) ↦ cc
        | inl (t, r) ↦ elim (option-eq-ok (get_command_result s.store request.command_id) _ _ r) [
          | inr new ↦ execute_new-Keeps s request a new
          | inl (row, found, r2) ↦
              elim (branch-eq-ok (row.request_sha256 == K.request_sha request) _ _ r2) [
                | inr (f, r3) ↦ cc
                | inl (test, r3) ↦
                    let same : a.1.store ≡ s.store =
                      ap (λ b. b.1.store) (sym (ok-injective r3))
                      ∙ replayed-store K s request.command_id (K.request_sha request) row.result in
                    (
                      λ id q g c. ap (λ t. get_run t id) same ∙ g,
                      λ o. ap (λ t. one_mutable t.runs) same ∙ o,
                    )
              ]
        ]
      ]

  -- A closed run stays as it is, whatever command is executed on any run.
  pub execute-closed_run :
      (s : State) (run_id : ℕ) (request : ScenarioCommandRequest) (a : CommandResult × State)
      (id : ℕ) (r : RunContext)
      → get_run s.store id ≡ ok r
      → r.status ≡ closed_run
      → execute K s run_id request ≡ ok a
      → get_run a.1.store id ≡ ok r
  execute-closed_run s run_id request a id r g c h = (execute-Keeps s run_id request a h).0 id r g c

  -- Executing a command leaves at most one run that is not closed, where there was at most one.
  pub execute-one_mutable :
      (s : State) (run_id : ℕ) (request : ScenarioCommandRequest) (a : CommandResult × State)
      → one_mutable s.store.runs ≡ true
      → execute K s run_id request ≡ ok a
      → one_mutable a.1.store.runs ≡ true
  execute-one_mutable s run_id request a one h = (execute-Keeps s run_id request a h).1 one
