-- ===== src/Scenario/Initialise/Started.antt =====
-- What starting a run leaves behind: its place in the table of runs, and the stored result.
use ot_engineering_demonstra.Base.{
  String, ◌==◌, ℕ, true, false, not, none, some, List, [], ◌∷◌, ◌++◌, filter, Result, ok,
  guard-eq-ok, >>=-eq-ok, ok-injective, option-eq-ok, branch-eq-ok, or_raise, boundary_error,
  Bool-cases, eq_iff, inl, inr, ◌≡◌, refl, sym, ap, ◌∙◌, subst,
}
use ot_engineering_demonstra.Domain.{n0, initialised}
use ot_engineering_demonstra.Domain.Config.{LoadedConfiguration}
use ot_engineering_demonstra.Scenario.{
  RunContext, InitialiseRunRequest, CommandResult, OperationalEvent,
}
use ot_engineering_demonstra.Scenario.Store.{
  CommandRow, mutable, has_mutable_run, get_mutable_run, insert_run, insert_derived_snapshots,
  insert_events, get_command_result, insert_command_result,
}
use ot_engineering_demonstra.Scenario.Store.Runs.{
  insert_command_result-found, insert_run-only, insert_derived_snapshots-runs, insert_events-runs,
}
use ot_engineering_demonstra.Scenario.Events.{events_from_specs, initial_specs}
use ot_engineering_demonstra.Scenario.Derive.{derive}
use ot_engineering_demonstra.Scenario.Snapshot.{Coordinator, State, assemble_snapshot}
use ot_engineering_demonstra.Scenario.Execute.{
  new_run, normal_telemetry, put_all, close_run, start_run,
}
use ot_engineering_demonstra.Scenario.Execute.Lifecycle.Reset.{put_all-runs}
use ot_engineering_demonstra.Scenario.Execute.Lifecycle.{assemble_snapshot-run}
use ot_engineering_demonstra.Scenario.Replay.{answered_or}
use ot_engineering_demonstra.Scenario.Replay.Repeated.{Repeats, Answers-Repeats, replayed-store}
use ot_engineering_demonstra.Scenario.Initialise.{
  validate_initialisation, requested_run, record_initialised, initialise_new, replace_new,
  initialise, initialise_replacement_run, initialise_next_run,
}

module _ (K : Coordinator) where
  start_run-only :
      (s t : State) (loaded : LoadedConfiguration) (run : RunContext) (command_id : ℕ)
      (actor : String) (events : List OperationalEvent)
      → mutable run ≡ true
      → start_run K s loaded run command_id actor ≡ ok (events, t)
      → (t.store.runs ≡ s.store.runs ++ run ∷ []) × (filter mutable t.store.runs ≡ run ∷ [])
  unfolding start_run
  start_run-only s t loaded run command_id actor events m h =
      let (s1, e1, h1) = >>=-eq-ok (insert_run s.store run) _ h in
      let s2 = put_all s1 run.scenario_run_id (normal_telemetry loaded run) in
      let (derived, e2, h2) =
        >>=-eq-ok (derive K.libraries loaded run (normal_telemetry loaded run) none) _ h1 in
      let (s3, e3, h3) =
        >>=-eq-ok (insert_derived_snapshots s2 run.scenario_run_id 0 derived.0 derived.1) _ h2 in
      let new = events_from_specs K.uuids s3 run command_id actor s.drawn (initial_specs run) in
      let (s4, e4, h4) = >>=-eq-ok (insert_events s3 new) _ h3 in
      let same : t.store.runs ≡ s1.runs =
        ap (λ p. p.1.store.runs) (sym (ok-injective h4))
        ∙ insert_events-runs s3 s4 new e4
        ∙ insert_derived_snapshots-runs s2 s3 run.scenario_run_id 0 derived.0 derived.1 e3
        ∙ put_all-runs s1 run.scenario_run_id (normal_telemetry loaded run) in
      let (added, only) = insert_run-only s.store s1 run m e1 in
      (same ∙ added, ap (filter mutable) same ∙ only)

  -- The result stands in the table under the command's identity, with the request's digest.
  abbrev pub IsStored : InitialiseRunRequest → CommandResult → State → Type 0
  IsStored request r t =
      (row : CommandRow) × (get_command_result t.store request.command_id ≡ some row)
      × (row.request_sha256 ≡ K.initialise_sha request)
      × (row.result ≡ r)

  -- The result's run is the only one that is not closed, and it stands at the normal state.
  abbrev pub IsOnly : InitialiseRunRequest → CommandResult → State → Type 0
  IsOnly request r t =
      (filter mutable t.store.runs ≡ r.snapshot.run ∷ [])
      × (r.snapshot.run.network_state_label ≡ n0)
      × (r.snapshot.run.fault_active ≡ false)
      × (r.snapshot.run.state_revision ≡ 0)
      × (r.snapshot.run.status ≡ initialised)
      × (r.snapshot.run.mode ≡ request.mode)

  abbrev pub Started : InitialiseRunRequest → CommandResult × State → Type 0
  Started request (r, t) = (r.accepted ≡ true) × IsStored request r t × IsOnly request r t

  record_initialised-Started :
      (s : State) (loaded : LoadedConfiguration) (request : InitialiseRunRequest) (id run_id : ℕ)
      (fault reason_code : String) (prior_revision : ℕ) (events : List OperationalEvent)
      (a : CommandResult × State)
      → filter mutable s.store.runs ≡ requested_run K loaded request id fault ∷ []
      → record_initialised K s loaded
          (requested_run K loaded request id fault)
          request
          run_id
          reason_code
          prior_revision
          events
        ≡ ok a
      → Started request a
  unfolding record_initialised new_run
  record_initialised-Started s loaded request id run_id fault reason_code prior_revision events a
        only h =
      let run = requested_run K loaded request id fault in
      let (u, e1, h1) = >>=-eq-ok (K.failure_hook "BEFORE_COMMIT") _ h in
      let (snapshot, e2, h2) = >>=-eq-ok (assemble_snapshot K loaded s run) _ h1 in
      let (store, e3, h3) = >>=-eq-ok (insert_command_result s.store _) _ h2 in
      let (found, runs) = insert_command_result-found s.store store _ e3 in
      let fresh : snapshot.run ≡ run = assemble_snapshot-run K loaded s run snapshot e2 in
      subst (Started request) (ok-injective h3) (
        refl,
        (_, found, refl, refl),
        (
          ap (filter mutable) runs ∙ only ∙ ap (λ r. r ∷ []) (sym fresh),
          ap (λ r. r.network_state_label) fresh,
          ap (λ r. r.fault_active) fresh,
          ap (λ r. r.state_revision) fresh,
          ap (λ r. r.status) fresh,
          ap (λ r. r.mode) fresh,
        ),
      )

  initialise_new-Started :
      (s : State) (request : InitialiseRunRequest) (a : CommandResult × State)
      → initialise_new K s request ≡ ok a
      → Started request a
  unfolding initialise_new new_run
  initialise_new-Started s request a h =
      let (free, h1) = guard-eq-ok (not (has_mutable_run s.store)) boundary_error _ h in
      let (loaded, e1, h2) = >>=-eq-ok (K.load request.configuration_version) _ h1 in
      let (fault, e2, h3) = >>=-eq-ok (validate_initialisation K request loaded) _ h2 in
      let (starting, e3, h4) = >>=-eq-ok (start_run K _ loaded _ request.command_id _) _ h3 in
      let (added, only) = start_run-only _ starting.1 loaded _ _ _ starting.0 refl e3 in
      record_initialised-Started starting.1 loaded request _ _ fault _ _ _ a only h4

  replace_new-Started :
      (s : State) (request : InitialiseRunRequest) (a : CommandResult × State)
      → replace_new K s request ≡ ok a
      → Started request a
  unfolding replace_new new_run
  replace_new-Started s request a h =
      let (prior, e1, h1) = >>=-eq-ok (or_raise (get_mutable_run s.store) boundary_error) _ h in
      let (loaded, e2, h2) = >>=-eq-ok (K.load request.configuration_version) _ h1 in
      let (fault, e3, h3) = >>=-eq-ok (validate_initialisation K request loaded) _ h2 in
      let (build, h4) =
        guard-eq-ok (prior.application_build_id == K.application_build_id) boundary_error _ h3 in
      let (closing, e5, h5) = >>=-eq-ok (close_run K s prior request.command_id _ _) _ h4 in
      let (starting, e6, h6) = >>=-eq-ok (start_run K _ loaded _ request.command_id _) _ h5 in
      let (added, only) = start_run-only _ starting.1 loaded _ _ _ starting.0 refl e6 in
      record_initialised-Started starting.1 loaded request _ _ fault _ _ _ a only h6

  answered_or-new :
      (s : State) (request : InitialiseRunRequest) (body : Result (CommandResult × State))
      (a : CommandResult × State)
      → get_command_result s.store request.command_id ≡ none
      → answered_or K s request.command_id (K.initialise_sha request) body ≡ ok a
      → body ≡ ok a
  answered_or-new s request body a new h = rw (new, answered_or) at h

  -- When a new request for a run is answered, its result is accepted and stored under its
  -- identity, and its run, in the mode asked for, is at N0 without a fault, at revision 0, and the
  -- only run that is not closed, whether or not there was such a run before.
  pub initialise_next_run-Started :
      (s : State) (request : InitialiseRunRequest) (a : CommandResult × State)
      → get_command_result s.store request.command_id ≡ none
      → initialise_next_run K s request ≡ ok a
      → Started request a
  unfolding initialise_next_run initialise initialise_replacement_run
  initialise_next_run-Started s request a new h =
      elim (branch-eq-ok (has_mutable_run s.store) _ _ h) [
        | inl (t, r) ↦ replace_new-Started s request a (answered_or-new s request _ a new r)
        | inr (f, r) ↦ initialise_new-Started s request a (answered_or-new s request _ a new r)
      ]

  answered_or-IsStored :
      (s : State) (request : InitialiseRunRequest) (body : Result (CommandResult × State))
      (a : CommandResult × State)
      → ((b : CommandResult × State) → body ≡ ok b → IsStored request b.0 b.1)
      → answered_or K s request.command_id (K.initialise_sha request) body ≡ ok a
      → IsStored request a.0 a.1
  answered_or-IsStored s request body a ih h =
      elim (option-eq-ok (get_command_result s.store request.command_id) _ _ h) [
        | inr new ↦ ih a new
        | inl (row, found, r) ↦
            elim (branch-eq-ok (row.request_sha256 == K.initialise_sha request) _ _ r) [
              | inr (f, e) ↦ cc
              | inl (t, e) ↦
                  let kept =
                    replayed-store K s request.command_id (K.initialise_sha request) row.result in
                  subst (λ b. IsStored request b.0 b.1) (ok-injective e)
                    (
                      row,
                      ap (λ store. get_command_result store request.command_id) kept ∙ found,
                      (eq_iff row.request_sha256 (K.initialise_sha request)).0 t,
                      refl,
                    )
            ]
      ]

  -- A request for a run that returned a result returns the same result when it is sent again. It
  -- then starts no other run: it leaves the tables and the UUIDs drawn as they are, and notes at most
  -- one replay comparison, which reports the same result, no new event and no new invalidation; once
  -- more it changes nothing.
  pub initialise_next_run-repeated :
      (s : State) (request : InitialiseRunRequest) (a : CommandResult × State)
      → initialise_next_run K s request ≡ ok a
      → Repeats K request.command_id
          (K.initialise_sha request)
          (λ u. initialise_next_run K u request)
          a
  unfolding initialise_next_run initialise initialise_replacement_run
  initialise_next_run-repeated s request a h =
      let body : State → Result (CommandResult × State) = λ u. elim (has_mutable_run u.store) [
        | true ↦ replace_new K u request
        | false ↦ initialise_new K u request
      ] in
      Answers-Repeats K request.command_id (K.initialise_sha request)
        (λ u. initialise_next_run K u request) body a.0 a.1
        (λ u. elim (Bool-cases (has_mutable_run u.store)) [
          | inl t ↦ rw (t, initialise_next_run) refl
          | inr f ↦ rw (f, initialise_next_run) refl
        ])
        (elim (branch-eq-ok (has_mutable_run s.store) _ _ h) [
          | inl (t, r) ↦
              answered_or-IsStored s request _ a (λ b e. (replace_new-Started s request b e).1) r
          | inr (f, r) ↦
              answered_or-IsStored s request _ a (λ b e. (initialise_new-Started s request b e).1) r
        ])
