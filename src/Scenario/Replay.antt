-- ===== src/Scenario/Replay.antt =====
-- application/scenario_coordinator.py: `_return_duplicate`, and the replay comparisons that it keeps
-- beside the tables.
pub mod Repeated
use ot_engineering_demonstra.Base.{
  String, ◌==◌, ℕ, ◌-◌, Bool, true, false, ◌&&◌, Option, none, some, List, [], ◌∷◌, ◌++◌, any,
  length, nat_eq, if◌then◌else◌, Result, ok, err, command_conflict,
}
use ot_engineering_demonstra.Scenario.{CommandResult}
use ot_engineering_demonstra.Scenario.Store.{
  list_events, list_assessment_invalidations, get_command_result,
}
use ot_engineering_demonstra.Scenario.Snapshot.{Coordinator, State, ReplayComparison}

abbrev same_bool : Bool → Bool → Bool
same_bool true b = b
same_bool false true = false
same_bool false false = true

-- Equality of two dicts of a run.
abbrev pub same_comparison : ReplayComparison → ReplayComparison → Bool
same_comparison c d =
    nat_eq c.scenario_run_id d.scenario_run_id
    && nat_eq c.command_id d.command_id
    && c.request_sha256 == d.request_sha256
    && c.stored_result_sha256 == d.stored_result_sha256
    && c.replayed_result_sha256 == d.replayed_result_sha256
    && same_bool c.same_result d.same_result
    && nat_eq c.new_event_count d.new_event_count
    && nat_eq c.new_invalidation_count d.new_invalidation_count

module _ (K : Coordinator) where
  -- `comparison`: the repository is read twice, and nothing is stored in between.
  abbrev pub comparison_of : State → ℕ → String → CommandResult → ReplayComparison
  comparison_of s command_id sha result =
      let run_id = result.snapshot.run.scenario_run_id in
      let event_count_before = length (list_events s.store run_id) in
      let invalidation_count_before = length (list_assessment_invalidations s.store run_id) in
      let event_count_after = length (list_events s.store run_id) in
      let invalidation_count_after = length (list_assessment_invalidations s.store run_id) in
      record {
        scenario_run_id = run_id;
        command_id = command_id;
        request_sha256 = sha;
        stored_result_sha256 = K.result_sha result;
        replayed_result_sha256 = K.result_sha result;
        same_result = true;
        new_event_count = event_count_after - event_count_before;
        new_invalidation_count = invalidation_count_after - invalidation_count_before;
      }

  -- The comparison is appended unless it is there already.
  abbrev pub compared : State → ReplayComparison → State
  compared s comparison =
      if any (same_comparison comparison) s.replay_comparisons
      then s
      else record s { replay_comparisons = s.replay_comparisons ++ (comparison ∷ []) }

  abbrev pub replayed : State → ℕ → String → CommandResult → State
  replayed s command_id sha result = compared s (comparison_of s command_id sha result)

  -- A command that was answered is answered from the table, or conflicts with it; a new one is
  -- answered by `body`.
  abbrev pub answered_or :
      State → ℕ → String → Result (CommandResult × State) → Result (CommandResult × State)
  answered_or s command_id sha body = elim (get_command_result s.store command_id) [
    | none ↦ body
    | some row ↦ elim (row.request_sha256 == sha) [
      | true ↦ ok (row.result, replayed s command_id sha row.result)
      | false ↦ err command_conflict
    ]
  ]
