-- ===== src/Tests/Composite.antt =====
-- The theorems on composites at two cases, one that passed and one that is suspended.
use ot_engineering_demonstra.Base.{
  true, false, List, [], ◌∷◌, ok, ◌≡◌, refl, All, Pairwise, contains, distinct, str_leb, map, ◌==◌,
  ◌++◌, ◌↔◌,
}
use ot_engineering_demonstra.Base.Sort.{sort_by, insert_by}
use ot_engineering_demonstra.Domain.Assurance.{
  ValidationVerdict, pass_verdict, fail_verdict, blocked_test,
}
use ot_engineering_demonstra.Domain.Composite.{is_finalised_composite, is_complete_composite}
use ot_engineering_demonstra.Scenario.Store.{get_run}
use ot_engineering_demonstra.Validation.{LoadedValidationDefinition}
use ot_engineering_demonstra.Validation.Value.{json_equal}
use ot_engineering_demonstra.Validation.Catalogue.{get}
use ot_engineering_demonstra.Validation.Evidence.{
  CompositeValidationResult, link_valid, composite_valid,
}
use ot_engineering_demonstra.Validation.Store.{
  get_target, get_attempt, get_execution, get_executed_result, get_suspension, get_result,
  list_evidence, has_executed_result_for_attempt, store_if,
}
use ot_engineering_demonstra.Validation.Store.Composites.{
  get_composite, insert_composite, update_composite, replace_composite,
}
use ot_engineering_demonstra.Validation.Store.Action.{commit, write, ◌>>=◌}
use ot_engineering_demonstra.Validation.Composite.{
  aggregate_verdict, verified_executed_result, aggregable,
}
use ot_engineering_demonstra.Validation.Composite.Aggregate.{most_severe, aggregate_verdict_iff}
use ot_engineering_demonstra.Validation.Composite.Provenance.{
  resolve_suspension_source, pre_entry_source,
}
use ot_engineering_demonstra.Validation.Composite.Finalise.{
  finalise_composite, determined_composite, execution_verdict, suspension_verdict, finalised_as,
}
use ot_engineering_demonstra.Validation.Composite.Finalise.Supported.{
  Supported, finalise_composite-determined,
}
use ot_engineering_demonstra.Validation.Composite.Assemble.{
  assemble_composite, assembled, composite_of, insert_assembled,
}
use ot_engineering_demonstra.Validation.Composite.Assemble.Execution.{
  add_execution, add_executions, finished_link,
}
use ot_engineering_demonstra.Validation.Composite.Assemble.Suspension.{
  add_suspension, add_suspensions, checked_source,
}
use ot_engineering_demonstra.Validation.Composite.Assemble.Covered.{Required, case_ids}
use ot_engineering_demonstra.Validation.Composite.Assemble.Complete.{assemble_composite_complete}
use ot_engineering_demonstra.Tests.Preserved.{composites, preserved, request, draft, stored}

-- A composite of the passed execution and the suspension is BLOCKED-TEST.
two_constituents_blocked :
    (assemble_composite composites request 500 >>= λ c. finalise_composite composites 500 40)
      preserved
    ≡ (
      ok (finalised_as draft blocked_test 40),
      record preserved { composites = finalised_as draft blocked_test 40 ∷ [] },
    )
unfolding assemble_composite assembled composite_of insert_assembled add_execution add_executions
    finished_link add_suspension add_suspensions checked_source insert_composite update_composite
    get_composite finalise_composite determined_composite execution_verdict suspension_verdict
    verified_executed_result aggregate_verdict resolve_suspension_source pre_entry_source get
    get_run get_target get_attempt get_execution get_executed_result get_result get_suspension
    list_evidence has_executed_result_for_attempt store_if sort_by insert_by str_leb link_valid
    composite_valid commit write ◌>>=◌ json_equal
two_constituents_blocked = refl

assemble_composite_complete_example :
    (definition : LoadedValidationDefinition) × (get composites.catalogue "VT-EXP-TWO-001"
      ≡ ok definition)
    × (draft.required_case_ids ≡ case_ids definition)
    × (is_finalised_composite draft.status ≡ false)
    × All
        (λ j. contains (map (λ l. l.case_id) draft.constituent_links) j ≡ true)
        (case_ids definition)
    × (distinct (map (λ l. l.case_id) draft.constituent_links) ≡ true)
    × All (Required definition) draft.constituent_links
    × (record preserved { composites = [] ++ (draft ∷ []) } ≡ stored)
unfolding assemble_composite assembled composite_of insert_assembled add_execution add_executions
    finished_link add_suspension add_suspensions checked_source insert_composite update_composite
    get_composite finalise_composite determined_composite execution_verdict suspension_verdict
    verified_executed_result aggregate_verdict resolve_suspension_source pre_entry_source get
    get_run get_target get_attempt get_execution get_executed_result get_result get_suspension
    list_evidence has_executed_result_for_attempt store_if sort_by insert_by str_leb link_valid
    composite_valid commit write ◌>>=◌ json_equal
assemble_composite_complete_example =
    assemble_composite_complete composites request 500 preserved {c = draft} {t = stored} refl refl

finalise_composite-determined_example :
    (before : CompositeValidationResult) × (verdicts : List ValidationVerdict) × (get_composite 500
        stored
      ≡ ok before)
    × (is_finalised_composite before.status ≡ false)
    × (is_complete_composite before.completeness.status ≡ true)
    × ((before.catalogue_sha256 == "k1") ≡ true)
    × Pairwise (Supported stored) before.constituent_links verdicts
    × (finalised_as before (most_severe verdicts) 40 ≡ finalised_as draft blocked_test 40)
    × (record stored {
      composites = replace_composite (finalised_as draft blocked_test 40) (draft ∷ []);
    }
        ≡ record preserved { composites = finalised_as draft blocked_test 40 ∷ [] })
unfolding assemble_composite assembled composite_of insert_assembled add_execution add_executions
    finished_link add_suspension add_suspensions checked_source insert_composite update_composite
    get_composite finalise_composite determined_composite execution_verdict suspension_verdict
    verified_executed_result aggregate_verdict resolve_suspension_source pre_entry_source get
    get_run get_target get_attempt get_execution get_executed_result get_result get_suspension
    list_evidence has_executed_result_for_attempt store_if sort_by insert_by str_leb link_valid
    composite_valid commit write ◌>>=◌ json_equal
finalise_composite-determined_example =
    finalise_composite-determined composites 500 40 stored {c = finalised_as draft blocked_test 40}
      {t = record preserved { composites = finalised_as draft blocked_test 40 ∷ [] }} refl

aggregate_verdict_iff_example :
    (aggregate_verdict (pass_verdict ∷ blocked_test ∷ fail_verdict ∷ []) ≡ ok fail_verdict) ↔ (
      (false ≡ false)
      × All (λ w. aggregable w ≡ true) (pass_verdict ∷ blocked_test ∷ fail_verdict ∷ [])
      × (most_severe (pass_verdict ∷ blocked_test ∷ fail_verdict ∷ []) ≡ fail_verdict))
aggregate_verdict_iff_example =
    aggregate_verdict_iff (pass_verdict ∷ blocked_test ∷ fail_verdict ∷ []) fail_verdict
