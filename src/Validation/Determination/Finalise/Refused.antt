-- ===== src/Validation/Determination/Finalise/Refused.antt =====
-- What `finalise_result` leaves behind when it raises.
use ot_engineering_demonstra.Base.{
  ℕ, false, ◌≡◌, refl, All, ok, err, determination_error, Bool-cases, inl, inr,
}
use ot_engineering_demonstra.Domain.Assurance.{is_complete}
use ot_engineering_demonstra.Validation.{
  DeterminationCompleteness, DeterminationContext, DeterminationMethodDefinition,
}
use ot_engineering_demonstra.Validation.Store.{DeterminationStore, get_context, list_findings}
use ot_engineering_demonstra.Validation.Store.Action.{commit, ◌>>=◌}
use ot_engineering_demonstra.Validation.Determination.{
  DeterminationService, completeness, completeness_of, method_of,
}
use ot_engineering_demonstra.Validation.Determination.Finalise.{determined_result, finalise_result}
use ot_engineering_demonstra.Validation.Determination.Finalise.Complete.{
  completeness-eq-ok, completeness_of_complete, is_complete_set_iff, DecidedOnce, Required,
}

determined_result-incomplete :
    (service : DeterminationService) (i t id : ℕ) (s : DeterminationStore)
    (c : DeterminationCompleteness)
    → completeness service i s ≡ ok c
    → is_complete c.status ≡ false
    → determined_result service i t id s ≡ err determination_error
unfolding determined_result
determined_result-incomplete service i t id s c h n =
    let (context, method, g, m, e) = completeness-eq-ok service i s h in rw (g, h, n) refl

-- While some required criterion does not have exactly one finding, which is evaluated, or some
-- finding is of another criterion, `finalise_result` raises the error of the determination boundary
-- and leaves the store as it was.
pub finalise_result-incomplete :
    (service : DeterminationService) (context_id finalised_at result_id : ℕ)
    (s : DeterminationStore) (context : DeterminationContext)
    (method : DeterminationMethodDefinition)
    → get_context context_id s ≡ ok context
    → method_of service context ≡ ok method
    → ¬ (
        All (DecidedOnce (list_findings context_id s)) method.criterion_ids
        × All (Required method.criterion_ids) (list_findings context_id s))
    → finalise_result service context_id finalised_at result_id s ≡ (err determination_error, s)
unfolding finalise_result commit ◌>>=◌ completeness
finalise_result-incomplete service i t id s context method g m lacks =
    let findings = list_findings i s in
    let c = completeness_of method.criterion_ids findings in
    let found : completeness service i s ≡ ok c = rw (g, m) refl in
    let open_set : is_complete c.status ≡ false = elim (Bool-cases (is_complete c.status)) [
      | inr e ↦ e
      | inl e ↦ absurd (
          lacks (
            (is_complete_set_iff method.criterion_ids findings).0
              (completeness_of_complete method.criterion_ids findings e)))
    ] in
    rw (determined_result-incomplete service i t id s c found open_set) refl
