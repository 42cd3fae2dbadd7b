-- ===== src/Validation/Composite/Finalise/Supported.antt =====
-- What stands behind the verdict of each constituent of a finalised composite.
use ot_engineering_demonstra.Base.{
  ℕ, Bool, true, false, not, some, List, any, ◌≡◌, sym, ap, ◌∙◌, ◌⊎◌, inl, inr, arith, Result, ok,
  err, >>=-eq-ok, guard-eq-ok, or_raise-eq-ok, if-eq-ok, ok-injective, same_by-eq, Pairwise,
  map_m-Pairwise, map_m, ◌==◌, validation_not_found, validation_error_boundary,
  suspension_provenance_error, assertion_error, some-injective, or_raise,
}
use ot_engineering_demonstra.Domain.Assurance.{ValidationVerdict, blocked_test, is_active_execution}
use ot_engineering_demonstra.Domain.Composite.{
  same_verdict, same_verdict-eq, is_complete_composite, is_finalised_composite,
  is_finalised_suspension, is_executed, is_suspended, is_execution_result,
}
use ot_engineering_demonstra.Validation.{
  ValidationAttempt, ValidationExecution, ExecutedValidationResult,
}
use ot_engineering_demonstra.Validation.Evidence.{
  EvidenceSnapshot, CompositeConstituentLink, CompositeValidationResult, ValidationSuspensionRecord,
}
use ot_engineering_demonstra.Validation.Store.{
  DeterminationStore, get_target, get_attempt, get_execution, get_executed_result, get_suspension,
  list_evidence, has_executed_result_for_attempt,
}
use ot_engineering_demonstra.Validation.Store.Composites.{
  get_composite, update_composite, is_draft_of, replace_composite,
}
use ot_engineering_demonstra.Validation.Store.Action.{commit-eq-ok}
use ot_engineering_demonstra.Validation.Composite.{
  CompositeService, aggregate_verdict, verified_executed_result, result_consistent,
  provenance_as_boundary, any_as_boundary,
}
use ot_engineering_demonstra.Validation.Composite.Aggregate.{most_severe, aggregate_verdict_iff}
use ot_engineering_demonstra.Validation.Composite.Provenance.{
  ResolvedSuspensionSource, resolve_suspension_source, attempt_bound,
}
use ot_engineering_demonstra.Validation.Composite.Finalise.{
  execution_resolves, execution_verdict, suspension_resolves, suspension_verdict, link_verdict,
  finalised_as, determined_composite, finalise_composite,
}

-- A finalised execution with its executed result, both of this verdict, whose attempt is executed.
abbrev pub Executed : DeterminationStore → CompositeConstituentLink → ValidationVerdict → Type 0
Executed store link verdict =
    (execution_id result_id attempt_id : ℕ) × (execution : ValidationExecution)
    × (result : ExecutedValidationResult) × (attempt : ValidationAttempt)
    × (link.validation_execution_id ≡ some execution_id)
    × (get_execution execution_id store ≡ ok execution)
    × (is_active_execution execution.status ≡ false)
    × (execution.verdict ≡ some verdict)
    × (execution.executed_result_id ≡ some result_id)
    × (get_executed_result result_id store ≡ ok result)
    × (result.verdict ≡ verdict)
    × (execution.validation_attempt_id ≡ some attempt_id)
    × (get_attempt attempt_id store ≡ ok attempt)
    × (is_executed attempt.status ≡ true)

-- A finalised suspension, whose attempt is suspended and has no result: the verdict is BLOCKED-TEST.
abbrev pub Suspended : DeterminationStore → CompositeConstituentLink → ValidationVerdict → Type 0
Suspended store link verdict =
    (record_id : ℕ) × (suspension : ValidationSuspensionRecord) × (attempt : ValidationAttempt)
    × (link.suspension_record_id ≡ some record_id)
    × (get_suspension record_id store ≡ ok suspension)
    × (is_finalised_suspension suspension.status ≡ true)
    × (get_attempt suspension.validation_attempt_id store ≡ ok attempt)
    × (is_suspended attempt.status ≡ true)
    × (has_executed_result_for_attempt attempt.validation_attempt_id store ≡ false)
    × (blocked_test ≡ verdict)

abbrev pub Supported : DeterminationStore → CompositeConstituentLink → ValidationVerdict → Type 0
Supported store link verdict =
    (link.constituent_verdict ≡ some verdict)
    × (Executed store link verdict ⊎ Suspended store link verdict)

any_as_boundary-eq-ok {ℓ} :
    {A : Type ℓ} (r : Result A) {a : A} → any_as_boundary r ≡ ok a → r ≡ ok a
any_as_boundary-eq-ok (ok a) h = h
any_as_boundary-eq-ok (err e) h = cc

provenance_as_boundary-eq-ok {ℓ} :
    {A : Type ℓ} (r : Result A) {a : A} → provenance_as_boundary r ≡ ok a → r ≡ ok a
provenance_as_boundary-eq-ok (ok a) h = h
provenance_as_boundary-eq-ok (err e) h = cc

-- An executed result that is verified is in the store, and so is its attempt.
verified_executed_result-eq-ok :
    (execution : ValidationExecution) (evidence : List EvidenceSnapshot) (s : DeterminationStore)
    {result : ExecutedValidationResult}
    → verified_executed_result execution evidence s ≡ ok result
    → (result_id attempt_id : ℕ) × (attempt : ValidationAttempt) × (execution.executed_result_id
        ≡ some result_id)
      × (get_executed_result result_id s ≡ ok result)
      × (execution.validation_attempt_id ≡ some attempt_id)
      × (get_attempt attempt_id s ≡ ok attempt)
      × (is_executed attempt.status ≡ true)
unfolding verified_executed_result
verified_executed_result-eq-ok execution evidence s {result} h =
    let (result_id, e1, h1) =
      >>=-eq-ok (or_raise execution.executed_result_id validation_error_boundary) _ h in
    let (attempt_id, e2, h2) =
      >>=-eq-ok (or_raise execution.validation_attempt_id validation_error_boundary) _ h1 in
    let (r, e3, h3) = >>=-eq-ok (any_as_boundary (get_executed_result result_id s)) _ h2 in
    let (attempt, e4, h4) = >>=-eq-ok (any_as_boundary (get_attempt attempt_id s)) _ h3 in
    let (g, e) =
      guard-eq-ok (result_consistent execution evidence r attempt) validation_error_boundary _ h4 in
    (
      result_id,
      attempt_id,
      attempt,
      or_raise-eq-ok _ _ e1,
      any_as_boundary-eq-ok _ e3 ∙ e,
      or_raise-eq-ok _ _ e2,
      any_as_boundary-eq-ok _ e4,
      ground arith,
    )

-- A suspension that resolves has a suspended attempt without a result.
resolve_suspension_source-eq-ok :
    (service : CompositeService) (suspension : ValidationSuspensionRecord) (s : DeterminationStore)
    {source : ResolvedSuspensionSource}
    → resolve_suspension_source service suspension s ≡ ok source
    → (attempt : ValidationAttempt) × (get_attempt suspension.validation_attempt_id s ≡ ok attempt)
      × (is_suspended attempt.status ≡ true)
      × (has_executed_result_for_attempt attempt.validation_attempt_id s ≡ false)
unfolding resolve_suspension_source
resolve_suspension_source-eq-ok service suspension s h =
    let (target, e1, h1) = >>=-eq-ok (get_target suspension.target_selection_id s) _ h in
    let (attempt, e2, h2) = >>=-eq-ok (get_attempt suspension.validation_attempt_id s) _ h1 in
    let (g, h3) =
      guard-eq-ok (attempt_bound service suspension target attempt s) suspension_provenance_error _
        h2 in
    (attempt, e2, ground arith, ground arith)

suspension_resolves-blocked :
    (link : CompositeConstituentLink) (suspension : ValidationSuspensionRecord)
    (source : ResolvedSuspensionSource)
    → suspension_resolves link suspension source ≡ true
    → (is_finalised_suspension suspension.status ≡ true)
      × (link.constituent_verdict ≡ some blocked_test)
suspension_resolves-blocked link suspension source h = (
  ground arith,
  same_by-eq same_verdict same_verdict-eq link.constituent_verdict (some blocked_test)
      (ground arith),
)

module _ (link : CompositeConstituentLink) (s : DeterminationStore)
    {verdict : ValidationVerdict} where
  execution_verdict-Supported : execution_verdict link s ≡ ok verdict → Supported s link verdict
  unfolding execution_verdict
  execution_verdict-Supported h =
      let (execution_id, e1, h1) =
        >>=-eq-ok (or_raise link.validation_execution_id assertion_error) _ h in
      let (execution, e2, h2) = >>=-eq-ok (get_execution execution_id s) _ h1 in
      let (result, e3, h3) =
        >>=-eq-ok
          (verified_executed_result execution (list_evidence execution.validation_execution_id s) s)
          _ h2 in
      let (g, h4) =
        guard-eq-ok (execution_resolves link execution result) validation_error_boundary _ h3 in
      let (result_id, attempt_id, attempt, i, f, j, a, x) =
        verified_executed_result-eq-ok execution _ s e3 in
      let v = or_raise-eq-ok execution.verdict _ h4 in
      let l =
        same_by-eq same_verdict same_verdict-eq execution.verdict link.constituent_verdict
          (ground arith) in
      let r =
        same_by-eq same_verdict same_verdict-eq (some result.verdict) link.constituent_verdict
          (ground arith) in
      (
        sym l ∙ v,
        inl (
          execution_id,
          result_id,
          attempt_id,
          execution,
          result,
          attempt,
          or_raise-eq-ok _ _ e1,
          e2,
          ground arith,
          v,
          i,
          f,
          some-injective (r ∙ sym l ∙ v),
          j,
          a,
          x,
        ),
      )

  suspension_verdict-Supported :
      (service : CompositeService)
      → suspension_verdict service link s ≡ ok verdict
      → Supported s link verdict
  unfolding suspension_verdict
  suspension_verdict-Supported service h =
      let (record_id, e1, h1) =
        >>=-eq-ok (or_raise link.suspension_record_id assertion_error) _ h in
      let (suspension, e2, h2) = >>=-eq-ok (get_suspension record_id s) _ h1 in
      let (source, e3, h3) =
        >>=-eq-ok (provenance_as_boundary (resolve_suspension_source service suspension s)) _ h2 in
      let (g, h4) =
        guard-eq-ok (suspension_resolves link suspension source) validation_error_boundary _ h3 in
      let (attempt, a, x, n) =
        resolve_suspension_source-eq-ok service suspension s (provenance_as_boundary-eq-ok _ e3) in
      let (f, l) = suspension_resolves-blocked link suspension source g in
      let v = ok-injective h4 in
      (
        l ∙ ap some v,
        inr (record_id, suspension, attempt, or_raise-eq-ok _ _ e1, e2, f, a, x, n, v),
      )

link_verdict-Supported :
    (service : CompositeService) (link : CompositeConstituentLink) (s : DeterminationStore)
    {verdict : ValidationVerdict}
    → link_verdict service s link ≡ ok verdict
    → Supported s link verdict
link_verdict-Supported service link s h =
    elim (if-eq-ok (is_execution_result link.source_kind) (execution_verdict link s)
      (suspension_verdict service link s) h) [
        | inl p ↦ execution_verdict-Supported link s p.1
        | inr p ↦ suspension_verdict-Supported link s service p.1
      ]

not-true : {b : Bool} → not b ≡ true → b ≡ false
not-true {b} h = ground arith

-- Where `finalise_composite` returns, it has found a draft that is complete and of the active
-- catalogue. Each constituent has a verdict that is the one of its link and is still supported in the
-- store: by a finalised execution with its executed result and attempt, or by a finalised
-- suspension of an attempt that has no result, which is BLOCKED-TEST. The determination is the
-- most severe of these verdicts, the links stay as they were, and only the draft is replaced.
pub finalise_composite-determined :
    (service : CompositeService) (i finalised_at : ℕ) (s : DeterminationStore)
    {c : CompositeValidationResult} {t : DeterminationStore}
    → finalise_composite service i finalised_at s ≡ (ok c, t)
    → (draft : CompositeValidationResult) × (verdicts : List ValidationVerdict) × (get_composite i s
        ≡ ok draft)
      × (is_finalised_composite draft.status ≡ false)
      × (is_complete_composite draft.completeness.status ≡ true)
      × ((draft.catalogue_sha256 == service.raw_catalogue_sha256) ≡ true)
      × Pairwise (Supported s) draft.constituent_links verdicts
      × (finalised_as draft (most_severe verdicts) finalised_at ≡ c)
      × (record s { composites = replace_composite c s.composites } ≡ t)
unfolding finalise_composite determined_composite update_composite
finalise_composite-determined service i finalised_at s {c} {t} h =
    let (d, w) = commit-eq-ok (determined_composite service i finalised_at) _ s h in
    let (draft, e1, h1) = >>=-eq-ok (get_composite i s) _ d in
    let (u, h2) =
      guard-eq-ok (not (is_finalised_composite draft.status)) validation_error_boundary _ h1 in
    let (v, h3) =
      guard-eq-ok (is_complete_composite draft.completeness.status) validation_error_boundary _
        h2 in
    let (x, h4) =
      guard-eq-ok (draft.catalogue_sha256 == service.raw_catalogue_sha256) validation_error_boundary
        _ h3 in
    let (verdicts, e5, h5) =
      >>=-eq-ok (map_m (link_verdict service s) draft.constituent_links) _ h4 in
    let (determination, e6, h6) = >>=-eq-ok (aggregate_verdict verdicts) _ h5 in
    let (n, a, m) = (aggregate_verdict_iff verdicts determination).0 e6 in
    let (y, z) =
      guard-eq-ok (any (is_draft_of c.composite_result_id) s.composites) validation_not_found _ w in
    (
      draft,
      verdicts,
      e1,
      not-true u,
      v,
      x,
      map_m-Pairwise (Supported s) (link_verdict service s) draft.constituent_links
          (λ link verdict e. link_verdict-Supported service link s e) e5,
      ap (λ q. finalised_as draft q finalised_at) m ∙ ok-injective h6,
      ok-injective z,
    )
