-- ===== src/Validation/Determination/Finalise/Complete.antt =====
-- When a determination is complete, and what its verdict says of each criterion.
use ot_engineering_demonstra.Base.{
  String, ℕ, ◌≤◌, nat_eq_iff, ltb, true, false, not, ◌≡◌, refl, sym, ap, ◌∙◌, ◌↔◌, List, [], ◌∷◌,
  All, All-mono, All-both, filter, length, contains, dedup, sum_of, Bool-cases, inl, inr, arith, ok,
  >>=-eq-ok, ok-injective,
}
use ot_engineering_demonstra.Base.Count.{
  length-filter-All, All-length-filter, is_empty-filter, All-is_empty-filter, sum_of-ones,
  sum_of-count, contains-dedup, distinct-dedup, All-dedup, All-of_dedup,
}
use ot_engineering_demonstra.Domain.Assurance.{is_complete}
use ot_engineering_demonstra.Validation.{
  CriterionFinding, DeterminationCompleteness, DeterminationContext, DeterminationMethodDefinition,
}
use ot_engineering_demonstra.Validation.Store.{DeterminationStore, get_context, list_findings}
use ot_engineering_demonstra.Validation.Determination.{
  DeterminationService, completeness, completeness_of, method_of, evaluated_ids, occurrences,
  is_complete_set,
}

-- A criterion has one finding, which is evaluated.
abbrev pub DecidedOnce : List CriterionFinding → String → Type 0
DecidedOnce findings i = (occurrences i findings ≡ 1) × (contains (evaluated_ids findings) i ≡ true)

abbrev pub Required : List String → CriterionFinding → Type 0
Required required f = contains required f.criterion_id ≡ true

evaluated-occurs :
    (findings : List CriterionFinding) (i : String)
    → contains (evaluated_ids findings) i ≡ true
    → 1 ≤ occurrences i findings
evaluated-occurs [] i h = ground arith
evaluated-occurs (f ∷ fs) i h = ground (arith, evaluated-occurs fs i)

module _ (required : List String) (findings : List CriterionFinding) where
  once :
      (i : String)
      → not (contains (evaluated_ids findings) i) ≡ false
      → ltb 1 (occurrences i findings) ≡ false
      → DecidedOnce findings i
  once i m d =
      let e : contains (evaluated_ids findings) i ≡ true = ground arith in
      (ground (arith, evaluated-occurs findings i e), e)

  total :
      sum_of (λ i. occurrences i findings) (dedup required)
      ≡ length (filter (λ f. contains (dedup required) f.criterion_id) findings)
  total = sum_of-count (λ f. f.criterion_id) (dedup required) findings (distinct-dedup required)

  is_complete_set-decided :
      is_complete_set required findings ≡ true
      → All (DecidedOnce findings) required × All (Required required) findings
  is_complete_set-decided h =
      let m = is_empty-filter _ (dedup required) (ground arith) in
      let d = is_empty-filter _ (dedup required) (ground arith) in
      let n : length findings ≡ length (dedup required) =
        (nat_eq_iff (length findings) (length (dedup required))).0 (ground arith) in
      let o =
        All-mono _ (DecidedOnce findings) (dedup required) (λ i p. once i p.0 p.1)
          (All-both _ _ (dedup required) m d) in
      let s = sum_of-ones _ (dedup required) (All-mono _ _ (dedup required) (λ i p. p.0) o) in
      let all_required =
        length-filter-All (λ f. contains (dedup required) f.criterion_id) findings
          (omega (arith, s, total, n)) in
      (
        All-of_dedup (DecidedOnce findings) required o,
        All-mono _ (Required required) findings
            (λ f c. sym (contains-dedup required f.criterion_id) ∙ c) all_required,
      )

  decided-is_complete_set :
      All (DecidedOnce findings) required × All (Required required) findings
      → is_complete_set required findings ≡ true
  decided-is_complete_set h =
      let o = All-dedup (DecidedOnce findings) required h.0 in
      let m =
        All-is_empty-filter (λ i. not (contains (evaluated_ids findings) i)) (dedup required)
          (All-mono _ _ (dedup required) (λ i p. ap not p.1) o) in
      let d =
        All-is_empty-filter (λ i. ltb 1 (occurrences i findings)) (dedup required)
          (All-mono _ _ (dedup required) (λ i p. rw (p.0) refl) o) in
      let s = sum_of-ones _ (dedup required) (All-mono _ _ (dedup required) (λ i p. p.0) o) in
      let c =
        All-length-filter (λ f. contains (dedup required) f.criterion_id) findings
          (All-mono _ _ findings (λ f p. contains-dedup required f.criterion_id ∙ p) h.1) in
      let n =
        (nat_eq_iff (length findings) (length (dedup required))).1 (omega (arith, s, total, c)) in
      rw (m, d, n) refl

  -- A determination is complete exactly when each required criterion has one finding, which is
  -- evaluated, and every finding is of a required criterion.
  pub is_complete_set_iff :
      (is_complete_set required findings ≡ true)
      ↔ (All (DecidedOnce findings) required × All (Required required) findings)
  is_complete_set_iff = (is_complete_set-decided, decided-is_complete_set)

pub completeness-eq-ok :
    (service : DeterminationService) (i : ℕ) (s : DeterminationStore)
    {c : DeterminationCompleteness}
    → completeness service i s ≡ ok c
    → (context : DeterminationContext) × (method : DeterminationMethodDefinition) × (get_context i s
        ≡ ok context)
      × (method_of service context ≡ ok method)
      × (completeness_of method.criterion_ids (list_findings i s) ≡ c)
unfolding completeness
completeness-eq-ok service i s h =
    let (context, g, h1) = >>=-eq-ok (get_context i s) _ h in
    let (method, m, h2) = >>=-eq-ok (method_of service context) _ h1 in
    (context, method, g, m, ok-injective h2)

pub completeness_of_complete :
    (required : List String) (fs : List CriterionFinding)
    → is_complete (completeness_of required fs).status ≡ true
    → is_complete_set required fs ≡ true
unfolding completeness_of
completeness_of_complete required fs h = elim (Bool-cases (is_complete_set required fs)) [
  | inl e ↦ e
  | inr e ↦ ground arith
]
