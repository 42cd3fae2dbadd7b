-- ===== src/Validation/Determination/Evaluation/Decided.antt =====
-- What a finding of `evaluate_machine_criteria` says of its criterion.
use ot_engineering_demonstra.Base.{
  String, ℕ, ◌≡◌, refl, ap, ◌∙◌, subst, Option, List, [], ◌∷◌, map, guard-ok, validation_error, ok,
  >>=-eq-ok, Bool-cases, inl, inr, ◌⊎◌, Bool, none, some, true, false, Result, err,
  normalisation_error,
}
use ot_engineering_demonstra.Domain.Assurance.{
  CriterionFindingStatus, satisfied, not_satisfied, not_evaluated,
}
use ot_engineering_demonstra.Validation.Value.{Json, null}
use ot_engineering_demonstra.Validation.{
  CriterionDefinition, DeterminationSourceRecord, DeterminationContext, CriterionFinding,
  finding_valid,
}
use ot_engineering_demonstra.Validation.Determination.{
  DeterminationService, finding, new_finding, compare_observed,
}
use ot_engineering_demonstra.Validation.Determination.Evaluation.Judge.{
  machine_finding, judge, judgement, candidates_of, Candidate, as_determination,
}

-- A finding is of the criterion and the context that it was made for, and says what it was made of.
abbrev IsOf :
    DeterminationContext
    → CriterionDefinition
    → Json
    → CriterionFindingStatus
    → List DeterminationSourceRecord
    → Option ℕ
    → CriterionFinding
    → Type 0
IsOf x c v st sources t f =
    (f.criterion_id ≡ c.criterion_id)
    × (f.determination_context_id ≡ x.determination_context_id)
    × (f.observed_value ≡ v)
    × (f.status ≡ st)
    × (f.source_record_ids ≡ map (λ r. r.source_record_id) sources)
    × (f.finalised_at ≡ t)

-- A finding that leaves its criterion open: it observes nothing and is not finalised.
abbrev Unresolved : CriterionFinding → Type 0
Unresolved f = (f.status ≡ not_evaluated) × (f.observed_value ≡ null) × (f.finalised_at ≡ none)

-- What a finding says by the candidates: the only one is observed, and the criterion is satisfied
-- exactly where the value matches; none or several leave it open.
abbrev pub Decided :
    DeterminationService → ℕ → CriterionDefinition → List Candidate → CriterionFinding → Type 0
Decided service t c [] f = Unresolved f
Decided service t c (d ∷ []) f =
    (f.observed_value ≡ d.value)
    × (f.source_record_ids ≡ d.source.source_record_id ∷ [])
    × (f.finalised_at ≡ some t)
    × (((compare_observed service c d.value ≡ ok true) × (f.status ≡ satisfied))
        ⊎ ((compare_observed service c d.value ≡ ok false) × (f.status ≡ not_satisfied)))
Decided service t c (d ∷ e ∷ ds) f = Unresolved f

-- A finding is of the criterion, and decided by the candidates among the sources.
abbrev pub JudgedBy :
    DeterminationService
    → ℕ
    → List DeterminationSourceRecord
    → CriterionDefinition
    → CriterionFinding
    → Type 0
JudgedBy service t sources c f =
    (f.criterion_id ≡ c.criterion_id)
    × (candidates : List Candidate) × (candidates_of service c sources ≡ ok candidates)
    × Decided service t c candidates f

as_determination-eq-ok :
    (service : DeterminationService) (r : Result Bool) {b : Bool}
    → as_determination service r ≡ ok b
    → r ≡ ok b
as_determination-eq-ok service (ok a) h = h
as_determination-eq-ok service (err normalisation_error) h = cc
as_determination-eq-ok service (err failure) h = cc

finding-IsOf :
    (x : DeterminationContext) (c : CriterionDefinition) (v : Json) (st : CriterionFindingStatus)
    (sources : List DeterminationSourceRecord) (t : Option ℕ) (refs : List String) (id : ℕ)
    {f : CriterionFinding}
    → finding x c v st sources t refs id ≡ ok f
    → IsOf x c v st sources t f
unfolding finding
finding-IsOf x c v st sources t refs id h =
    let result = new_finding x c v st sources t refs id in
    subst (IsOf x c v st sources t) (guard-ok (finding_valid result) validation_error result h)
      (refl, refl, refl, refl, refl, refl)

module _ (service : DeterminationService) (x : DeterminationContext) where
  judge-Decided :
      (c : CriterionDefinition) (t id : ℕ) (candidates : List Candidate) {f : CriterionFinding}
      → judge service x c t id candidates ≡ ok f
      → (f.criterion_id ≡ c.criterion_id)
        × (f.determination_context_id ≡ x.determination_context_id)
        × Decided service t c candidates f
  judge-Decided c t id [] h = let k = finding-IsOf x c _ _ _ _ _ id h in (k.0, k.1, (k.3, k.2, k.5))
  judge-Decided c t id (d ∷ []) h =
      let (matched, m, h1) =
        >>=-eq-ok (as_determination service (compare_observed service c d.value)) _ h in
      let e = as_determination-eq-ok service _ m in
      let k = finding-IsOf x c _ _ _ _ _ id h1 in
      elim (Bool-cases matched) [
        | inl y ↦ (k.0, k.1, (k.2, k.4, k.5, inl (e ∙ ap ok y, k.3 ∙ ap (judgement service) y)))
        | inr n ↦ (k.0, k.1, (k.2, k.4, k.5, inr (e ∙ ap ok n, k.3 ∙ ap (judgement service) n)))
      ]
  judge-Decided c t id (d ∷ e ∷ ds) h =
      let k = finding-IsOf x c _ _ _ _ _ id h in (k.0, k.1, (k.3, k.2, k.5))

  pub machine_finding-JudgedBy :
      (sources : List DeterminationSourceRecord) (t : ℕ) (c : CriterionDefinition) (id : ℕ)
      {f : CriterionFinding}
      → machine_finding service x sources t c id ≡ ok f
      → (f.determination_context_id ≡ x.determination_context_id) × JudgedBy service t sources c f
  unfolding machine_finding
  machine_finding-JudgedBy sources t c id h =
      let (candidates, k, h1) = >>=-eq-ok (candidates_of service c sources) _ h in
      let (named, within, decided) = judge-Decided c t id candidates h1 in
      (within, (named, candidates, k, decided))
