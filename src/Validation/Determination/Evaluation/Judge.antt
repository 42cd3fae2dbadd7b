-- ===== src/Validation/Determination/Evaluation/Judge.antt =====
-- app/backend/ot_demo/modules/validation/determination.py: how `evaluate_machine_criteria` judges one
-- criterion by the sources of a frozen context.
use ot_engineering_demonstra.Base.{
  ℕ, nat_eq, Bool, none, some, List, [], ◌∷◌, map, map_m, contains, normalisation_error,
  determination_error, Result, ok, err, ◌>>=◌, if◌then◌else◌,
}
use ot_engineering_demonstra.Domain.Assurance.{
  CriterionFindingStatus, not_evaluated, satisfied, not_satisfied,
}
use ot_engineering_demonstra.Validation.{
  CriterionDefinition, DeterminationSourceRecord, DeterminationContext, CriterionFinding,
}
use ot_engineering_demonstra.Validation.Value.{Json, null}
use ot_engineering_demonstra.Validation.Store.{DeterminationStore, get_source}
use ot_engineering_demonstra.Validation.Determination.{
  DeterminationService, observed, absent, refused, compare_observed, finding,
}

-- The identifiers that a dict of the members is keyed by, in its order.
abbrev unique_ids : List ℕ → List ℕ
unique_ids [] = []
unique_ids (i ∷ is) = i ∷ without i (unique_ids is)
  where
    without : ℕ → List ℕ → List ℕ
    without i [] = []
    without i (j ∷ js) = if nat_eq i j then without i js else j ∷ without i js

unfoldable pub sources_of :
    DeterminationContext → DeterminationStore → Result (List DeterminationSourceRecord)
sources_of context store =
    map_m (λ i. get_source i store) (unique_ids (map (λ m. m.source_record_id) context.members))

pub record Candidate : Type 0 where
  pub source : DeterminationSourceRecord
  pub value : Json

module _ (service : DeterminationService) where
  -- The sources that are eligible for a criterion and have a value for its selector.
  abbrev pub candidates_of :
      CriterionDefinition → List DeterminationSourceRecord → Result (List Candidate)
  candidates_of criterion [] = ok []
  candidates_of criterion (source ∷ sources) =
      let rest = candidates_of criterion sources in
      if contains source.eligible_criterion_ids criterion.criterion_id
      then elim (service.resolve source criterion.source_selector) [
        | observed value ↦ rest >>= λ found. ok (record { source = source; value = value } ∷ found)
        | absent ↦ rest
        | refused ↦ err determination_error
      ]
      else rest

  -- An error of a profile is one of the determination; others pass.
  abbrev pub as_determination : Result Bool → Result Bool
  as_determination (ok matched) = ok matched
  as_determination (err normalisation_error) = err determination_error
  as_determination (err failure) = err failure

  abbrev pub judgement : Bool → CriterionFindingStatus
  judgement matched = if matched then satisfied else not_satisfied

  abbrev pub unresolved :
      DeterminationContext → CriterionDefinition → List Candidate → ℕ → Result CriterionFinding
  unresolved context criterion candidates finding_id =
      finding context criterion null not_evaluated (map (λ c. c.source) candidates) none []
        finding_id

  -- Exactly one candidate is compared; none or several leave the criterion unevaluated.
  abbrev pub judge :
      DeterminationContext → CriterionDefinition → ℕ → ℕ → List Candidate → Result CriterionFinding
  judge context criterion evaluated_at finding_id [] = unresolved context criterion [] finding_id
  judge context criterion evaluated_at finding_id (c ∷ []) = do
    matched ← as_determination (compare_observed service criterion c.value)
    finding context criterion c.value (judgement matched) (c.source ∷ []) (some evaluated_at) []
        finding_id
  judge context criterion evaluated_at finding_id (c ∷ d ∷ cs) =
      unresolved context criterion (c ∷ d ∷ cs) finding_id

  unfoldable pub machine_finding :
      DeterminationContext
      → List DeterminationSourceRecord
      → ℕ
      → CriterionDefinition
      → ℕ
      → Result CriterionFinding
  machine_finding context sources evaluated_at criterion finding_id = do
    candidates ← candidates_of criterion sources
    judge context criterion evaluated_at finding_id candidates
