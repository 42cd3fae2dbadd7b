-- ===== src/Validation/Determination/Evaluation/Judged.antt =====
-- What `evaluate_machine_criteria` leaves for the machine criteria of the method.
use ot_engineering_demonstra.Base.{
  String, ℕ, not, ◌&&◌, ◌≡◌, List, ◌++◌, map, All, contains, Bool, Pairwise,
}
use ot_engineering_demonstra.Domain.Assurance.{is_machine}
use ot_engineering_demonstra.Validation.{
  CriterionDefinition, DeterminationSourceRecord, DeterminationContext, CriterionFinding,
}
use ot_engineering_demonstra.Validation.Store.{DeterminationStore, findings_of}
use ot_engineering_demonstra.Validation.Store.Action.{>>=-eq-ok as action-eq-ok}
use ot_engineering_demonstra.Validation.Determination.{DeterminationService}
use ot_engineering_demonstra.Validation.Determination.Evaluation.Decided.{JudgedBy}

module _ (service : DeterminationService) (x : DeterminationContext) where
  abbrev Created :
      ℕ
      → List DeterminationSourceRecord
      → DeterminationStore
      → DeterminationStore
      → List CriterionDefinition
      → List CriterionFinding
      → Type 0
  Created evaluated_at sources s t opened created =
      Pairwise (JudgedBy service evaluated_at sources) opened created
      × (map (λ f. f.criterion_id) created ≡ map (λ c. c.criterion_id) opened)
      × (t.findings ≡ s.findings ++ created)
      × All (λ f. f.determination_context_id ≡ x.determination_context_id) created

-- The identifiers of the findings that a context has.
abbrev pub found_ids : ℕ → DeterminationStore → List String
found_ids i s = map (λ f. f.criterion_id) (findings_of i s)

-- The criteria of `cs` that have no finding of the context yet.
abbrev pub unjudged : ℕ → DeterminationStore → CriterionDefinition → Bool
unjudged i s c = is_machine c.kind && not (contains (found_ids i s) c.criterion_id)
