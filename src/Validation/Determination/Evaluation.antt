-- ===== src/Validation/Determination/Evaluation.antt =====
-- app/backend/ot_demo/modules/validation/determination.py: `evaluate_machine_criteria`.
pub mod Judge
pub mod Decided
pub mod Judged
use ot_engineering_demonstra.Base.{
  String, ℕ, Bool, true, false, not, ◌&&◌, ◌||◌, Option, none, some, List, [], ◌∷◌, map, contains,
  Result, if◌then◌else◌,
}
use ot_engineering_demonstra.Domain.Assurance.{is_machine}
use ot_engineering_demonstra.Validation.{
  CriterionDefinition, DeterminationSourceRecord, DeterminationContext, CriterionFinding,
}
use ot_engineering_demonstra.Validation.Store.{
  DeterminationStore, get_context, get_source, list_findings,
}
use ot_engineering_demonstra.Validation.Store.Write.{insert_finding}
use ot_engineering_demonstra.Validation.Store.Action.{
  Action, ◌>>=◌, ◌>>◌, pure, lift, read, look, write, commit,
}
use ot_engineering_demonstra.Validation.Determination.{DeterminationService, method_of}
use Judge.{sources_of, machine_finding}

-- `existing` is read before the loop.
abbrev pub open_machine : List String → CriterionDefinition → Bool
open_machine existing criterion =
    is_machine criterion.kind && not (contains existing criterion.criterion_id)

-- What `uuid4` gives for the finding of a criterion.
abbrev pub FindingIds : Type 0
FindingIds = String → ℕ

abbrev pub evaluate_criterion :
    DeterminationService
    → DeterminationContext
    → List DeterminationSourceRecord
    → ℕ
    → FindingIds
    → CriterionDefinition
    → Action CriterionFinding
evaluate_criterion service context sources evaluated_at ids criterion =
    commit
      (λ store.
        machine_finding service context sources evaluated_at criterion (ids criterion.criterion_id))
      insert_finding

-- The loop stores a finding before it goes on to the next criterion.
abbrev pub evaluate_all :
    DeterminationService
    → DeterminationContext
    → List DeterminationSourceRecord
    → ℕ
    → FindingIds
    → List String
    → List CriterionDefinition
    → Action (List CriterionFinding)
evaluate_all service context sources evaluated_at ids existing [] = pure []
evaluate_all service context sources evaluated_at ids existing (c ∷ cs) =
    let rest = evaluate_all service context sources evaluated_at ids existing cs in
    if open_machine existing c
    then (evaluate_criterion service context sources evaluated_at ids c >>= λ created.
        rest >>= λ later. pure (created ∷ later))
    else rest

unfoldable pub evaluate_machine_criteria :
    DeterminationService → ℕ → ℕ → FindingIds → Action (List CriterionFinding)
evaluate_machine_criteria service context_id evaluated_at ids = do
  context ← read (get_context context_id)
  method ← lift (method_of service context)
  existing ← look (λ store. map (λ f. f.criterion_id) (list_findings context_id store))
  sources ← read (sources_of context)
  evaluate_all service context sources evaluated_at ids existing method.criteria
