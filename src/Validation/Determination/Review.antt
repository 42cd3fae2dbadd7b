-- ===== src/Validation/Determination/Review.antt =====
-- app/backend/ot_demo/modules/validation/actor_roles.py and determination.py: an engineering review,
-- which one actor proposes and another finalises.
use ot_engineering_demonstra.Base.{
  String, ◌==◌, ◌<>◌, ℕ, Bool, false, not, Option, none, some, List, [], ◌∷◌, is_empty, dedup,
  str_leb, concat_m, determination_error, validation_error, Result, ok, guard, ◌>>=◌, ◌>>◌, lookup,
  Dict,
}
use ot_engineering_demonstra.Base.Sort.{sort_by}
use ot_engineering_demonstra.Domain.Assurance.{
  CriterionFindingStatus, not_evaluated, satisfied, not_satisfied, is_machine, is_not_evaluated,
}
use ot_engineering_demonstra.Validation.{
  CriterionDefinition, DeterminationContextMember, CriterionFinding, EngineeringReviewProposal,
  EngineeringReviewFinalisation,
}
use ot_engineering_demonstra.Validation.Value.{text}
use ot_engineering_demonstra.Validation.Catalogue.{get_criterion}
use ot_engineering_demonstra.Validation.Store.{
  DeterminationStore, get_context, get_source, get_review_proposal,
}
use ot_engineering_demonstra.Validation.Store.Write.{insert_review_proposal, finalise_review}
use ot_engineering_demonstra.Validation.Store.Action.{Action, commit}
use ot_engineering_demonstra.Validation.Determination.{DeterminationService, finding}

abbrev controlled_local_actor_roles : Dict String
controlled_local_actor_roles =
    ("graduate-engineer", "GRADUATE_ENGINEER")
    ∷ ("independent-reviewer", "INDEPENDENT_ENGINEERING_REVIEWER")
    ∷ ("backend-integrity-monitor", "BACKEND_ASSURANCE_PROPOSER")
    ∷ ("backend-assurance-reviewer", "BACKEND_ASSURANCE_REVIEWER")
    ∷ []

unfoldable pub controlled_actor_role : String → Option String
controlled_actor_role actor_id = lookup actor_id controlled_local_actor_roles

abbrev pub has_role : String → String → Bool
has_role role actor_id = elim (controlled_actor_role actor_id) [ none ↦ false | some r ↦ r == role ]

unfoldable pub review_criterion :
    DeterminationService → ℕ → String → DeterminationStore → Result CriterionDefinition
review_criterion service context_id criterion_id store = do
  context ← get_context context_id store
  criterion ← get_criterion service.catalogue context.test_id criterion_id context.case_id
  guard (not (is_machine criterion.kind)) determination_error
  ok criterion

abbrev pub member_references :
    DeterminationService → DeterminationStore → DeterminationContextMember → Result (List String)
member_references service store m = do
  source ← get_source m.source_record_id store
  ok (
      ("determination-source:"
        <> service.uuid_text m.source_record_id
        <> ":"
        <> m.source_record_sha256)
      ∷ source.evidence_references)

-- The proposal that an engineer makes of the frozen evidence.
unfoldable pub proposed_review :
    DeterminationService
    → ℕ
    → String
    → CriterionFindingStatus
    → String
    → ℕ
    → ℕ
    → DeterminationStore
    → Result EngineeringReviewProposal
proposed_review service context_id criterion_id proposed actor proposed_at proposal_id store = do
  criterion ← review_criterion service context_id criterion_id store
  guard (has_role "GRADUATE_ENGINEER" actor) determination_error
  context ← get_context context_id store
  references ← concat_m (member_references service store) context.members
  guard (not (is_empty references)) determination_error
  guard (not (is_not_evaluated proposed)) validation_error
  ok (record {
    review_proposal_id = proposal_id;
    determination_context_id = context_id;
    criterion_id = criterion.criterion_id;
    proposed_finding = proposed;
    proposer_actor_id = actor;
    proposer_role = "GRADUATE_ENGINEER";
    evidence_references = sort_by str_leb (dedup references);
    proposed_at = proposed_at;
  })

unfoldable pub propose_review_finding :
    DeterminationService
    → ℕ
    → String
    → CriterionFindingStatus
    → String
    → ℕ
    → ℕ
    → Action EngineeringReviewProposal
propose_review_finding service context_id criterion_id proposed actor proposed_at proposal_id =
    commit (proposed_review service context_id criterion_id proposed actor proposed_at proposal_id)
      (λ proposal. insert_review_proposal proposal)

abbrev pub finding_value : CriterionFindingStatus → String
finding_value not_evaluated = "NOT_EVALUATED"
finding_value satisfied = "SATISFIED"
finding_value not_satisfied = "NOT_SATISFIED"

-- What a finalised review stores; the method returns the finding.
pub record ReviewOutcome : Type 0 where
  pub finalisation : EngineeringReviewFinalisation
  pub made : CriterionFinding

-- The finalisation, and the finding that it makes. Their identifiers are given.
unfoldable pub reviewed :
    DeterminationService
    → ℕ
    → String
    → CriterionFindingStatus
    → ℕ
    → ℕ
    → ℕ
    → DeterminationStore
    → Result ReviewOutcome
reviewed service proposal_id actor final finalised_at finalisation_id finding_id store = do
  proposal ← get_review_proposal proposal_id store
  criterion ← review_criterion service proposal.determination_context_id proposal.criterion_id store
  guard (has_role "INDEPENDENT_ENGINEERING_REVIEWER" actor) determination_error
  guard (not (actor == proposal.proposer_actor_id)) determination_error
  guard (not (is_not_evaluated final)) validation_error
  context ← get_context proposal.determination_context_id store
  made ←
      finding context criterion (text (finding_value final)) final [] (some finalised_at)
        proposal.evidence_references finding_id
  ok (record {
    finalisation = record {
      review_finalisation_id = finalisation_id;
      review_proposal_id = proposal.review_proposal_id;
      determination_context_id = proposal.determination_context_id;
      criterion_id = proposal.criterion_id;
      final_finding = final;
      reviewer_actor_id = actor;
      reviewer_role = "INDEPENDENT_ENGINEERING_REVIEWER";
      finalised_at = finalised_at;
    };
    made = made;
  })

unfoldable pub finalise_review_finding :
    DeterminationService → ℕ → String → CriterionFindingStatus → ℕ → ℕ → ℕ → Action ReviewOutcome
finalise_review_finding service proposal_id actor final finalised_at finalisation_id finding_id =
    commit (reviewed service proposal_id actor final finalised_at finalisation_id finding_id)
      (λ outcome. finalise_review outcome.finalisation outcome.made)
