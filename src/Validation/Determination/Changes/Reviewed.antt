-- ===== src/Validation/Determination/Changes/Reviewed.antt =====
-- Engineering reviews are independent: who finalises one did not propose it.
use ot_engineering_demonstra.Base.{
  String, ◌==◌, ℕ, nat_eq, nat_eq_iff, Bool, true, false, not, ◌≡◌, refl, sym, subst, some, List,
  [], ◌∷◌, ◌++◌, All, All-append, All-mono, find, find-test, is_empty, concat_m, ok, >>=-eq-ok,
  guard-eq-ok, ok-injective, or_raise-eq-ok, Bool-cases, inl, inr, arith,
}
use ot_engineering_demonstra.Domain.Assurance.{CriterionFindingStatus, is_not_evaluated}
use ot_engineering_demonstra.Validation.{EngineeringReviewProposal, EngineeringReviewFinalisation}
use ot_engineering_demonstra.Validation.Value.{text}
use ot_engineering_demonstra.Validation.Store.{DeterminationStore, get_context, get_review_proposal}
use ot_engineering_demonstra.Validation.Store.Stored.{
  insert_produced_source-Same, insert_frozen_context-Same, capture_repeat_source_baseline-Same,
  bind_attempt_procedure_execution-stored, insert_finding-stored, insert_review_proposal-stored,
  finalise_review-stored, insert_result-stored,
}
use ot_engineering_demonstra.Validation.Determination.{DeterminationService, finding}
use ot_engineering_demonstra.Validation.Determination.Review.{
  has_role, review_criterion, member_references, finding_value, proposed_review, reviewed,
  ReviewOutcome,
}
use ot_engineering_demonstra.Validation.Determination.Changes.{
  Change, source_stored, baseline_captured, execution_bound, context_frozen, finding_stored,
  review_proposed, review_finalised, result_stored, Changes, unchanged, then_change,
}
use ot_engineering_demonstra.Validation.Determination.Changes.Calls.{Call, run_all, run_all-Changes}

-- The proposal of a finalisation is of the same criterion of the same context, and its actor is
-- another one; both have their controlled roles.
abbrev pub Independent : EngineeringReviewProposal → EngineeringReviewFinalisation → Type 0
Independent p f =
    (p.determination_context_id ≡ f.determination_context_id)
    × (p.criterion_id ≡ f.criterion_id)
    × ((f.reviewer_actor_id == p.proposer_actor_id) ≡ false)
    × (has_role "INDEPENDENT_ENGINEERING_REVIEWER" f.reviewer_actor_id ≡ true)

abbrev pub Reviewed : List EngineeringReviewProposal → EngineeringReviewFinalisation → Type 0
Reviewed proposals f =
    (p : EngineeringReviewProposal) × (find (λ q. nat_eq q.review_proposal_id f.review_proposal_id)
        proposals
      ≡ some p)
    × Independent p f

abbrev pub Eligible : EngineeringReviewProposal → Type 0
Eligible p = has_role "GRADUATE_ENGINEER" p.proposer_actor_id ≡ true

abbrev pub IsReviewed : DeterminationStore → Type 0
IsReviewed s = All Eligible s.proposals × All (Reviewed s.proposals) s.finalisations

find-append :
    (p : EngineeringReviewProposal → Bool) (xs ys : List EngineeringReviewProposal)
    {x : EngineeringReviewProposal}
    → find p xs ≡ some x
    → find p (xs ++ ys) ≡ some x
find-append p [] ys h = ground arith
find-append p (x ∷ xs) ys h = elim (Bool-cases (p x)) [
  | inl e ↦ rw e (rw e at h)
  | inr e ↦ rw e (find-append p xs ys (rw e at h))
]

proposed_review-Eligible :
    (service : DeterminationService) (i : ℕ) (c : String) (f : CriterionFindingStatus)
    (actor : String) (t id : ℕ) (s : DeterminationStore) {p : EngineeringReviewProposal}
    → proposed_review service i c f actor t id s ≡ ok p
    → Eligible p
unfolding proposed_review
proposed_review-Eligible service i c f actor t id s h =
    let (criterion, a, h1) = >>=-eq-ok (review_criterion service i c s) _ h in
    let (r, h2) = guard-eq-ok (has_role "GRADUATE_ENGINEER" actor) _ _ h1 in
    let (context, b, h3) = >>=-eq-ok (get_context i s) _ h2 in
    let (references, d, h4) =
      >>=-eq-ok (concat_m (member_references service s) context.members) _ h3 in
    let (e, h5) = guard-eq-ok (not (is_empty references)) _ _ h4 in
    let (g, h6) = guard-eq-ok (not (is_not_evaluated f)) _ _ h5 in
    subst Eligible (ok-injective h6) r

reviewed-Reviewed :
    (service : DeterminationService) (i : ℕ) (actor : String) (f : CriterionFindingStatus)
    (t rid fid : ℕ) (s : DeterminationStore) {o : ReviewOutcome}
    → reviewed service i actor f t rid fid s ≡ ok o
    → Reviewed s.proposals o.finalisation
unfolding reviewed get_review_proposal
reviewed-Reviewed service i actor f t rid fid s h =
    let (p, a, h1) = >>=-eq-ok (get_review_proposal i s) _ h in
    let (criterion, b, h2) =
      >>=-eq-ok (review_criterion service p.determination_context_id p.criterion_id s) _ h1 in
    let (r, h3) = guard-eq-ok (has_role "INDEPENDENT_ENGINEERING_REVIEWER" actor) _ _ h2 in
    let (d, h4) = guard-eq-ok (not (actor == p.proposer_actor_id)) _ _ h3 in
    let (e, h5) = guard-eq-ok (not (is_not_evaluated f)) _ _ h4 in
    let (context, g, h6) = >>=-eq-ok (get_context p.determination_context_id s) _ h5 in
    let (made, k, h7) =
      >>=-eq-ok
        (finding context criterion (text (finding_value f)) f [] (some t) p.evidence_references fid)
        _ h6 in
    let found = or_raise-eq-ok _ _ a in
    let same =
      (nat_eq_iff p.review_proposal_id i).0
        (find-test (λ q. nat_eq q.review_proposal_id i) s.proposals p found) in
    subst (λ o. Reviewed s.proposals o.finalisation) (ok-injective h7)
      (
        p,
        subst (λ j. find (λ q. nat_eq q.review_proposal_id j) s.proposals ≡ some p) (sym same)
            found,
        (refl, refl, ground arith, r),
      )

kept :
    (s t : DeterminationStore)
    → t.proposals ≡ s.proposals
    → t.finalisations ≡ s.finalisations
    → IsReviewed s
    → IsReviewed t
kept s t p q h = (
  subst (All Eligible) (sym p) h.0,
  subst (λ ps. All (Reviewed ps) t.finalisations) (sym p)
      (subst (All (Reviewed s.proposals)) (sym q) h.1),
)

module _ {service : DeterminationService} where
  Change-IsReviewed : {s t : DeterminationStore} → Change service s t → IsReviewed s → IsReviewed t
  Change-IsReviewed {s} {t} (source_stored r h) v =
      let k = insert_produced_source-Same r s h in kept s t k.3 k.4 v
  Change-IsReviewed {s} {t} (baseline_captured i j h) v =
      let k = capture_repeat_source_baseline-Same i j s h in kept s t k.3 k.4 v
  Change-IsReviewed {s} {t} (execution_bound a e h) v =
      let (n, k) = bind_attempt_procedure_execution-stored a e s h in kept s t k.3 k.4 v
  Change-IsReviewed {s} {t} (context_frozen c h) v =
      let k = insert_frozen_context-Same c s h in kept s t k.3 k.4 v
  Change-IsReviewed {s} {t} (finding_stored f h) v =
      let (a, k) = insert_finding-stored f s h in kept s t k.3 k.4 v
  Change-IsReviewed {s} {t} (result_stored i u id r e h) v =
      let (a, x, k) = insert_result-stored r s h in kept s t k.3 k.4 v
  Change-IsReviewed {s} {t} (review_proposed i c f actor u id p e h) v =
      let (n, k) = insert_review_proposal-stored p s h in
      (
        subst (All Eligible) (sym k.3) (
            All-append Eligible s.proposals (p ∷ []) v.0
              (proposed_review-Eligible service i c f actor u id s e, tt)),
        subst (λ ps. All (Reviewed ps) t.finalisations) (sym k.3)
            (subst (All (Reviewed (s.proposals ++ (p ∷ [])))) (sym k.4) (
              All-mono _ _ s.finalisations
                (λ q w. (w.0, find-append _ s.proposals (p ∷ []) w.1, w.2)) v.1)),
      )
  Change-IsReviewed {s} {t} (review_finalised i actor f u rid fid o e h) v =
      let (a, k) = finalise_review-stored o.finalisation o.made s h in
      (
        subst (All Eligible) (sym k.3) v.0,
        subst (λ ps. All (Reviewed ps) t.finalisations) (sym k.3)
            (subst (All (Reviewed s.proposals)) (sym k.4) (
              All-append _ s.finalisations (o.finalisation ∷ []) v.1
                (reviewed-Reviewed service i actor f u rid fid s e, tt))),
      )

  Changes-IsReviewed :
      {s t : DeterminationStore} → Changes service s t → IsReviewed s → IsReviewed t
  Changes-IsReviewed unchanged v = v
  Changes-IsReviewed (then_change a c) v = Change-IsReviewed c (Changes-IsReviewed a v)

-- Every sequence of calls keeps reviews independent: every proposal is a graduate engineer's, and
-- every finalisation is of a stored proposal for the same criterion of the same context, by an
-- independent reviewer who is not the proposer.
pub run_all-IsReviewed :
    (service : DeterminationService) (calls : List Call) (s : DeterminationStore)
    → IsReviewed s
    → IsReviewed (run_all service calls s)
run_all-IsReviewed service calls s v = Changes-IsReviewed (run_all-Changes service calls s) v
