-- ===== src/Validation/Determination/Changes/Settled.antt =====
-- Once a determination has its result, its findings are what they were.
use ot_engineering_demonstra.Base.{
  ℕ, nat_eq, nat_eq_iff, Bool, true, false, ◌≡◌, refl, ap, ◌∙◌, subst, List, [], ◌∷◌, ◌++◌, any,
  filter, Bool-cases, inl, inr, arith,
}
use ot_engineering_demonstra.Validation.{CriterionFinding, ExecutedValidationResult}
use ot_engineering_demonstra.Validation.Store.{DeterminationStore, findings_of}
use ot_engineering_demonstra.Validation.Store.Write.{determined, finding_allowed}
use ot_engineering_demonstra.Validation.Store.Stored.{
  insert_produced_source-Same, insert_frozen_context-Same, capture_repeat_source_baseline-Same,
  bind_attempt_procedure_execution-stored, insert_finding-stored, insert_review_proposal-stored,
  finalise_review-stored, insert_result-stored,
}
use ot_engineering_demonstra.Validation.Determination.{DeterminationService}
use ot_engineering_demonstra.Validation.Determination.Changes.{
  Change, source_stored, baseline_captured, execution_bound, context_frozen, finding_stored,
  review_proposed, review_finalised, result_stored, Changes, unchanged, then_change,
}
use ot_engineering_demonstra.Validation.Determination.Changes.Calls.{Call, run_all, run_all-Changes}

abbrev Settles : ℕ → DeterminationStore → DeterminationStore → Type 0
Settles i s t =
    determined i s ≡ true → (determined i t ≡ true) × (findings_of i t ≡ findings_of i s)

same_tables :
    (i : ℕ) (s t : DeterminationStore)
    → t.findings ≡ s.findings
    → t.results ≡ s.results
    → Settles i s t
same_tables i s t f r d = (
  ap (λ rs. any (λ r. nat_eq r.determination_context_id i) rs) r ∙ d,
  ap (filter (λ f. nat_eq f.determination_context_id i)) f,
)

any-append :
    (p : ExecutedValidationResult → Bool) (xs ys : List ExecutedValidationResult)
    → any p xs ≡ true
    → any p (xs ++ ys) ≡ true
any-append p [] ys h = ground arith
any-append p (x ∷ xs) ys h = ground (arith, any-append p xs ys)

filter-other :
    (p : CriterionFinding → Bool) (fs : List CriterionFinding) (f : CriterionFinding)
    → p f ≡ false
    → filter p (fs ++ (f ∷ [])) ≡ filter p fs
filter-other p [] f h = rw h refl
filter-other p (g ∷ fs) f h = elim (Bool-cases (p g)) [
  | inl e ↦ rw e (ap (λ gs. g ∷ gs) (filter-other p fs f h))
  | inr e ↦ rw e (filter-other p fs f h)
]

-- A finding is stored only where there is no result.
finding-Settles :
    (i : ℕ) (s t : DeterminationStore) (f : CriterionFinding)
    → finding_allowed f s ≡ true
    → t.findings ≡ s.findings ++ (f ∷ [])
    → t.results ≡ s.results
    → Settles i s t
finding-Settles i s t f a e r d = (
  ap (λ rs. any (λ r. nat_eq r.determination_context_id i) rs) r ∙ d,
  ap (filter (λ f. nat_eq f.determination_context_id i)) e
      ∙ filter-other (λ f. nat_eq f.determination_context_id i) s.findings f other,
)
  where
    other : nat_eq f.determination_context_id i ≡ false
    other = elim (Bool-cases (nat_eq f.determination_context_id i)) [
      | inl t ↦
          let u : determined f.determination_context_id s ≡ false = ground arith in
          let p = (nat_eq_iff f.determination_context_id i).0 t in
          let v = subst (λ k. determined k s ≡ false) p u in ground arith
      | inr t ↦ t
    ]

module _ {service : DeterminationService} (i : ℕ) where
  Change-Settles : {s t : DeterminationStore} → Change service s t → Settles i s t
  Change-Settles {s} {t} (source_stored r h) =
      let k = insert_produced_source-Same r s h in same_tables i s t k.1 k.2
  Change-Settles {s} {t} (baseline_captured j k h) =
      let k = capture_repeat_source_baseline-Same j k s h in same_tables i s t k.1 k.2
  Change-Settles {s} {t} (execution_bound a e h) =
      let (n, k) = bind_attempt_procedure_execution-stored a e s h in same_tables i s t k.1 k.2
  Change-Settles {s} {t} (context_frozen c h) =
      let k = insert_frozen_context-Same c s h in same_tables i s t k.1 k.2
  Change-Settles {s} {t} (finding_stored f h) =
      let (a, k) = insert_finding-stored f s h in finding-Settles i s t f a k.1 k.2
  Change-Settles {s} {t} (review_proposed j c f actor u id p e h) =
      let (n, k) = insert_review_proposal-stored p s h in same_tables i s t k.1 k.2
  Change-Settles {s} {t} (review_finalised j actor f u rid fid o e h) =
      let (a, k) = finalise_review-stored o.finalisation o.made s h in
      finding-Settles i s t o.made a k.1 k.2
  Change-Settles {s} {t} (result_stored j u id r e h) =
      let (a, x, k) = insert_result-stored r s h in
      λ d. (
        ap (λ rs. any (λ r. nat_eq r.determination_context_id i) rs) k.2
            ∙ any-append _ s.results (r ∷ []) d,
        ap (filter (λ f. nat_eq f.determination_context_id i)) k.1,
      )

  Changes-Settles : {s t : DeterminationStore} → Changes service s t → Settles i s t
  Changes-Settles unchanged d = (d, refl)
  Changes-Settles (then_change a c) d =
      let (d1, f1) = Changes-Settles a d in let (d2, f2) = Change-Settles c d1 in (d2, f2 ∙ f1)

-- Once a context has its result, no sequence of calls of the service, whether they return or raise,
-- changes the findings of the context or takes the result away.
pub run_all-settled :
    (service : DeterminationService) (calls : List Call) (s : DeterminationStore) (context_id : ℕ)
    → determined context_id s ≡ true
    → (determined context_id (run_all service calls s) ≡ true)
      × (findings_of context_id (run_all service calls s) ≡ findings_of context_id s)
run_all-settled service calls s i d = Changes-Settles i (run_all-Changes service calls s) d
