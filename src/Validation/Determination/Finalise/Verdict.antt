-- ===== src/Validation/Determination/Finalise/Verdict.antt =====
-- `finalise_result` against a specification of the verdict that knows only what was judged of each
-- criterion.
use mathlib.Core.Bool.{or-true}
use ot_engineering_demonstra.Base.{
  String, ◌==◌, eq_refl, eq_iff, ℕ, ◌≤◌, Bool, true, false, not, ◌&&◌, ◌≡◌, refl, sym, ap, ◌∙◌,
  subst, Option, none, some, List, [], ◌∷◌, All, All-mono, All-both, any-false, and_true,
  All-contains, All-any, any, find, contains, Bool-cases, Bool-ext, Option-cases, inl, inr, arith,
  if◌then◌else◌, is_some, ok, >>=-eq-ok, guard-eq-ok, ok-injective,
}
use ot_engineering_demonstra.Domain.Assurance.{
  CriterionFindingStatus, not_evaluated, satisfied, not_satisfied, is_not_satisfied,
  is_not_evaluated, ValidationVerdict, pass_verdict, fail_verdict, is_complete,
}
use ot_engineering_demonstra.Validation.{
  CriterionFinding, DeterminationCompleteness, DeterminationMethodDefinition, DeterminationContext,
  ExecutedValidationResult,
}
use ot_engineering_demonstra.Validation.Store.{DeterminationStore, get_context, list_findings}
use ot_engineering_demonstra.Validation.Store.Results.{insert_result}
use ot_engineering_demonstra.Validation.Store.Action.{commit-eq-ok}
use ot_engineering_demonstra.Validation.Determination.{
  DeterminationService, method_of, completeness, occurrences, evaluated_ids, is_complete_set,
}
use ot_engineering_demonstra.Validation.Determination.Finalise.{
  determined_result, finalise_result, verdict_of,
}
use ot_engineering_demonstra.Validation.Determination.Finalise.Complete.{
  completeness-eq-ok, completeness_of_complete, DecidedOnce, Required, is_complete_set_iff,
}

-- What a finding says: nothing where it is not evaluated.
abbrev judgement : CriterionFindingStatus → Option Bool
judgement not_evaluated = none
judgement satisfied = some true
judgement not_satisfied = some false

abbrev pub judged : List CriterionFinding → String → Option Bool
judged findings i = elim (find (λ f. f.criterion_id == i) findings) [
  | none ↦ none
  | some f ↦ judgement f.status
]

-- A verdict needs a judgement of every required criterion, and passes when all are good.
abbrev pub specified_verdict : List String → (String → Option Bool) → Option ValidationVerdict
specified_verdict [] judge = some pass_verdict
specified_verdict (i ∷ is) judge =
    let rest = specified_verdict is judge in
    elim (judge i) [
      | none ↦ none
      | some good ↦ elim rest [
        | none ↦ none
        | some verdict ↦ some (if good then verdict else fail_verdict)
      ]
    ]

abbrev is_bad : Option Bool → Bool
is_bad none = false
is_bad (some good) = not good

occurs : (fs : List CriterionFinding) → All (λ f. 1 ≤ occurrences f.criterion_id fs) fs
occurs [] = tt
occurs (f ∷ fs) =
    (ground (arith, eq_refl f.criterion_id), All-mono _ _ fs (λ g h. ground (arith, h)) (occurs fs))

-- Where a criterion has one finding, that finding is what is judged of it.
judged_of :
    (fs : List CriterionFinding)
    → All
        (λ f. occurrences f.criterion_id fs ≡ 1 → judged fs f.criterion_id ≡ judgement f.status)
        fs
judged_of [] = tt
judged_of (f ∷ fs) = (
  λ e. ground (arith, eq_refl f.criterion_id),
  All-mono _ _ fs (λ g p. later g p.0 p.1) (All-both _ _ fs (occurs fs) (judged_of fs)),
)
  where
    later :
        (g : CriterionFinding)
        → 1 ≤ occurrences g.criterion_id fs
        → (occurrences g.criterion_id fs ≡ 1 → judged fs g.criterion_id ≡ judgement g.status)
        → occurrences g.criterion_id (f ∷ fs) ≡ 1
        → judged (f ∷ fs) g.criterion_id ≡ judgement g.status
    later g n ih e = elim (Bool-cases (f.criterion_id == g.criterion_id)) [
      | inl t ↦ ground arith
      | inr t ↦ rw (t, judged) (ih (ground arith))
    ]

-- A test that an element passes, or an identifier of the list.
any_intro :
    (p : CriterionFinding → Bool) (fs : List CriterionFinding)
    → All (λ f. p f ≡ true → any p fs ≡ true) fs
any_intro p [] = tt
any_intro p (f ∷ fs) =
    (λ t. rw t refl, All-mono _ _ fs (λ g k t. rw (k t) (or-true (p f))) (any_intro p fs))

contains-any :
    (p : String → Bool) (xs : List String) (a : String)
    → contains xs a ≡ true
    → p a ≡ true
    → any p xs ≡ true
contains-any p xs a c t = elim (Bool-cases (any p xs)) [
  | inl e ↦ e
  | inr e ↦ let f = All-contains _ xs a (any-false p xs e) c in ground arith
]

evaluated_any :
    (fs : List CriterionFinding) (i : String)
    → contains (evaluated_ids fs) i ≡ true
    → any (λ f. not (is_not_evaluated f.status) && f.criterion_id == i) fs ≡ true
evaluated_any [] i h = h
evaluated_any (f ∷ fs) i h = ground (arith, evaluated_any fs i)

-- What is kept of each finding below.
abbrev Known : List CriterionFinding → CriterionFinding → Type 0
Known fs f =
    (occurrences f.criterion_id fs ≡ 1 → judged fs f.criterion_id ≡ judgement f.status)
    × (is_not_satisfied f.status ≡ true → any (λ g. is_not_satisfied g.status) fs ≡ true)

known : (fs : List CriterionFinding) → All (Known fs) fs
known fs = All-both _ _ fs (judged_of fs) (any_intro (λ g. is_not_satisfied g.status) fs)

-- The finding that decides a criterion.
deciding :
    (fs : List CriterionFinding) (i : String)
    → DecidedOnce fs i
    → (f : CriterionFinding) × Known fs f
      × (is_not_evaluated f.status ≡ false)
      × (judged fs i ≡ judgement f.status)
deciding fs i d =
    let (f, k, t) = All-any (Known fs) _ fs (known fs) (evaluated_any fs i d.1) in
    let (e, q) = and_true _ _ t in
    let p = (eq_iff f.criterion_id i).0 q in
    let o = subst (λ j. occurrences j fs ≡ 1) (sym p) d.0 in
    (f, k, ground arith, subst (λ j. judged fs j ≡ judgement f.status) p (k.0 o))

judgement_evaluated :
    (s : CriterionFindingStatus) → is_not_evaluated s ≡ false → is_some (judgement s) ≡ true
judgement_evaluated not_evaluated h = ground arith
judgement_evaluated satisfied h = refl
judgement_evaluated not_satisfied h = refl

judgement_bad : (s : CriterionFindingStatus) → is_bad (judgement s) ≡ is_not_satisfied s
judgement_bad not_evaluated = refl
judgement_bad satisfied = refl
judgement_bad not_satisfied = refl

specified_verdict-All :
    (required : List String) (judge : String → Option Bool)
    → All (λ i. is_some (judge i) ≡ true) required
    → specified_verdict required judge
      ≡ some (if any (λ i. is_bad (judge i)) required then fail_verdict else pass_verdict)
specified_verdict-All [] judge h = refl
specified_verdict-All (i ∷ is) judge h =
    let ih = specified_verdict-All is judge h.1 in
    let s = h.0 in
    elim (Option-cases (judge i)) [ inl e ↦ ground arith | inr (good, e) ↦ ground arith ]

module _ (required : List String) (fs : List CriterionFinding) where
  bad_criterion :
      All (DecidedOnce fs) required
      → All (Required required) fs
      → any (λ f. is_not_satisfied f.status) fs ≡ any (λ i. is_bad (judged fs i)) required
  bad_criterion d r =
      Bool-ext _ _
        (λ t.
          let (f, k, b) =
            All-any _ (λ g. is_not_satisfied g.status) fs (All-both _ _ fs (judged_of fs) r) t in
          let o = All-contains (DecidedOnce fs) required f.criterion_id d k.1 in
          contains-any (λ i. is_bad (judged fs i)) required f.criterion_id k.1
            (ap is_bad (k.0 o.0) ∙ judgement_bad f.status ∙ b))
        (λ t.
          let (i, o, b) = All-any _ (λ j. is_bad (judged fs j)) required d t in
          let (f, k, e, j) = deciding fs i o in
          k.1 (sym (judgement_bad f.status) ∙ ap is_bad (sym j) ∙ b))

  complete-specified :
      is_complete_set required fs ≡ true
      → specified_verdict required (judged fs) ≡ some (verdict_of fs)
  complete-specified h =
      let (d, r) = (is_complete_set_iff required fs).0 h in
      let s = specified_verdict-All required (judged fs) (
        All-mono _ _ required
          (λ i o.
            let (f, k, e, j) = deciding fs i o in ap is_some j ∙ judgement_evaluated f.status e)
          d) in
      s ∙ ap (λ b. some (if b then fail_verdict else pass_verdict)) (sym (bad_criterion d r))

determined_result-eq-ok :
    (service : DeterminationService) (i t id : ℕ) (s : DeterminationStore)
    {r : ExecutedValidationResult}
    → determined_result service i t id s ≡ ok r
    → (c : DeterminationCompleteness) × (completeness service i s ≡ ok c)
      × (is_complete c.status ≡ true)
      × (verdict_of (list_findings i s) ≡ r.verdict)
unfolding determined_result
determined_result-eq-ok service i t id s h =
    let (context, g, h1) = >>=-eq-ok (get_context i s) _ h in
    let (c, k, h2) = >>=-eq-ok (completeness service i s) _ h1 in
    let (q, h3) = guard-eq-ok (is_complete c.status) _ _ h2 in
    let (e, h4) = guard-eq-ok _ _ _ h3 in (c, k, q, ap (λ r. r.verdict) (ok-injective h4))

-- `finalise_result` returns a result only where every required criterion of the method was judged,
-- by exactly one finding, and no other criterion has a finding. Its verdict is then the specified
-- one: PASS when every required criterion is satisfied, FAIL when one is not.
pub finalise_result-specified :
    (service : DeterminationService) (context_id finalised_at result_id : ℕ)
    (s : DeterminationStore) {r : ExecutedValidationResult} {s' : DeterminationStore}
    → finalise_result service context_id finalised_at result_id s ≡ (ok r, s')
    → (context : DeterminationContext) × (method : DeterminationMethodDefinition) × (get_context
          context_id s
        ≡ ok context)
      × (method_of service context ≡ ok method)
      × All (DecidedOnce (list_findings context_id s)) method.criterion_ids
      × All (Required method.criterion_ids) (list_findings context_id s)
      × (specified_verdict method.criterion_ids (judged (list_findings context_id s))
          ≡ some r.verdict)
unfolding finalise_result
finalise_result-specified service i t id s {r} h =
    let (d, w) = commit-eq-ok (determined_result service i t id) insert_result s h in
    let (c, k, q, v) = determined_result-eq-ok service i t id s d in
    let (context, method, g, m, e) = completeness-eq-ok service i s k in
    let n =
      completeness_of_complete method.criterion_ids (list_findings i s)
        (subst (λ c. is_complete c.status ≡ true) (sym e) q) in
    let (o, a) = (is_complete_set_iff method.criterion_ids (list_findings i s)).0 n in
    (
      context,
      method,
      g,
      m,
      o,
      a,
      complete-specified method.criterion_ids (list_findings i s) n ∙ ap some v,
    )
