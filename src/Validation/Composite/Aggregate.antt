-- ===== src/Validation/Composite/Aggregate.antt =====
-- The aggregate verdict against an order of severity: PASS, then BLOCKED-TEST, then FAIL.
use ot_engineering_demonstra.Base.{
  Bool, true, false, not, ◌||◌, List, [], ◌∷◌, any, is_empty, All, ◌≡◌, refl, sym, ap, ◌∙◌, ◌↔◌,
  arith, ok, ok-injective, guard-eq-ok, validation_error_boundary, if◌then◌else◌,
}
use ot_engineering_demonstra.Domain.Assurance.{
  ValidationVerdict, pass_verdict, fail_verdict, not_run, blocked_test,
}
use ot_engineering_demonstra.Domain.Composite.{same_verdict}
use ot_engineering_demonstra.Validation.Evidence.{is_blocked_test}
use ot_engineering_demonstra.Validation.Composite.{aggregable, aggregate_verdict}

-- The more severe of two verdicts.
abbrev pub more_severe : ValidationVerdict → ValidationVerdict → ValidationVerdict
more_severe fail_verdict v = fail_verdict
more_severe blocked_test fail_verdict = fail_verdict
more_severe blocked_test pass_verdict = blocked_test
more_severe blocked_test not_run = blocked_test
more_severe blocked_test blocked_test = blocked_test
more_severe pass_verdict v = v
more_severe not_run v = v

-- The most severe of a list, PASS where it is empty.
abbrev pub most_severe : List ValidationVerdict → ValidationVerdict
most_severe [] = pass_verdict
most_severe (v ∷ vs) = more_severe v (most_severe vs)

abbrev chosen : Bool → Bool → ValidationVerdict
chosen failed blocked =
    if failed then fail_verdict else if blocked then blocked_test else pass_verdict

chosen-most_severe :
    (vs : List ValidationVerdict)
    → All (λ v. aggregable v ≡ true) vs
    → chosen (any (λ v. same_verdict v fail_verdict) vs) (any is_blocked_test vs) ≡ most_severe vs
chosen-most_severe [] h = refl
chosen-most_severe (v ∷ vs) h =
    step v (any (λ w. same_verdict w fail_verdict) vs) (any is_blocked_test vs) h.0
      (chosen-most_severe vs h.1)
  where
    step :
        (v : ValidationVerdict) (failed blocked : Bool) {w : ValidationVerdict}
        → aggregable v ≡ true
        → chosen failed blocked ≡ w
        → chosen (same_verdict v fail_verdict || failed) (is_blocked_test v || blocked)
          ≡ more_severe v w
    step pass_verdict failed blocked a h = h
    step fail_verdict failed blocked a h = refl
    step not_run failed blocked a h = cc
    step blocked_test true blocked {w} a h = rw (sym h) refl
    step blocked_test false true {w} a h = rw (sym h) refl
    step blocked_test false false {w} a h = rw (sym h) refl

All-aggregable :
    (vs : List ValidationVerdict)
    → any (λ v. not (aggregable v)) vs ≡ false
    → All (λ v. aggregable v ≡ true) vs
All-aggregable [] h = tt
All-aggregable (v ∷ vs) h = (ground arith, All-aggregable vs (ground arith))

none_refused :
    (vs : List ValidationVerdict)
    → All (λ v. aggregable v ≡ true) vs
    → any (λ v. not (aggregable v)) vs ≡ false
none_refused [] h = refl
none_refused (v ∷ vs) h = rw (h.0) (none_refused vs h.1)

-- `_aggregate_verdict` returns a verdict exactly of the lists that are not empty and hold only PASS,
-- FAIL and BLOCKED-TEST, and it is the most severe of the list: FAIL before BLOCKED-TEST before PASS.
pub aggregate_verdict_iff :
    (vs : List ValidationVerdict) (v : ValidationVerdict)
    → (aggregate_verdict vs ≡ ok v)
      ↔ ((is_empty vs ≡ false) × All (λ w. aggregable w ≡ true) vs × (most_severe vs ≡ v))
unfolding aggregate_verdict
aggregate_verdict_iff vs v = (forth, back)
  where
    forth :
        aggregate_verdict vs ≡ ok v
        → (is_empty vs ≡ false) × All (λ w. aggregable w ≡ true) vs × (most_severe vs ≡ v)
    forth h =
        let (g, e) =
          guard-eq-ok (not (is_empty vs || any (λ w. not (aggregable w)) vs))
            validation_error_boundary _ h in
        let a = All-aggregable vs (ground arith) in
        (ground arith, a, sym (chosen-most_severe vs a) ∙ ok-injective e)

    back :
        (is_empty vs ≡ false) × All (λ w. aggregable w ≡ true) vs × (most_severe vs ≡ v)
        → aggregate_verdict vs ≡ ok v
    back (n, a, e) = rw (n, none_refused vs a) (ap ok (chosen-most_severe vs a ∙ e))
