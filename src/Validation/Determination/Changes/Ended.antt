-- ===== src/Validation/Determination/Changes/Ended.antt =====
-- The attempt of a result is executed, and stays so.
use ot_engineering_demonstra.Base.{
  ℕ, nat_eq, nat_eq_iff, true, ok, ◌&&◌, ◌≡◌, refl, sym, subst, List, [], ◌∷◌, ◌++◌, All,
  All-append, All-mono, All-any, and_true, any, find-test, Bool-cases, inl, inr, arith,
}
use ot_engineering_demonstra.Domain.Assurance.{executed, is_not_started, is_open_attempt}
use ot_engineering_demonstra.Validation.{ValidationAttempt, ExecutedValidationResult}
use ot_engineering_demonstra.Validation.Store.{DeterminationStore}
use ot_engineering_demonstra.Validation.Store.Write.{replace_attempt}
use ot_engineering_demonstra.Validation.Store.Stored.{
  Executes, insert_produced_source-Same, insert_frozen_context-Same,
  capture_repeat_source_baseline-Same, bind_attempt_procedure_execution-stored,
  insert_finding-stored, insert_review_proposal-stored, finalise_review-stored,
  insert_result-stored,
}
use ot_engineering_demonstra.Validation.Store.Executions.{Binds}
use ot_engineering_demonstra.Validation.Store.Suspensions.{
  insert_finalised_suspension, insert_finalised_suspension-stored, is_open_row,
}
use ot_engineering_demonstra.Validation.Evidence.{ValidationSuspensionRecord}
use ot_engineering_demonstra.Validation.Determination.{DeterminationService}
use ot_engineering_demonstra.Validation.Determination.Changes.{
  Change, source_stored, baseline_captured, execution_bound, context_frozen, finding_stored,
  review_proposed, review_finalised, result_stored, Changes, unchanged, then_change,
}
use ot_engineering_demonstra.Validation.Determination.Changes.Calls.{Call, run_all, run_all-Changes}

abbrev pub EndedAt : ℕ → ValidationAttempt → Type 0
EndedAt i a = nat_eq a.validation_attempt_id i ≡ true → a.status ≡ executed

-- The attempt of every result is executed.
abbrev pub IsEnded : DeterminationStore → Type 0
IsEnded s = All (λ r. All (EndedAt r.validation_attempt_id) s.attempts) s.results

All-replace :
    (P : ValidationAttempt → Type 0) (a : ValidationAttempt) (xs : List ValidationAttempt)
    → P a
    → All P xs
    → All P (replace_attempt a xs)
All-replace P a [] p h = tt
All-replace P a (x ∷ xs) p h =
    elim (Bool-cases (nat_eq x.validation_attempt_id a.validation_attempt_id)) [
      | inl e ↦ rw e (p, All-replace P a xs p h.1)
      | inr e ↦ rw e (h.0, All-replace P a xs p h.1)
    ]

-- Whatever the attempts were, the one that is replaced is what it is replaced with.
replace-EndedAt :
    (a : ValidationAttempt) (xs : List ValidationAttempt)
    → a.status ≡ executed
    → All (EndedAt a.validation_attempt_id) (replace_attempt a xs)
replace-EndedAt a [] h = tt
replace-EndedAt a (x ∷ xs) h =
    elim (Bool-cases (nat_eq x.validation_attempt_id a.validation_attempt_id)) [
      | inl e ↦ rw e (λ t. h, replace-EndedAt a xs h)
      | inr e ↦ rw e (λ t. ground arith, replace-EndedAt a xs h)
    ]

kept :
    (s t : DeterminationStore)
    → t.attempts ≡ s.attempts
    → t.results ≡ s.results
    → IsEnded s
    → IsEnded t
kept s t a r h =
    subst (λ xs. All (λ r. All (EndedAt r.validation_attempt_id) xs) t.results) (sym a)
      (subst (All (λ r. All (EndedAt r.validation_attempt_id) s.attempts)) (sym r) h)

-- An attempt that was not started has no result.
bound_ended :
    (a : ValidationAttempt) (xs : List ValidationAttempt) (i : ℕ)
    → any
        (λ b. nat_eq b.validation_attempt_id a.validation_attempt_id && is_not_started b.status)
        xs
      ≡ true
    → All (EndedAt i) xs
    → EndedAt i a
bound_ended a xs i n h e =
    let (b, k, t) = All-any (EndedAt i) _ xs h n in
    let (u, v) = and_true _ _ t in
    let p = (nat_eq_iff a.validation_attempt_id i).0 e in
    let q = k (subst (λ j. nat_eq b.validation_attempt_id j ≡ true) p u) in ground arith

result-IsEnded :
    (r : ExecutedValidationResult) (s t : DeterminationStore)
    → Executes r s t
    → t.results ≡ s.results ++ (r ∷ [])
    → IsEnded s
    → IsEnded t
result-IsEnded r s t x k h =
    let (a, f, o, e) = x in
    let b : ValidationAttempt = record a { status = executed; updated_at = r.finalised_at } in
    let p =
      (nat_eq_iff a.validation_attempt_id r.validation_attempt_id).0
        (find-test (λ b. nat_eq b.validation_attempt_id r.validation_attempt_id) s.attempts a f) in
    subst (λ xs. All (λ r. All (EndedAt r.validation_attempt_id) xs) t.results) (sym e)
      (subst (All (λ r. All (EndedAt r.validation_attempt_id) (replace_attempt b s.attempts)))
        (sym k)
        (All-append _ s.results (r ∷ [])
          (All-mono _ _ s.results
            (λ q w. All-replace (EndedAt q.validation_attempt_id) b s.attempts (λ t. refl) w) h)
          (
            subst (λ i. All (EndedAt i) (replace_attempt b s.attempts)) p
                (replace-EndedAt b s.attempts refl),
            tt,
          )))

module _ {service : DeterminationService} where
  Change-IsEnded : {s t : DeterminationStore} → Change service s t → IsEnded s → IsEnded t
  Change-IsEnded {s} {t} (source_stored r h) v =
      let k = insert_produced_source-Same r s h in kept s t k.0 k.2 v
  Change-IsEnded {s} {t} (baseline_captured i j h) v =
      let k = capture_repeat_source_baseline-Same i j s h in kept s t k.0 k.2 v
  Change-IsEnded {s} {t} (execution_bound a e h) v =
      let (n, k) = bind_attempt_procedure_execution-stored a e s h in
      subst (λ xs. All (λ r. All (EndedAt r.validation_attempt_id) xs) t.results) (sym k.0)
        (subst (All (λ r. All (EndedAt r.validation_attempt_id) (replace_attempt a s.attempts)))
          (sym k.2)
          (All-mono _ _ s.results
            (λ r w.
              All-replace (EndedAt r.validation_attempt_id) a s.attempts
                (bound_ended a s.attempts r.validation_attempt_id n w) w)
            v))
  Change-IsEnded {s} {t} (context_frozen c h) v =
      let k = insert_frozen_context-Same c s h in kept s t k.0 k.2 v
  Change-IsEnded {s} {t} (finding_stored f h) v =
      let (a, k) = insert_finding-stored f s h in kept s t k.0 k.2 v
  Change-IsEnded {s} {t} (review_proposed i c f actor u id p e h) v =
      let (n, k) = insert_review_proposal-stored p s h in kept s t k.0 k.2 v
  Change-IsEnded {s} {t} (review_finalised i actor f u rid fid o e h) v =
      let (a, k) = finalise_review-stored o.finalisation o.made s h in kept s t k.0 k.2 v
  Change-IsEnded {s} {t} (result_stored i u id r e h) v =
      let (a, x, k) = insert_result-stored r s h in result-IsEnded r s t x k.2 v

  Changes-IsEnded : {s t : DeterminationStore} → Changes service s t → IsEnded s → IsEnded t
  Changes-IsEnded unchanged v = v
  Changes-IsEnded (then_change a c) v = Change-IsEnded c (Changes-IsEnded a v)

-- Every sequence of calls keeps the attempt of every result EXECUTED: no later call starts an
-- execution of it again.
pub run_all-IsEnded :
    (service : DeterminationService) (calls : List Call) (s : DeterminationStore)
    → IsEnded s
    → IsEnded (run_all service calls s)
run_all-IsEnded service calls s v = Changes-IsEnded (run_all-Changes service calls s) v

-- An attempt that is open has no result.
open_ended :
    (a : ValidationAttempt) (xs : List ValidationAttempt) (i : ℕ)
    → any (is_open_row a.validation_attempt_id) xs ≡ true
    → All (EndedAt i) xs
    → EndedAt i a
open_ended a xs i n h e =
    let (b, k, t) = All-any (EndedAt i) (is_open_row a.validation_attempt_id) xs h n in
    let (u, v) =
      and_true (nat_eq b.validation_attempt_id a.validation_attempt_id) (is_open_attempt b.status)
        t in
    let p = (nat_eq_iff a.validation_attempt_id i).0 e in
    let q = k (subst (λ j. nat_eq b.validation_attempt_id j ≡ true) p u) in ground arith

-- A suspension keeps the attempt of every result EXECUTED: an attempt that has a result cannot be
-- suspended.
pub insert_finalised_suspension-IsEnded :
    (a : ValidationAttempt) (r : ValidationSuspensionRecord) (s : DeterminationStore)
    {t : DeterminationStore}
    → insert_finalised_suspension a r s ≡ ok t
    → IsEnded s
    → IsEnded t
insert_finalised_suspension-IsEnded a r s {t} h v =
    let (n, k, m) = insert_finalised_suspension-stored a r s h in
    subst (λ xs. All (λ q. All (EndedAt q.validation_attempt_id) xs) t.results) (sym k)
      (subst (All (λ q. All (EndedAt q.validation_attempt_id) (replace_attempt a s.attempts)))
        (sym m)
        (All-mono _ _ s.results
          (λ q w.
            All-replace (EndedAt q.validation_attempt_id) a s.attempts
              (open_ended a s.attempts q.validation_attempt_id n w) w)
          v))

-- Binding an attempt to a run or to an execution keeps the attempt of every result EXECUTED.
pub Binds-IsEnded :
    (a : ValidationAttempt) (s t : DeterminationStore) → Binds a s t → IsEnded s → IsEnded t
Binds-IsEnded a s t (n, k, m) v =
    subst (λ xs. All (λ q. All (EndedAt q.validation_attempt_id) xs) t.results) (sym k)
      (subst (All (λ q. All (EndedAt q.validation_attempt_id) (replace_attempt a s.attempts)))
        (sym m)
        (All-mono _ _ s.results
          (λ q w.
            All-replace (EndedAt q.validation_attempt_id) a s.attempts
              (bound_ended a s.attempts q.validation_attempt_id n w) w)
          v))
