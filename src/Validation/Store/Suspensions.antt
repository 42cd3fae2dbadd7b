-- ===== src/Validation/Store/Suspensions.antt =====
-- app/backend/ot_demo/infrastructure/validation_repository.py: storing a target with its attempt,
-- and a finalised suspension with its evidence, which ends the attempt; the constraints are those
-- of migration 008; the columns of the target with digests are left out.
use ot_engineering_demonstra.Base.{
  ℕ, nat_eq, Bool, true, not, ◌&&◌, ◌||◌, List, [], ◌∷◌, ◌++◌, map, any, all, concat_map, is_some,
  unrepeated, Result, ok, ◌≡◌, refl, subst, arith,
}
use ot_engineering_demonstra.Domain.Assurance.{is_open_attempt}
use ot_engineering_demonstra.Validation.{ValidationTargetSelection, ValidationAttempt}
use ot_engineering_demonstra.Validation.Evidence.{ValidationSuspensionRecord}
use ot_engineering_demonstra.Validation.Store.{DeterminationStore, store_if, store_if-eq-ok}
use ot_engineering_demonstra.Validation.Store.Write.{attempt_exists, replace_attempt}

abbrev target_exists : ℕ → DeterminationStore → Bool
target_exists i store = any (λ t. nat_eq t.target_selection_id i) store.targets

unfoldable pub insert_target_and_attempt :
    ValidationTargetSelection → ValidationAttempt → DeterminationStore → Result DeterminationStore
insert_target_and_attempt target attempt store =
    store_if
      (not (target_exists target.target_selection_id store)
        && not (attempt_exists attempt.validation_attempt_id store)
        && (nat_eq attempt.target_selection_id target.target_selection_id
            || target_exists attempt.target_selection_id store))
      (record store {
        targets = store.targets ++ (target ∷ []);
        attempts = store.attempts ++ (attempt ∷ []);
      })

abbrev evidence_ids : ValidationSuspensionRecord → List ℕ
evidence_ids r = map (λ e. e.evidence_id) r.evidence

abbrev stored_evidence_ids : DeterminationStore → List ℕ
stored_evidence_ids store = concat_map evidence_ids store.suspensions

abbrev pub is_open_row : ℕ → ValidationAttempt → Bool
is_open_row i a = nat_eq a.validation_attempt_id i && is_open_attempt a.status

abbrev pub suspension_allowed :
    ValidationAttempt → ValidationSuspensionRecord → DeterminationStore → Bool
suspension_allowed attempt r store =
    not (
      any
        (λ q.
          nat_eq q.suspension_record_id r.suspension_record_id
          || nat_eq q.validation_attempt_id r.validation_attempt_id)
        store.suspensions)
    && attempt_exists r.validation_attempt_id store
    && target_exists r.target_selection_id store
    && is_some r.finalised_at
    && unrepeated nat_eq (evidence_ids r)
    && all (λ i. not (any (nat_eq i) (stored_evidence_ids store))) (evidence_ids r)
    && any (is_open_row attempt.validation_attempt_id) store.attempts

-- `UPDATE validation_attempts ... WHERE status IN ('NOT_STARTED','ACTIVE','INCOMPLETE')`
unfoldable pub insert_finalised_suspension :
    ValidationAttempt → ValidationSuspensionRecord → DeterminationStore → Result DeterminationStore
insert_finalised_suspension attempt r store =
    store_if (suspension_allowed attempt r store) (record store {
      suspensions = store.suspensions ++ (r ∷ []);
      attempts = replace_attempt attempt store.attempts;
    })

-- A suspension that is stored has ended an attempt that was open.
pub insert_finalised_suspension-stored :
    (a : ValidationAttempt) (r : ValidationSuspensionRecord) (s : DeterminationStore)
    {t : DeterminationStore}
    → insert_finalised_suspension a r s ≡ ok t
    → (any (is_open_row a.validation_attempt_id) s.attempts ≡ true)
      × (t.attempts ≡ replace_attempt a s.attempts)
      × (t.results ≡ s.results)
unfolding insert_finalised_suspension
insert_finalised_suspension-stored a r s h =
    let (allowed, stored) = store_if-eq-ok (suspension_allowed a r s) _ h in
    (
      ground arith,
      subst (λ t. t.attempts ≡ replace_attempt a s.attempts) stored refl,
      subst (λ t. t.results ≡ s.results) stored refl,
    )
