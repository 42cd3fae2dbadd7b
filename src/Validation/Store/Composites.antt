-- ===== src/Validation/Store/Composites.antt =====
-- app/backend/ot_demo/infrastructure/validation_repository.py: the tables of composites, with the
-- constraints of migrations 007 to 009. The rows of the constituents are not read again: the
-- links of the composite's payload are.
use ot_engineering_demonstra.Base.{
  String, ◌==◌, ℕ, nat_eq, ltb, Bool, true, false, not, ◌&&◌, ◌||◌, Option, none, some, List, [],
  ◌∷◌, ◌++◌, map, filter, any, all, distinct, is_empty, is_some, unrepeated, find, or_raise,
  validation_not_found, Result, ok, guard, ◌>>◌, if◌then◌else◌,
}
use ot_engineering_demonstra.Base.Sort.{sort_by}
use ot_engineering_demonstra.Domain.Assurance.{same_class}
use ot_engineering_demonstra.Domain.{exploratory}
use ot_engineering_demonstra.Domain.Composite.{is_finalised_composite, is_finalised_suspension}
use ot_engineering_demonstra.Validation.Evidence.{
  CompositeConstituentLink, CompositeValidationResult, ValidationSuspensionRecord, link_valid,
}
use ot_engineering_demonstra.Validation.Store.{DeterminationStore, store_if}

abbrev execution_row_exists : Option ℕ → DeterminationStore → Bool
execution_row_exists none store = true
execution_row_exists (some i) store = any (λ e. nat_eq e.validation_execution_id i) store.executions

abbrev result_row_exists : Option ℕ → DeterminationStore → Bool
result_row_exists none store = true
result_row_exists (some i) store = any (λ r. nat_eq r.executed_result_id i) store.executed_results

abbrev suspension_row_exists : Option ℕ → DeterminationStore → Bool
suspension_row_exists none store = true
suspension_row_exists (some i) store = any (λ r. nat_eq r.suspension_record_id i) store.suspensions

-- A row of an execution keeps the digest of its case.
abbrev constituent_allowed : DeterminationStore → CompositeConstituentLink → Bool
constituent_allowed store l =
    execution_row_exists l.validation_execution_id store
    && result_row_exists l.executed_result_id store
    && suspension_row_exists l.suspension_record_id store
    && (not (is_some l.validation_execution_id) || is_some l.case_definition_sha256)
    && link_valid l

abbrev linked_executions : List CompositeConstituentLink → List ℕ
linked_executions [] = []
linked_executions (l ∷ ls) = elim l.validation_execution_id [
  | none ↦ linked_executions ls
  | some i ↦ i ∷ linked_executions ls
]

-- The keys, the foreign keys, the checks and the triggers of the three tables.
abbrev pub composite_allowed : CompositeValidationResult → DeterminationStore → Bool
composite_allowed c store =
    not (any (λ d. nat_eq d.composite_result_id c.composite_result_id) store.composites)
    && same_class c.evidence_class exploratory
    && (not (is_finalised_composite c.status) || is_empty c.constituent_links)
    && distinct (map (λ l. l.case_id) c.constituent_links)
    && unrepeated nat_eq (linked_executions c.constituent_links)
    && all (constituent_allowed store) c.constituent_links

unfoldable pub insert_composite :
    CompositeValidationResult → DeterminationStore → Result DeterminationStore
insert_composite c store =
    store_if (composite_allowed c store)
      (record store { composites = store.composites ++ (c ∷ []) })

abbrev pub is_draft_of : ℕ → CompositeValidationResult → Bool
is_draft_of i d = nat_eq d.composite_result_id i && not (is_finalised_composite d.status)

abbrev pub replace_composite :
    CompositeValidationResult → List CompositeValidationResult → List CompositeValidationResult
replace_composite c [] = []
replace_composite c (d ∷ ds) =
    (if is_draft_of c.composite_result_id d then c else d) ∷ replace_composite c ds

-- `UPDATE ... WHERE composite_result_id = ? AND status = 'DRAFT'`
unfoldable pub update_composite :
    CompositeValidationResult → DeterminationStore → Result DeterminationStore
update_composite c store = do
  guard (any (is_draft_of c.composite_result_id) store.composites) validation_not_found
  ok (record store { composites = replace_composite c store.composites })

unfoldable pub get_composite : ℕ → DeterminationStore → Result CompositeValidationResult
get_composite i store =
    or_raise (find (λ c. nat_eq c.composite_result_id i) store.composites) validation_not_found

-- `ORDER BY created_at_ms, composite_result_id`
abbrev composite_leb : CompositeValidationResult → CompositeValidationResult → Bool
composite_leb a b =
    ltb a.created_at b.created_at
    || (nat_eq a.created_at b.created_at && not (ltb b.composite_result_id a.composite_result_id))

abbrev of_test : Option String → CompositeValidationResult → Bool
of_test none c = true
of_test (some i) c = c.test_id == i

unfoldable pub list_composites : Option String → DeterminationStore → List CompositeValidationResult
list_composites test_id store = sort_by composite_leb (filter (of_test test_id) store.composites)

abbrev finalised_leb : ValidationSuspensionRecord → ValidationSuspensionRecord → Bool
finalised_leb a b = elim a.finalised_at [
  | none ↦ true
  | some s ↦ elim b.finalised_at [
    | none ↦ false
    | some t ↦ ltb s t || (nat_eq s t && not (ltb b.suspension_record_id a.suspension_record_id))
  ]
]

unfoldable pub list_suspensions : DeterminationStore → List ValidationSuspensionRecord
list_suspensions store =
    sort_by finalised_leb (filter (λ r. is_finalised_suspension r.status) store.suspensions)
