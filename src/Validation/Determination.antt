-- ===== src/Validation/Determination.antt =====
-- app/backend/ot_demo/modules/validation/determination.py: what the determination service is made
-- with, its comparison of a value with a criterion, the finding that it records, and when a
-- determination is complete.
pub mod Binding
pub mod Changes
pub mod Evaluation
pub mod Finalise
pub mod Review
use ot_engineering_demonstra.Base.{
  String, ◌==◌, ℕ, Bool, true, false, not, ◌&&◌, ◌||◌, Option, none, some, List, [], ◌∷◌, ◌++◌, map,
  any, all, filter, contains, concat_map, dedup, length, nat_eq, ltb, is_empty, str_leb, Failure,
  determination_error, validation_error, normalisation_error, type_error, Result, ok, err, guard,
  or_raise, ◌>>=◌, ◌>>◌, if◌then◌else◌,
}
use ot_engineering_demonstra.Base.Sort.{sort_by}
use ot_engineering_demonstra.Domain.Assurance.{
  DeterminationOperator, DeterminationSourceAdapterKind, scalar_equal, numeric_equal, boolean_equal,
  canonical_set_equal, ordered_sequence_equal, present_value, absent_value, identity_hash_agreement,
  canonical_record_equal, review_finding_equal, CriterionFindingStatus,
  DeterminationCompletenessStatus, complete_determination, incomplete_determination,
  is_not_evaluated,
}
use ot_engineering_demonstra.Validation.{
  CriterionDefinition, DeterminationMethodDefinition, ValidationAttempt, ValidationTargetSelection,
  AuthoritativeRecordSnapshot, DeterminationSourceRecord, DeterminationContext, CriterionFinding,
  DeterminationCompleteness, finding_valid,
}
use ot_engineering_demonstra.Validation.Value.{
  Json, null, array, is_null, json_equal, iterate, array_of,
}
use ot_engineering_demonstra.Validation.Catalogue.{
  ValidationCatalogueResolver, resolve_method, MethodIdentity,
}
use ot_engineering_demonstra.Validation.Store.{DeterminationStore, get_context, list_findings}

-- What a source gives for a selector: a value, no record or member of that name, or an error that
-- stops the evaluation.
pub data Resolution : Type 0 where
  observed : Json → Resolution
  absent : Resolution
  refused : Resolution

pub record SourceAuthorityContext : Type 0 where
  pub attempt : ValidationAttempt
  pub target : ValidationTargetSelection
  pub method : DeterminationMethodDefinition
  pub scenario_run_id : Option ℕ
  pub validation_execution_id : Option ℕ

pub record ProducedRoleAuthority : Type 0 where
  pub source_type : DeterminationSourceAdapterKind
  pub source_role : String
  pub records : List AuthoritativeRecordSnapshot
  pub evidence_references : List String

-- The service. `resolve` is the selector of the source adapters, `produce` the source authority,
-- with `none` for its errors, `normalise` the profiles, which take whether a value is the expected
-- one; `canonical_json_bytes`, `sha256` and `uuid_text` are the serialiser, the digest and the
-- print of an identifier.
pub record DeterminationService : Type 0 where
  pub catalogue : ValidationCatalogueResolver
  pub application_build_id : String
  pub resolve : DeterminationSourceRecord → String → Resolution
  pub produce : SourceAuthorityContext → DeterminationStore → Option (List ProducedRoleAuthority)
  pub normalise : String → Bool → Json → Result Json
  pub canonical_json_bytes : Json → String
  pub payload_sha256 : String → List AuthoritativeRecordSnapshot → String
  pub uuid_text : ℕ → String

module _ (service : DeterminationService) where
  abbrev pub same_bytes : Json → Json → Bool
  same_bytes a b = service.canonical_json_bytes a == service.canonical_json_bytes b

  abbrev pub bytes_of : List Json → List String
  bytes_of xs = map service.canonical_json_bytes xs

  abbrev pub same_byte_set : Option (List Json) → Option (List Json) → Bool
  same_byte_set none b = false
  same_byte_set (some xs) none = false
  same_byte_set (some xs) (some ys) =
      all (contains (bytes_of ys)) (bytes_of xs) && all (contains (bytes_of xs)) (bytes_of ys)

  abbrev pub same_sequence : Json → Json → Result Bool
  same_sequence a b = do
    xs ← or_raise (iterate a) type_error
    ys ← or_raise (iterate b) type_error
    ok (same_bytes (array (array_of xs)) (array (array_of ys)))

  abbrev pub apply_operator : DeterminationOperator → Json → Json → Result Bool
  apply_operator scalar_equal a b = ok (same_bytes a b)
  apply_operator boolean_equal a b = ok (same_bytes a b)
  apply_operator canonical_record_equal a b = ok (same_bytes a b)
  apply_operator identity_hash_agreement a b = ok (same_bytes a b)
  apply_operator numeric_equal a b = ok (json_equal a b)
  apply_operator canonical_set_equal a b = ok (same_byte_set (iterate a) (iterate b))
  apply_operator ordered_sequence_equal a b = same_sequence a b
  apply_operator present_value a b = ok (not (is_null a))
  apply_operator absent_value a b = ok (is_null a)
  apply_operator review_finding_equal a b = err determination_error

  -- `_compare`
  unfoldable pub compare_observed : CriterionDefinition → Json → Result Bool
  compare_observed criterion value = do
    expected ← service.normalise criterion.normalisation true criterion.expected_value
    actual ← service.normalise criterion.normalisation false value
    apply_operator criterion.operator actual expected

-- `evidence_references or ...`: those of the sources, where none are given.
abbrev pub references_of : List String → List DeterminationSourceRecord → List String
references_of [] sources = concat_map (λ r. r.evidence_references) sources
references_of (x ∷ xs) sources = x ∷ xs

abbrev pub new_finding :
    DeterminationContext
    → CriterionDefinition
    → Json
    → CriterionFindingStatus
    → List DeterminationSourceRecord
    → Option ℕ
    → List String
    → ℕ
    → CriterionFinding
new_finding context criterion value status sources finalised_at evidence_references finding_id =
    record {
      criterion_finding_id = finding_id;
      determination_context_id = context.determination_context_id;
      criterion_id = criterion.criterion_id;
      criterion_version = criterion.version;
      criterion_sha256 = criterion.criterion_sha256;
      expected_value = criterion.expected_value;
      observed_value = value;
      status = status;
      source_record_ids = map (λ r. r.source_record_id) sources;
      evidence_references = references_of evidence_references sources;
      finalised_at = finalised_at;
    }

-- `_finding`, its identifier given; the validator of a finding raises.
unfoldable pub finding :
    DeterminationContext
    → CriterionDefinition
    → Json
    → CriterionFindingStatus
    → List DeterminationSourceRecord
    → Option ℕ
    → List String
    → ℕ
    → Result CriterionFinding
finding context criterion value status sources finalised_at evidence_references finding_id =
    let result =
      new_finding context criterion value status sources finalised_at evidence_references
        finding_id in
    guard (finding_valid result) validation_error >> ok result

-- The method that a context was frozen with, which may be of an earlier catalogue.
unfoldable pub method_of :
    DeterminationService → DeterminationContext → Result DeterminationMethodDefinition
method_of service context =
    resolve_method service.catalogue context.test_id context.case_id context.catalogue_version
      context.catalogue_sha256
      (record {
        method_id = context.method_id;
        method_version = context.method_version;
        method_sha256 = context.method_sha256;
      })

abbrev pub evaluated_ids : List CriterionFinding → List String
evaluated_ids findings =
    map (λ f. f.criterion_id) (filter (λ f. not (is_not_evaluated f.status)) findings)

abbrev pub missing_ids : List String → List CriterionFinding → List String
missing_ids required findings =
    filter (λ i. not (contains (evaluated_ids findings) i)) (dedup required)

-- `sum(f.criterion_id == item for f in findings)`
abbrev pub occurrences : String → List CriterionFinding → ℕ
occurrences i findings = length (filter (λ f. f.criterion_id == i) findings)

abbrev pub duplicate_ids : List String → List CriterionFinding → List String
duplicate_ids required findings = filter (λ i. ltb 1 (occurrences i findings)) (dedup required)

abbrev pub is_complete_set : List String → List CriterionFinding → Bool
is_complete_set required findings =
    is_empty (missing_ids required findings)
    && is_empty (duplicate_ids required findings)
    && nat_eq (length findings) (length (dedup required))

unfoldable pub completeness_of : List String → List CriterionFinding → DeterminationCompleteness
completeness_of required findings = record {
  status =
      if is_complete_set required findings
      then complete_determination
      else incomplete_determination;
  required_criterion_ids = required;
  evaluated_criterion_ids = sort_by str_leb (dedup (evaluated_ids findings));
  missing_criterion_ids = sort_by str_leb (missing_ids required findings);
  duplicate_criterion_ids = sort_by str_leb (duplicate_ids required findings);
}

unfoldable pub completeness :
    DeterminationService → ℕ → DeterminationStore → Result DeterminationCompleteness
completeness service context_id store = do
  context ← get_context context_id store
  method ← method_of service context
  ok (completeness_of method.criterion_ids (list_findings context_id store))

pub record DeterminationReviewProjection : Type 0 where
  pub context : DeterminationContext
  pub completeness : DeterminationCompleteness
  pub findings : List CriterionFinding

unfoldable pub projection :
    DeterminationService → ℕ → DeterminationStore → Result DeterminationReviewProjection
projection service context_id store = do
  context ← get_context context_id store
  complete ← completeness service context_id store
  ok (record {
    context = context;
    completeness = complete;
    findings = list_findings context_id store;
  })
