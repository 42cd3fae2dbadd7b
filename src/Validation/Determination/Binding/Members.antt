-- ===== src/Validation/Determination/Binding/Members.antt =====
-- app/backend/ot_demo/modules/validation/determination.py: what `bind_context` reads and tests before
-- it stores anything, and the members of the context.
use ot_engineering_demonstra.Base.{
  String, ◌==◌, ℕ, nat_eq, Bool, true, false, not, ◌&&◌, ◌||◌, Option, none, some, List, [], ◌∷◌,
  map, any, find, map_m, same_set, is_some, determination_error, key_error, Result, ok, err, guard,
  or_raise, ◌>>=◌, ◌>>◌, if◌then◌else◌,
}
use ot_engineering_demonstra.Domain.Assurance.{is_open_attempt, is_scenario, same_class}
use ot_engineering_demonstra.Validation.{
  DeterminationMethodDefinition, LoadedValidationDefinition, ValidationTargetSelection,
  ValidationAttempt, AuthoritativeRecordSnapshot, DeterminationSourceRecord,
  DeterminationContextMember, same_option,
}
use ot_engineering_demonstra.Validation.Adapters.{records}
use ot_engineering_demonstra.Validation.Catalogue.{get, get_method}
use ot_engineering_demonstra.Validation.Store.{
  DeterminationStore, SourceBinding, get_attempt, get_target, get_source, source_ids_for_attempt,
}
use ot_engineering_demonstra.Validation.Determination.{DeterminationService}

pub record BoundTarget : Type 0 where
  pub attempt : ValidationAttempt
  pub target : ValidationTargetSelection
  pub method : DeterminationMethodDefinition
  pub loaded : LoadedValidationDefinition
  pub bindings : List SourceBinding

abbrev pub target_bound :
    ValidationTargetSelection → LoadedValidationDefinition → DeterminationMethodDefinition → Bool
target_bound target loaded method =
    same_option target.catalogue_sha256 (some loaded.catalogue_sha256)
    && same_option target.catalogue_version (some loaded.catalogue_version)
    && same_class target.evidence_class method.evidence_class

abbrev pub distinct_ids : List ℕ → Bool
distinct_ids [] = true
distinct_ids (i ∷ is) = not (any (nat_eq i) is) && distinct_ids is

-- The roles that an attempt's sources are bound to are those of the method.
unfoldable pub bound_target : DeterminationService → ℕ → DeterminationStore → Result BoundTarget
bound_target service attempt_id store = do
  attempt ← get_attempt attempt_id store
  guard (is_open_attempt attempt.status) determination_error
  target ← get_target attempt.target_selection_id store
  method ← get_method service.catalogue target.test_id target.case_id
  loaded ← get service.catalogue target.test_id
  guard (target_bound target loaded method) determination_error
  let bindings = source_ids_for_attempt attempt_id store
  guard (same_set (map (λ b. b.source_role) bindings) method.required_context_roles)
      determination_error
  guard (distinct_ids (map (λ b. b.source_record_id) bindings)) determination_error
  ok (record {
    attempt = attempt;
    target = target;
    method = method;
    loaded = loaded;
    bindings = bindings;
  })

abbrev pub same_id : Option ℕ → Option ℕ → Bool
same_id none none = true
same_id none (some j) = false
same_id (some i) none = false
same_id (some i) (some j) = nat_eq i j

-- The provenance that a source must share with the attempt's target and its method.
abbrev pub provenance_matches : BoundTarget → DeterminationSourceRecord → Bool
provenance_matches b source =
    source.test_id == b.target.test_id
    && same_option source.case_id b.target.case_id
    && source.catalogue_version == b.loaded.catalogue_version
    && source.catalogue_sha256 == b.loaded.catalogue_sha256
    && source.method_id == b.method.method_id
    && source.method_version == b.method.version
    && source.method_sha256 == b.method.method_sha256

-- A scenario's source is of its run, its execution and the target's configuration.
abbrev pub run_matches :
    BoundTarget
    → Option ℕ
    → Option ℕ
    → DeterminationSourceRecord
    → List AuthoritativeRecordSnapshot
    → Bool
run_matches b run execution source authority =
    if is_scenario b.method.context_kind
    then same_id source.scenario_run_id run
      && same_id source.validation_execution_id execution
      && (not (is_some source.configuration_id)
          || same_option source.configuration_id b.target.configuration_id)
    else not (any (λ item. is_some item.scenario_run_id) authority)

abbrev pub bound_source :
    BoundTarget → String → DeterminationStore → Result DeterminationSourceRecord
bound_source b role store = do
  binding ← or_raise (find (λ x. x.source_role == role) b.bindings) key_error
  get_source binding.source_record_id store

-- One round of the loop over the required roles.
unfoldable pub context_member :
    DeterminationService
    → BoundTarget
    → Option ℕ
    → Option ℕ
    → DeterminationStore
    → String
    → Result DeterminationContextMember
context_member service b run execution store role = do
  source ← bound_source b role store
  guard (source.source_role == role) determination_error
  guard (nat_eq source.validation_attempt_id b.attempt.validation_attempt_id) determination_error
  guard (provenance_matches b source) determination_error
  authority ← elim (records source) [
    | ok authority ↦ ok authority
    | err failure ↦ err determination_error
  ]
  guard (source.application_build_id == service.application_build_id) determination_error
  guard (same_class source.evidence_class b.method.evidence_class) determination_error
  guard (run_matches b run execution source authority) determination_error
  ok (record {
    role = role;
    source_record_id = source.source_record_id;
    source_record_sha256 = source.canonical_payload_sha256;
  })

unfoldable pub context_members :
    DeterminationService
    → BoundTarget
    → Option ℕ
    → Option ℕ
    → DeterminationStore
    → Result (List DeterminationContextMember)
context_members service b run execution store =
    map_m (context_member service b run execution store) b.method.required_context_roles
