-- ===== src/Validation/Catalogue.antt =====
-- app/backend/ot_demo/modules/validation/catalogue.py: the lookups of a loaded catalogue, and of the
-- revisions that a resolver keeps. What the loader reads from the file is given.
use ot_engineering_demonstra.Base.{
  String, ◌==◌, Bool, ◌&&◌, Option, none, some, List, [], ◌∷◌, map, filter, concat_map, Failure,
  catalogue_error, index_error, Result, ok, err, ◌>>=◌, if◌then◌else◌,
}
use ot_engineering_demonstra.Validation.{
  CriterionDefinition, DeterminationMethodDefinition, ValidationTestDefinition,
  LoadedValidationDefinition,
}

-- The active loader's definitions, and those of each loader that the resolver has, the active one
-- included.
pub record ValidationCatalogueResolver : Type 0 where
  pub active_definitions : List LoadedValidationDefinition
  pub loaded_definitions : List (List LoadedValidationDefinition)

module _ {ℓ} {A : Type ℓ} where
  -- `if len(matches) != 1: raise`, then `matches[0]`
  abbrev pub the_only : Failure → List A → Result A
  the_only failure [] = err failure
  the_only failure (x ∷ []) = ok x
  the_only failure (x ∷ y ∷ xs) = err failure

  -- The last element that passes, as a dict keeps the last value of a key.
  abbrev pub find_last : (A → Bool) → List A → Option A
  find_last p [] = none
  find_last p (x ∷ xs) =
      let rest = find_last p xs in
      elim rest [ none ↦ if p x then some x else none | some y ↦ some y ]

  abbrev pub somes : List (Option A) → List A
  somes [] = []
  somes (none ∷ xs) = somes xs
  somes (some x ∷ xs) = x ∷ somes xs

unfoldable pub get : ValidationCatalogueResolver → String → Result LoadedValidationDefinition
get catalogue test_id =
    elim (find_last (λ item. item.definition.test_id == test_id) catalogue.active_definitions) [
      | none ↦ err catalogue_error
      | some loaded ↦ ok loaded
    ]

abbrev case_methods :
    ValidationTestDefinition → String → List (Option DeterminationMethodDefinition)
case_methods definition case_id =
    map (λ c. c.determination_method)
      (filter (λ c. c.case_id == case_id) definition.constituent_cases)

abbrev direct_method :
    ValidationTestDefinition → Option String → Option DeterminationMethodDefinition
direct_method definition none = definition.determination_method
direct_method definition (some case_id) = elim (case_methods definition case_id) [
  | [] ↦ none
  | method ∷ rest ↦ elim rest [ [] ↦ method | other ∷ others ↦ none ]
]

unfoldable pub get_method :
    ValidationCatalogueResolver → String → Option String → Result DeterminationMethodDefinition
get_method catalogue test_id case_id = do
  loaded ← get catalogue test_id
  elim (direct_method loaded.definition case_id) [
    | none ↦ err catalogue_error
    | some method ↦ ok method
  ]

unfoldable pub get_criterion :
    ValidationCatalogueResolver → String → String → Option String → Result CriterionDefinition
get_criterion catalogue test_id criterion_id case_id = do
  method ← get_method catalogue test_id case_id
  the_only catalogue_error (filter (λ item. item.criterion_id == criterion_id) method.criteria)

-- `loaded[0]` of each loader is compared.
abbrev matching_revisions :
    String
    → String
    → List (List LoadedValidationDefinition)
    → Result (List (List LoadedValidationDefinition))
matching_revisions version sha256 [] = ok []
matching_revisions version sha256 ([] ∷ loaders) = err index_error
matching_revisions version sha256 ((first ∷ loaded) ∷ loaders) = do
  rest ← matching_revisions version sha256 loaders
  ok (
      if first.catalogue_version == version && first.catalogue_sha256 == sha256
      then (first ∷ loaded) ∷ rest
      else rest)

unfoldable pub resolve_catalogue :
    ValidationCatalogueResolver → String → String → Result (List LoadedValidationDefinition)
resolve_catalogue catalogue catalogue_version catalogue_sha256 = do
  matches ← matching_revisions catalogue_version catalogue_sha256 catalogue.loaded_definitions
  the_only catalogue_error matches

pub record MethodIdentity : Type 0 where
  pub method_id : String
  pub method_version : String
  pub method_sha256 : String

abbrev candidates :
    ValidationTestDefinition → Option String → List (Option DeterminationMethodDefinition)
candidates definition none = definition.determination_method ∷ []
candidates definition (some case_id) = case_methods definition case_id

abbrev pub has_identity : MethodIdentity → DeterminationMethodDefinition → Bool
has_identity i item =
    item.method_id == i.method_id
    && item.version == i.method_version
    && item.method_sha256 == i.method_sha256

unfoldable pub resolve_method :
    ValidationCatalogueResolver
    → String
    → Option String
    → String
    → String
    → MethodIdentity
    → Result DeterminationMethodDefinition
resolve_method catalogue test_id case_id catalogue_version catalogue_sha256 identity = do
  loaded ← resolve_catalogue catalogue catalogue_version catalogue_sha256
  definition ← the_only catalogue_error (filter (λ item. item.definition.test_id == test_id) loaded)
  the_only catalogue_error
      (filter (has_identity identity) (somes (candidates definition.definition case_id)))

unfoldable pub resolve_definition_identity :
    ValidationCatalogueResolver → String → String → String → Result LoadedValidationDefinition
resolve_definition_identity catalogue test_id version sha256 = the_only catalogue_error (
    filter
      (λ loaded.
        loaded.definition.test_id == test_id
        && loaded.definition.version == version
        && loaded.definition_sha256 == sha256)
      (concat_map (λ loaded. loaded) catalogue.loaded_definitions))
