-- ===== src/Validation/Composite/Assemble/Complete.antt =====
-- What a complete composite that `assemble_composite` stores has for each required case.
use ot_engineering_demonstra.Base.{
  String, ℕ, nat_eq, true, false, not, List, [], ◌∷◌, ◌++◌, map, contains, distinct, is_empty,
  unrepeated, str_leb, ◌≡◌, sym, ap, ◌∙◌, subst, arith, All, All-mono, Result, ok, err, >>=-eq-ok,
  guard-eq-ok, or_raise, ok-injective, map_m, Bool-cases, inl, inr, validation_error_boundary,
  validation_error,
}
use ot_engineering_demonstra.Base.Sort.{sort_by, map-sort_by, All-sort_by}
use ot_engineering_demonstra.Base.Count.{is_empty-filter}
use ot_engineering_demonstra.Domain.{exploratory}
use ot_engineering_demonstra.Domain.Assurance.{same_class}
use ot_engineering_demonstra.Domain.Composite.{is_complete_composite, is_finalised_composite}
use ot_engineering_demonstra.Validation.{LoadedValidationDefinition}
use ot_engineering_demonstra.Validation.Catalogue.{get}
use ot_engineering_demonstra.Validation.Evidence.{
  CompositeValidationResult, ValidationSuspensionRecord, composite_valid,
}
use ot_engineering_demonstra.Validation.Store.{DeterminationStore, get_suspension, store_if-eq-ok}
use ot_engineering_demonstra.Validation.Store.Composites.{insert_composite, composite_allowed}
use ot_engineering_demonstra.Validation.Store.Action.{commit-eq-ok}
use ot_engineering_demonstra.Validation.Composite.{CompositeService}
use ot_engineering_demonstra.Validation.Composite.Assemble.{
  AssembleCompositeRequest, assembled, assemble_composite, insert_assembled, composite_of, draft_of,
  nothing_assembled, summary, suspension_target, seen_case_ids, assembly_completeness,
  missing_cases, present_cases, is_complete_assembly,
}
use ot_engineering_demonstra.Validation.Composite.Assemble.Execution.{
  Assembly, ExecutionSummary, add_execution, add_executions,
}
use ot_engineering_demonstra.Validation.Composite.Assemble.Suspension.{
  add_suspension, add_suspensions,
}
use ot_engineering_demonstra.Validation.Composite.Assemble.Covered.{
  Required, case_ids, add_execution-Added, add_suspension-Added, Added-Required,
}

module _ (service : CompositeService) (definition : LoadedValidationDefinition)
    (s : DeterminationStore) where
  add_executions-Required :
      (summaries : List ExecutionSummary) (a : Assembly) {b : Assembly}
      → add_executions service definition s summaries a ≡ ok b
      → All (Required definition) a.links
      → All (Required definition) b.links
  unfolding add_executions
  add_executions-Required [] a h r =
      subst (λ z. All (Required definition) z.links) (ok-injective h) r
  add_executions-Required (x ∷ xs) a h r =
      let (b, e, h1) = >>=-eq-ok (add_execution service definition s x a) _ h in
      add_executions-Required xs b h1
        (Added-Required definition a b (add_execution-Added service definition s x a e) r)

  add_suspensions-Required :
      (rs : List ValidationSuspensionRecord) (a : Assembly) {b : Assembly}
      → add_suspensions service definition s rs a ≡ ok b
      → All (Required definition) a.links
      → All (Required definition) b.links
  unfolding add_suspensions
  add_suspensions-Required [] a h r =
      subst (λ z. All (Required definition) z.links) (ok-injective h) r
  add_suspensions-Required (x ∷ xs) a h r =
      let (b, e, h1) = >>=-eq-ok (add_suspension service definition s x a) _ h in
      add_suspensions-Required xs b h1
        (Added-Required definition a b (add_suspension-Added service definition s x a e) r)

composite_of-eq-ok :
    (definition : LoadedValidationDefinition) (request : AssembleCompositeRequest) (i : ℕ)
    (required : List String) (a : Assembly) {c : CompositeValidationResult}
    → composite_of definition request i required a ≡ ok c
    → (configuration version build : String) × (draft_of definition request i required a
          configuration version build
        ≡ c)
unfolding composite_of
composite_of-eq-ok definition request i required a h =
    let (common, e1, h1) = >>=-eq-ok (or_raise a.configuration validation_error_boundary) _ h in
    let (build, e2, h2) =
      >>=-eq-ok (or_raise a.application_build_id validation_error_boundary) _ h1 in
    let (version, e3, h3) = >>=-eq-ok (or_raise common.1 validation_error) _ h2 in
    let (v, e) =
      guard-eq-ok
        (composite_valid (draft_of definition request i required a common.0 version build))
        validation_error _ h3 in
    (common.0, version, build, ok-injective e)

-- What `assembled` returns is a draft of links that all satisfy `Required`.
assembled-eq-ok :
    (service : CompositeService) (request : AssembleCompositeRequest) (i : ℕ)
    (s : DeterminationStore) {c : CompositeValidationResult}
    → assembled service request i s ≡ ok c
    → (definition : LoadedValidationDefinition) × (a : Assembly) × (configuration version
        build : String)
      × (get service.catalogue request.test_id ≡ ok definition)
      × All (Required definition) a.links
      × (draft_of definition request i (case_ids definition) a configuration version build ≡ c)
unfolding assembled
assembled-eq-ok service request i s h =
    let (u1, h1) =
      guard-eq-ok (unrepeated nat_eq request.validation_execution_ids) validation_error_boundary _
        h in
    let (u2, h2) =
      guard-eq-ok (unrepeated nat_eq request.validation_suspension_record_ids)
        validation_error_boundary _ h1 in
    let (definition, e3, h3) = >>=-eq-ok (get service.catalogue request.test_id) _ h2 in
    let (u4, h4) =
      guard-eq-ok (not (is_empty definition.definition.constituent_cases)) validation_error_boundary
        _ h3 in
    let (u5, h5) =
      guard-eq-ok (same_class definition.definition.evidence_class exploratory)
        validation_error_boundary _ h4 in
    let (summaries, e6, h6) = >>=-eq-ok (map_m (summary s) request.validation_execution_ids) _ h5 in
    let (suspensions, e7, h7) =
      >>=-eq-ok (map_m (λ r. get_suspension r s) request.validation_suspension_record_ids) _ h6 in
    let (targets, e8, h8) = >>=-eq-ok (map_m (suspension_target s) suspensions) _ h7 in
    let (u9, h9) =
      guard-eq-ok (distinct (seen_case_ids summaries targets)) validation_error_boundary _ h8 in
    let (b, e10, h10) =
      >>=-eq-ok (add_executions service definition s summaries nothing_assembled) _ h9 in
    let (a, e11, h11) = >>=-eq-ok (add_suspensions service definition s suspensions b) _ h10 in
    let (configuration, version, build, e) =
      composite_of-eq-ok definition request i (case_ids definition) a h11 in
    (
      definition,
      a,
      configuration,
      version,
      build,
      e3,
      add_suspensions-Required service definition s suspensions b e11
          (add_executions-Required service definition s summaries nothing_assembled e10 tt),
      e,
    )

complete_assembly :
    (required : List String) (a : Assembly)
    → is_complete_composite (assembly_completeness required a).status ≡ true
    → is_empty (missing_cases required a) ≡ true
complete_assembly required a h = elim (Bool-cases (is_complete_assembly required a)) [
  | inl e ↦ ground arith
  | inr e ↦ ground arith
]

insert_assembled-eq-ok :
    (c : CompositeValidationResult) (s : DeterminationStore) {t : DeterminationStore}
    → insert_assembled c s ≡ ok t
    → (composite_allowed c s ≡ true) × (record s { composites = s.composites ++ (c ∷ []) } ≡ t)
unfolding insert_assembled insert_composite
insert_assembled-eq-ok c s h =
    store_if-eq-ok (composite_allowed c s) _ (passed (insert_composite c s) h)
  where
    passed :
        (r : Result DeterminationStore) {t : DeterminationStore}
        → (elim r [ ok store' ↦ ok store' | err failure ↦ err validation_error_boundary ]) ≡ ok t
        → r ≡ ok t
    passed (ok u) h = h
    passed (err e) h = cc

composite_allowed-distinct :
    (c : CompositeValidationResult) (s : DeterminationStore)
    → composite_allowed c s ≡ true
    → distinct (map (λ l. l.case_id) c.constituent_links) ≡ true
composite_allowed-distinct c s h = ground arith

-- No required case is missing of a complete assembly.
complete-listed :
    (required : List String) (a : Assembly)
    → is_complete_composite (assembly_completeness required a).status ≡ true
    → All
        (λ i.
          contains (map (λ l. l.case_id) (sort_by (λ k l. str_leb k.case_id l.case_id) a.links)) i
          ≡ true)
        required
complete-listed required a h =
    let e =
      is_empty-filter (λ i. not (contains (present_cases a) i)) required
        (complete_assembly required a h) in
    All-mono (λ i. not (contains (present_cases a) i) ≡ false)
      (λ i.
        contains (map (λ l. l.case_id) (sort_by (λ k l. str_leb k.case_id l.case_id) a.links)) i
        ≡ true)
      required
      (λ i n.
        ap (λ xs. contains xs i) (map-sort_by (λ l. l.case_id) str_leb a.links) ∙ ground arith)
      e

-- A complete composite that `assemble_composite` returns is a draft whose required cases are those of
-- the controlled definition. Every required case has a link, no case has two, and each link names a
-- required case and has one source: an execution with its result, or a suspension that is
-- BLOCKED-TEST. The composite is stored after the earlier ones.
pub assemble_composite_complete :
    (service : CompositeService) (request : AssembleCompositeRequest) (i : ℕ)
    (s : DeterminationStore) {c : CompositeValidationResult} {t : DeterminationStore}
    → assemble_composite service request i s ≡ (ok c, t)
    → is_complete_composite c.completeness.status ≡ true
    → (definition : LoadedValidationDefinition) × (get service.catalogue request.test_id
        ≡ ok definition)
      × (c.required_case_ids ≡ case_ids definition)
      × (is_finalised_composite c.status ≡ false)
      × All
          (λ j. contains (map (λ l. l.case_id) c.constituent_links) j ≡ true)
          (case_ids definition)
      × (distinct (map (λ l. l.case_id) c.constituent_links) ≡ true)
      × All (Required definition) c.constituent_links
      × (record s { composites = s.composites ++ (c ∷ []) } ≡ t)
unfolding assemble_composite
assemble_composite_complete service request i s {c} {t} h complete =
    let (e, w) = commit-eq-ok (assembled service request i) _ s h in
    let (definition, a, configuration, version, build, g, r, q) =
      assembled-eq-ok service request i s e in
    let (allowed, stored) = insert_assembled-eq-ok c s w in
    let k = subst (λ z. is_complete_composite z.completeness.status ≡ true) (sym q) complete in
    (
      definition,
      g,
      ap (λ z. z.required_case_ids) (sym q),
      ap (λ z. is_finalised_composite z.status) (sym q),
      subst
          (λ z.
            All (λ j. contains (map (λ l. l.case_id) z.constituent_links) j ≡ true)
              (case_ids definition))
          q (complete-listed (case_ids definition) a k),
      composite_allowed-distinct c s allowed,
      subst (λ z. All (Required definition) z.constituent_links) q
          (All-sort_by (Required definition) _ a.links r),
      stored,
    )
