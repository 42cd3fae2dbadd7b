-- ===== src/Validation/Composite/Assemble/Covered.antt =====
-- The links that the rounds collect, and what a complete composite has for each required case.
use ot_engineering_demonstra.Base.{
  String, ◌==◌, true, some, List, [], ◌∷◌, ◌++◌, map, all, contains, ◌≡◌, ap, ◌∙◌, subst, ◌⊎◌, inl,
  inr, arith, All, All-append, ok, >>=-eq-ok, guard-eq-ok, guard, or_raise, ◌>>◌, or_raise-eq-ok,
  branch-eq-ok, option-none-ok, Option-cases, guard-ok, ok-injective, validation_error_boundary,
  validation_error,
}
use mathlib.Core.Bool.{or-true}
use ot_engineering_demonstra.Domain.Assurance.{is_active_execution}
use ot_engineering_demonstra.Validation.{
  LoadedValidationDefinition, ConstituentCaseDefinition, ValidationExecution,
}
use ot_engineering_demonstra.Validation.Catalogue.{find_last}
use ot_engineering_demonstra.Validation.Evidence.{
  CompositeConstituentLink, ValidationSuspensionRecord, link_valid,
}
use ot_engineering_demonstra.Validation.Store.{DeterminationStore, get_target}
use ot_engineering_demonstra.Validation.Composite.{CompositeService, verified_executed_result}
use ot_engineering_demonstra.Validation.Composite.Assemble.Execution.{
  Assembly, ExecutionSummary, add_execution, add_link, case_by_id, finished_link, with_common,
  find_run, provenance, run_of_execution, evidence_of_case, link_of,
}
use ot_engineering_demonstra.Validation.Composite.Assemble.Suspension.{
  add_suspension, unavailable_role, checked_source, suspension_link, common_configuration,
  common_build,
}
use ot_engineering_demonstra.Validation.Composite.Finalise.{decided}

abbrev pub case_ids : LoadedValidationDefinition → List String
case_ids definition = map (λ c. c.case_id) definition.definition.constituent_cases

-- A link that names a required case and passes its validator.
abbrev pub Required : LoadedValidationDefinition → CompositeConstituentLink → Type 0
Required definition link =
    (contains (case_ids definition) link.case_id ≡ true) × (link_valid link ≡ true)

find_last-listed :
    (cases : List ConstituentCaseDefinition) (i : String) {c : ConstituentCaseDefinition}
    → find_last (λ c. c.case_id == i) cases ≡ some c
    → contains (map (λ c. c.case_id) cases) i ≡ true
find_last-listed [] i h = cc
find_last-listed (x ∷ xs) i h = elim (Option-cases (find_last (λ c. c.case_id == i) xs)) [
  | inl e ↦ ground (arith, e)
  | inr e ↦ rw (find_last-listed xs i e.1) (or-true (x.case_id == i))
]

with_common-links :
    (execution : ValidationExecution) (a : Assembly) {b : Assembly}
    → with_common execution a ≡ ok b
    → a.links ≡ b.links
with_common-links execution a h = elim (option-none-ok a.configuration _ _ h) [
  | inl (common, c, e) ↦
      ap (λ x. x.links)
        (guard-ok (execution.configuration_id == common.0) validation_error_boundary a e)
  | inr (c, e) ↦ ap (λ x. x.links) (ok-injective e)
]

finished_link-eq-ok :
    (service : CompositeService) (case_id : String) (case_ : ConstituentCaseDefinition)
    (summary : ExecutionSummary) (s : DeterminationStore) {link : CompositeConstituentLink}
    → finished_link service case_id case_ summary s ≡ ok link
    → (case_id ≡ link.case_id) × (link_valid link ≡ true)
unfolding finished_link
finished_link-eq-ok service case_id case_ summary s {link} h =
    let (d, h1) = guard-eq-ok (decided summary.execution.verdict) validation_error_boundary _ h in
    let (result, e, h2) =
      >>=-eq-ok (verified_executed_result summary.execution summary.evidence_snapshots s) _ h1 in
    let (v, h3) =
      guard-eq-ok (link_valid (link_of case_id case_ result summary.execution service.case_sha256))
        validation_error _ h2 in
    let q = ok-injective h3 in (ap (λ l. l.case_id) q, subst (λ l. link_valid l ≡ true) q v)

guarded_link :
    (link : CompositeConstituentLink) (a : Assembly) {b : Assembly}
    → (guard (link_valid link) validation_error >> ok (add_link a link)) ≡ ok b
    → (link_valid link ≡ true) × (a.links ++ (link ∷ []) ≡ b.links)
guarded_link link a h =
    let (v, e) = guard-eq-ok (link_valid link) validation_error (ok (add_link a link)) h in
    (v, ap (λ z. z.links) (ok-injective e))

-- What a round adds to the links.
abbrev pub Added : LoadedValidationDefinition → Assembly → Assembly → Type 0
Added definition a b =
    (a.links ≡ b.links)
    ⊎ ((link : CompositeConstituentLink) × Required definition link
        × (a.links ++ (link ∷ []) ≡ b.links))

module _ (service : CompositeService) (definition : LoadedValidationDefinition)
    (s : DeterminationStore) where
  pub add_execution-Added :
      (summary : ExecutionSummary) (a : Assembly) {b : Assembly}
      → add_execution service definition s summary a ≡ ok b
      → Added definition a b
  unfolding add_execution
  add_execution-Added summary a {b} h =
      let execution = summary.execution in
      let (case_id, e1, h1) =
        >>=-eq-ok (or_raise execution.case_id validation_error_boundary) _ h in
      let (case_, e2, h2) =
        >>=-eq-ok (or_raise (case_by_id definition case_id) validation_error_boundary) _ h1 in
      let (p, h3) =
        guard-eq-ok (provenance service definition case_ execution) validation_error_boundary _
          h2 in
      let (common, e4, h4) = >>=-eq-ok (with_common execution a) _ h3 in
      let (run, e5, h5) = >>=-eq-ok (find_run service execution.scenario_run_id) _ h4 in
      let (r, h6) =
        guard-eq-ok (run_of_execution case_ execution run) validation_error_boundary _ h5 in
      let (x, h7) =
        guard-eq-ok
          (all (evidence_of_case service case_ case_id execution) summary.evidence_snapshots)
          validation_error_boundary _ h6 in
      let same = with_common-links execution a e4 in
      elim (branch-eq-ok (is_active_execution execution.status) _ _ h7) [
        | inl q ↦ inl (same ∙ ap (λ z. z.links) (ok-injective q.1))
        | inr q ↦
            let (link, l, h8) = >>=-eq-ok (finished_link service case_id case_ summary s) _ q.1 in
            let (c, v) = finished_link-eq-ok service case_id case_ summary s l in
            inr (
              link,
              (
                subst (λ i. contains (case_ids definition) i ≡ true) c
                    (find_last-listed definition.definition.constituent_cases case_id
                      (or_raise-eq-ok _ _ e2)),
                v,
              ),
              ap (λ ls. ls ++ (link ∷ [])) same ∙ ap (λ z. z.links) (ok-injective h8),
            )
      ]

  pub add_suspension-Added :
      (r : ValidationSuspensionRecord) (a : Assembly) {b : Assembly}
      → add_suspension service definition s r a ≡ ok b
      → Added definition a b
  unfolding add_suspension
  add_suspension-Added r a {b} h =
      let (target, e1, h1) = >>=-eq-ok (get_target r.target_selection_id s) _ h in
      let (case_id, e2, h2) = >>=-eq-ok (or_raise target.case_id validation_error_boundary) _ h1 in
      let (case_, e3, h3) =
        >>=-eq-ok (or_raise (case_by_id definition case_id) validation_error_boundary) _ h2 in
      let (source, e4, h4) = >>=-eq-ok (checked_source service definition s r target case_) _ h3 in
      let (configuration, e5, h5) = >>=-eq-ok (common_configuration target a.configuration) _ h4 in
      let (build, e6, h6) = >>=-eq-ok (common_build target a.application_build_id) _ h5 in
      let (v, q) =
        guarded_link
          (suspension_link service definition case_id case_ r (unavailable_role r target) source)
          (record a { configuration = configuration; application_build_id = build }) h6 in
      inr (
        suspension_link service definition case_id case_ r (unavailable_role r target) source,
        (
          find_last-listed definition.definition.constituent_cases case_id (or_raise-eq-ok _ _ e3),
          v,
        ),
        q,
      )

pub Added-Required :
    (definition : LoadedValidationDefinition) (a b : Assembly)
    → Added definition a b
    → All (Required definition) a.links
    → All (Required definition) b.links
Added-Required definition a b (inl e) h = subst (All (Required definition)) e h
Added-Required definition a b (inr (link, r, e)) h =
    subst (All (Required definition)) e
      (All-append (Required definition) a.links (link ∷ []) h (r, tt))
