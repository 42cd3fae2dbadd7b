-- ===== src/Validation/Determination/Binding/Bound.antt =====
-- What `bind_context` freezes, where it returns.
use ot_engineering_demonstra.Base.{
  String, ◌==◌, ℕ, nat_eq, nat_eq_iff, true, false, ◌≡◌, refl, sym, ap, ◌∙◌, subst, Option, some,
  List, [], ◌∷◌, ◌++◌, map, map_m, All, All-mono, All-of, All-map_m, find, find-test, any, same_set,
  Bool-cases, inl, inr, arith, ok, err, ok-injective, >>=-eq-ok, guard-eq-ok, or_raise,
  or_raise-eq-ok, key_error, determination_error, validation_not_found,
}
use ot_engineering_demonstra.Domain.Assurance.{is_open_attempt, same_class, is_frozen}
use ot_engineering_demonstra.Validation.{
  DeterminationSourceRecord, DeterminationContext, DeterminationContextMember, context_valid,
}
use ot_engineering_demonstra.Validation.Catalogue.{get, get_method}
use ot_engineering_demonstra.Validation.Adapters.{records}
use ot_engineering_demonstra.Validation.Store.{
  DeterminationStore, get_attempt, get_target, source_ids_for_attempt, get_source, get_context,
  store_if-eq-ok,
}
use ot_engineering_demonstra.Validation.Store.Write.{insert_frozen_context, context_exists}
use ot_engineering_demonstra.Validation.Store.Action.{
  pure-eq-ok, read-eq-ok, require-eq-ok, write-eq-ok, >>=-eq-ok as action-eq-ok,
}
use ot_engineering_demonstra.Validation.Determination.{DeterminationService}
use ot_engineering_demonstra.Validation.Determination.Binding.{
  BindingRequest, bind_context, execution_for, frozen_context,
}
use ot_engineering_demonstra.Validation.Determination.Binding.Members.{
  BoundTarget, bound_target, bound_source, context_member, context_members, provenance_matches,
  run_matches, target_bound, distinct_ids,
}

-- A member is a stored source of the attempt and the role, with the provenance of the target, the
-- build of the service and the evidence class of the method.
abbrev pub Sourced :
    DeterminationService → BoundTarget → DeterminationStore → DeterminationContextMember → Type 0
Sourced service b s m =
    (source : DeterminationSourceRecord) × (get_source m.source_record_id s ≡ ok source)
    × ((source.source_role == m.role) ≡ true)
    × (nat_eq source.validation_attempt_id b.attempt.validation_attempt_id ≡ true)
    × (provenance_matches b source ≡ true)
    × ((source.application_build_id == service.application_build_id) ≡ true)
    × (same_class source.evidence_class b.method.evidence_class ≡ true)
    × (source.canonical_payload_sha256 ≡ m.source_record_sha256)

get_source-id :
    (i : ℕ) (s : DeterminationStore) {source : DeterminationSourceRecord}
    → get_source i s ≡ ok source
    → source.source_record_id ≡ i
unfolding get_source
get_source-id i s {source} h =
    (nat_eq_iff source.source_record_id i).0
      (find-test (λ r. nat_eq r.source_record_id i) s.sources source (or_raise-eq-ok _ _ h))

module _ (service : DeterminationService) (b : BoundTarget) (run execution : Option ℕ)
    (s : DeterminationStore) where
  context_member-Sourced :
      (role : String) {m : DeterminationContextMember}
      → context_member service b run execution s role ≡ ok m
      → (m.role ≡ role) × Sourced service b s m
  unfolding context_member
  context_member-Sourced role h =
      let (source, e, h1) = >>=-eq-ok (bound_source b role s) _ h in
      let (binding, f, e1) =
        >>=-eq-ok (or_raise (find (λ x. x.source_role == role) b.bindings) key_error) _ e in
      let (r, h2) = guard-eq-ok (source.source_role == role) _ _ h1 in
      let (a, h3) =
        guard-eq-ok (nat_eq source.validation_attempt_id b.attempt.validation_attempt_id) _ _ h2 in
      let (p, h4) = guard-eq-ok (provenance_matches b source) _ _ h3 in
      let (authority, q, h5) =
        >>=-eq-ok
          (elim (records source) [
            | ok authority ↦ ok authority
            | err failure ↦ err determination_error
          ])
          _ h4 in
      let (u, h6) =
        guard-eq-ok (source.application_build_id == service.application_build_id) _ _ h5 in
      let (c, h7) = guard-eq-ok (same_class source.evidence_class b.method.evidence_class) _ _ h6 in
      let (d, h8) = guard-eq-ok (run_matches b run execution source authority) _ _ h7 in
      let g =
        subst (λ i. get_source i s ≡ ok source) (sym (get_source-id binding.source_record_id s e1))
          e1 in
      subst (λ m. (m.role ≡ role) × Sourced service b s m) (ok-injective h8)
        (refl, (source, g, r, a, p, u, c, refl))

  -- The members are those of the roles, in their order.
  context_members-roles :
      (roles : List String) {ms : List DeterminationContextMember}
      → map_m (context_member service b run execution s) roles ≡ ok ms
      → map (λ m. m.role) ms ≡ roles
  context_members-roles [] {ms} h = ap (map (λ m. m.role)) (sym (ok-injective h))
  context_members-roles (r ∷ rs) {ms} h =
      let (m, e, h1) = >>=-eq-ok (context_member service b run execution s r) _ h in
      let (rest, f, h2) = >>=-eq-ok (map_m (context_member service b run execution s) rs) _ h1 in
      subst (λ ms. map (λ m. m.role) ms ≡ r ∷ rs) (ok-injective h2)
        (ap (λ x. x ∷ map (λ m. m.role) rest) (context_member-Sourced r e).0
          ∙ ap (λ xs. r ∷ xs) (context_members-roles rs f))

  context_members-Sourced :
      (roles : List String) {ms : List DeterminationContextMember}
      → map_m (context_member service b run execution s) roles ≡ ok ms
      → All (Sourced service b s) ms
  context_members-Sourced roles h =
      All-map_m (λ r. Unit {0}) (Sourced service b s) _ roles
        (λ r m t e. (context_member-Sourced r e).1) (All-of (λ r. Unit {0}) roles (λ r. tt)) h

find-last :
    (c : DeterminationContext) (xs : List DeterminationContext)
    → any (λ d. nat_eq d.determination_context_id c.determination_context_id) xs ≡ false
    → find (λ d. nat_eq d.determination_context_id c.determination_context_id) (xs ++ (c ∷ []))
      ≡ some c
find-last c [] h =
    rw ((nat_eq_iff c.determination_context_id c.determination_context_id).1 refl) refl
find-last c (x ∷ xs) h =
    elim (Bool-cases (nat_eq x.determination_context_id c.determination_context_id)) [
      | inl e ↦ ground arith
      | inr e ↦ rw e (find-last c xs (rw e at h))
    ]

-- A context that is stored is found, and the sources are those that were there.
insert_frozen_context-found :
    (c : DeterminationContext) (s : DeterminationStore) {t : DeterminationStore}
    → insert_frozen_context c s ≡ ok t
    → (get_context c.determination_context_id t ≡ ok c) × (t.sources ≡ s.sources)
unfolding insert_frozen_context get_context
insert_frozen_context-found c s {t} h =
    let (allowed, stored) = store_if-eq-ok _ _ h in
    let free : context_exists c.determination_context_id s ≡ false = ground arith in
    subst (λ t. (get_context c.determination_context_id t ≡ ok c) × (t.sources ≡ s.sources)) stored
      (rw (find-last c s.contexts free) refl, refl)

resourced :
    (service : DeterminationService) (b : BoundTarget) (u w : DeterminationStore)
    (m : DeterminationContextMember)
    → Sourced service b u m
    → w.sources ≡ u.sources
    → Sourced service b w m
unfolding get_source
resourced service b u w m k e = (
  k.0,
  subst
      (λ xs.
        or_raise (find (λ r. nat_eq r.source_record_id m.source_record_id) xs) validation_not_found
        ≡ ok k.0)
      (sym e) k.1,
  k.2,
  k.3,
  k.4,
  k.5,
  k.6,
  k.7,
)

bound_target-open :
    (service : DeterminationService) (i : ℕ) (s : DeterminationStore) {b : BoundTarget}
    → bound_target service i s ≡ ok b
    → (get_attempt i s ≡ ok b.attempt) × (is_open_attempt b.attempt.status ≡ true)
unfolding bound_target
bound_target-open service i s {b} h =
    let (a, e, h1) = >>=-eq-ok (get_attempt i s) _ h in
    let (fresh, h2) = guard-eq-ok (is_open_attempt a.status) determination_error _ h1 in
    let (t, f, h3) = >>=-eq-ok (get_target a.target_selection_id s) _ h2 in
    let (m, g, h4) = >>=-eq-ok (get_method service.catalogue t.test_id t.case_id) _ h3 in
    let (l, k, h5) = >>=-eq-ok (get service.catalogue t.test_id) _ h4 in
    let (u1, h6) = guard-eq-ok (target_bound t l m) determination_error _ h5 in
    let (u2, h7) =
      guard-eq-ok
        (same_set (map (λ x. x.source_role) (source_ids_for_attempt i s)) m.required_context_roles)
        determination_error _ h6 in
    let (u3, h8) =
      guard-eq-ok (distinct_ids (map (λ x. x.source_record_id) (source_ids_for_attempt i s)))
        determination_error _ h7 in
    subst (λ b. (get_attempt i s ≡ ok b.attempt) × (is_open_attempt b.attempt.status ≡ true))
      (ok-injective h8) (e, fresh)

-- `bind_context` returns only where the attempt is stored and open, and what it returns is frozen.
-- Its members are the roles that the method requires, each once and in that order, and each is a
-- stored source of that attempt and role with the target's provenance, the service's build and the
-- method's evidence class. The context is then in the store.
pub bind_context-bound :
    (service : DeterminationService) (r : BindingRequest) (s : DeterminationStore)
    {context : DeterminationContext} {s' : DeterminationStore}
    → bind_context service r s ≡ (ok context, s')
    → (b : BoundTarget) × (bound_target service r.validation_attempt_id s ≡ ok b)
      × (get_attempt r.validation_attempt_id s ≡ ok b.attempt)
      × (is_open_attempt b.attempt.status ≡ true)
      × (map (λ m. m.role) context.members ≡ b.method.required_context_roles)
      × All (Sourced service b s') context.members
      × (is_frozen context.status ≡ true)
      × (context_valid context ≡ true)
      × (get_context context.determination_context_id s' ≡ ok context)
unfolding bind_context context_members
bind_context-bound service r s {context} {s'} h =
    let (b, t, h1) = read-eq-ok (bound_target service r.validation_attempt_id) _ s h in
    let (execution, u, e, h2) = action-eq-ok (execution_for service r b) _ s h1 in
    let (ms, m, h3) =
      read-eq-ok (context_members service b r.scenario_run_id (some execution)) _ u h2 in
    let c = frozen_context service r b execution ms in
    let (v, h4) = require-eq-ok (context_valid c) _ _ u h3 in
    let (w, i, h5) = write-eq-ok (insert_frozen_context c) _ u h4 in
    let (p, q) = pure-eq-ok c w h5 in
    let (found, same) = insert_frozen_context-found c u i in
    let sourced =
      context_members-Sourced service b r.scenario_run_id (some execution) u
        b.method.required_context_roles m in
    let roles =
      context_members-roles service b r.scenario_run_id (some execution) u
        b.method.required_context_roles m in
    subst
      (λ x.
        (b : BoundTarget) × (bound_target service r.validation_attempt_id s ≡ ok b)
        × (get_attempt r.validation_attempt_id s ≡ ok b.attempt)
        × (is_open_attempt b.attempt.status ≡ true)
        × (map (λ m. m.role) x.members ≡ b.method.required_context_roles)
        × All (Sourced service b s') x.members
        × (is_frozen x.status ≡ true)
        × (context_valid x ≡ true)
        × (get_context x.determination_context_id s' ≡ ok x))
      p
      (subst
        (λ z.
          (b : BoundTarget) × (bound_target service r.validation_attempt_id s ≡ ok b)
          × (get_attempt r.validation_attempt_id s ≡ ok b.attempt)
          × (is_open_attempt b.attempt.status ≡ true)
          × (map (λ m. m.role) c.members ≡ b.method.required_context_roles)
          × All (Sourced service b z) c.members
          × (is_frozen c.status ≡ true)
          × (context_valid c ≡ true)
          × (get_context c.determination_context_id z ≡ ok c))
        q
        (
          b,
          t,
          (bound_target-open service r.validation_attempt_id s t).0,
          (bound_target-open service r.validation_attempt_id s t).1,
          roles,
          All-mono _ _ ms (λ m k. resourced service b u w m k same) sourced,
          refl,
          v,
          found,
        ))
