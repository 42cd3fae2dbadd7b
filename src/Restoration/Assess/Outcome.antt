-- ===== src/Restoration/Assess/Outcome.antt =====
-- How the outcome of an assessment follows from its permissives.
use ot_engineering_demonstra.Base.{
  ℕ, ◌==◌, true, false, Option, none, some, map, find, or_raise, stop_iteration, List, [], ◌∷◌, any,
  All, ok, >>=-eq-ok, ok-injective, ◌≡◌, ◌≢◌, ◌↔◌, ◌⊎◌, inl, inr, refl, sym, ap, ◌∙◌, subst,
  Option-cases, arith,
}
use ot_engineering_demonstra.Domain.{
  pass, no_candidate, blocked, rejected, permitted, is_fail, is_insufficient, fault_isolation,
  alternate_source, radial_topology, telemetry_validity, capacity,
}
use ot_engineering_demonstra.Domain.Config.{LoadedConfiguration, Feeder}
use ot_engineering_demonstra.Topology.Models.{TopologyResult}
use ot_engineering_demonstra.Restoration.Capacity.{calculate_capacity}
use ot_engineering_demonstra.Telemetry.{TelemetryPoint}
use ot_engineering_demonstra.Restoration.{
  Libraries, RestorationCandidate, RestorationTelemetryEvidence, PermissiveResult,
  RestorationCalculation, RestorationAssessment, RestorationAssessmentInputs,
}
use ot_engineering_demonstra.Restoration.Candidate.{
  item, point_states, discover_candidate, proposed_topology,
}
use ot_engineering_demonstra.Restoration.Permissives.{
  conclude, alternate_permissive, alternate_result, all_supplied, attributed, capacity_of,
  capacity_result, capacity_permissive, isolation_permissive, evaluate_radiality,
  telemetry_permissive,
}
use ot_engineering_demonstra.Restoration.Assess.{
  assess, assess_candidate, assessment_of, evidence_list, required_evidence_points,
}

abbrev pub AllPass : List PermissiveResult → Type 0
AllPass = All λ p. p.status ≡ pass

none_insufficient_or_fail :
    (ps : List PermissiveResult)
    → any (λ p. is_insufficient p.status) ps ≡ false
    → any (λ p. is_fail p.status) ps ≡ false
    → AllPass ps
none_insufficient_or_fail [] i f = tt
none_insufficient_or_fail (p ∷ ps) i f =
    (ground arith, none_insufficient_or_fail ps (ground arith) (ground arith))

AllPass-any :
    (ps : List PermissiveResult)
    → AllPass ps
    → (any (λ p. is_insufficient p.status) ps ≡ false) × (any (λ p. is_fail p.status) ps ≡ false)
AllPass-any [] h = (refl, refl)
AllPass-any (p ∷ ps) h = let rest = AllPass-any ps h.1 in (ground arith, ground arith)

-- The order of the decision: any INSUFFICIENT permissive blocks; otherwise any FAIL rejects; and
-- exactly when all permissives PASS the restoration is permitted.
pub conclude-outcome :
    (ps : List PermissiveResult)
    → (((conclude ps).0 ≡ blocked) ↔ (any (λ p. is_insufficient p.status) ps ≡ true))
      × (((conclude ps).0 ≡ rejected) ↔ (
          (any (λ p. is_insufficient p.status) ps ≡ false)
          × (any (λ p. is_fail p.status) ps ≡ true)))
      × (((conclude ps).0 ≡ permitted) ↔ AllPass ps)
      × ((conclude ps).0 ≢ no_candidate)
unfolding conclude
conclude-outcome ps =
    let i = any (λ p. is_insufficient p.status) ps in
    let f = any (λ p. is_fail p.status) ps in
    (
      ground arith,
      ground arith,
      (
        λ h. none_insufficient_or_fail ps (ground arith) (ground arith),
        λ h. let (a, b) = AllPass-any ps h in ground arith,
      ),
      ground arith,
    )

alternate_permissive-criterion :
    (inputs : RestorationAssessmentInputs) (proposed : TopologyResult) (c : RestorationCandidate)
    {p : PermissiveResult}
    → alternate_permissive inputs proposed c ≡ ok p
    → p.criterion ≡ alternate_source
unfolding alternate_permissive alternate_result
alternate_permissive-criterion inputs proposed c {p} h =
    let (a, e1, h1) = >>=-eq-ok (item c.alternate_source_id inputs.source_availability) _ h in
    let (b, e2, h2) = >>=-eq-ok (item c.alternate_source_breaker_id (point_states inputs)) _ h1 in
    let (supplied, e3, h3) =
      >>=-eq-ok (all_supplied proposed c.alternate_feeder_id c.proposed_section_ids) _ h2 in
    subst (λ p. p.criterion ≡ alternate_source) (ok-injective h3) refl

capacity_of-criterion :
    (feeder : Feeder) (c : RestorationCandidate) (load : Option ℕ)
    {r : Option RestorationCalculation × PermissiveResult}
    → capacity_of feeder c load ≡ ok r
    → r.1.criterion ≡ capacity
unfolding capacity_of capacity_result
capacity_of-criterion feeder c none h = subst (λ r. r.1.criterion ≡ capacity) (ok-injective h) refl
capacity_of-criterion feeder c (some existing) h =
    let (k, e, h1) =
      >>=-eq-ok
        (calculate_capacity feeder.entity_id existing c.transferable_load_kw feeder.capacity_kw) _
        h in
    subst (λ r. r.1.criterion ≡ capacity) (ok-injective h1) refl

capacity_permissive-criterion :
    (loaded : LoadedConfiguration) (current : TopologyResult) (c : RestorationCandidate)
    {r : Option RestorationCalculation × PermissiveResult}
    → capacity_permissive loaded current c ≡ ok r
    → r.1.criterion ≡ capacity
unfolding capacity_permissive
capacity_permissive-criterion loaded current c h =
    let (load, e1, h1) =
      >>=-eq-ok
        (or_raise (find (λ l. l.feeder_id == c.alternate_feeder_id) current.feeder_loads)
          stop_iteration)
        _ h in
    let (feeder, e2, h2) =
      >>=-eq-ok
        (or_raise (find (λ f. f.entity_id == c.alternate_feeder_id) loaded.config.feeders)
          stop_iteration)
        _ h1 in
    capacity_of-criterion feeder c (attributed load) h2

-- The five criteria, each judged once and in this order, and the outcome that they give.
abbrev pub Decided : RestorationAssessment → Type 0
Decided a =
    (map (λ p. p.criterion) a.permissives
      ≡ fault_isolation ∷ alternate_source ∷ radial_topology ∷ telemetry_validity ∷ capacity ∷ [])
    × ((a.outcome ≡ blocked) ↔ (any (λ p. is_insufficient p.status) a.permissives ≡ true))
    × ((a.outcome ≡ rejected) ↔ (
        (any (λ p. is_insufficient p.status) a.permissives ≡ false)
        × (any (λ p. is_fail p.status) a.permissives ≡ true)))
    × ((a.outcome ≡ permitted) ↔ AllPass a.permissives)
    × (a.outcome ≢ no_candidate)

module _ (L : Libraries) (loaded : LoadedConfiguration) (inputs : RestorationAssessmentInputs) where
  abbrev pub NoCandidate : RestorationAssessment → Type 0
  NoCandidate a = (a.candidate ≡ none) × (a.outcome ≡ no_candidate) × (a.permissives ≡ [])

  assess_candidate-Decided :
      (points : List TelemetryPoint) (evidence : List RestorationTelemetryEvidence)
      (c : RestorationCandidate) {a : RestorationAssessment}
      → assess_candidate L loaded inputs points evidence c ≡ ok a
      → (a.candidate ≡ some c) × Decided a
  unfolding assess_candidate assessment_of isolation_permissive evaluate_radiality
      telemetry_permissive
  assess_candidate-Decided points evidence c {a} h =
      let (proposed, e1, h1) = >>=-eq-ok (proposed_topology L loaded inputs c) _ h in
      let (alternate, e2, h2) = >>=-eq-ok (alternate_permissive inputs proposed c) _ h1 in
      let (calculated, e3, h3) =
        >>=-eq-ok (capacity_permissive loaded inputs.current_topology c) _ h2 in
      let third = alternate_permissive-criterion inputs proposed c e2 in
      let fifth = capacity_permissive-criterion loaded inputs.current_topology c e3 in
      let ps =
        isolation_permissive inputs.current_topology.isolation_proof
        ∷ alternate
        ∷ evaluate_radiality proposed (map (λ e. e.point_id) evidence)
        ∷ telemetry_permissive evidence
        ∷ calculated.1
        ∷ [] in
      let (b, r, t, n) = conclude-outcome ps in
      subst (λ a. (a.candidate ≡ some c) × Decided a) {x = _} {y = a} (ok-injective h3)
        (
          refl,
          (
            ap
                  (λ k.
                    fault_isolation ∷ k ∷ radial_topology ∷ telemetry_validity
                    ∷ calculated.1.criterion ∷ [])
                  third
                ∙ ap
                    (λ k.
                      fault_isolation ∷ alternate_source ∷ radial_topology ∷ telemetry_validity ∷ k
                      ∷ [])
                    fifth,
            b,
            r,
            t,
            n,
          ),
        )

  -- Where no candidate is discovered, an assessment judges no permissive and its outcome is
  -- NO_CANDIDATE. Otherwise it judges the five criteria, each once and in their order, and is BLOCKED
  -- exactly when one is INSUFFICIENT, REJECTED exactly when none is and one is FAIL, and PERMITTED
  -- exactly when all are PASS.
  pub assess-outcome :
      (a : RestorationAssessment)
      → assess L loaded inputs ≡ ok a
      → (discover_candidate L loaded inputs ≡ ok a.candidate)
        × (NoCandidate a ⊎ ((a.candidate ≢ none) × Decided a))
  unfolding assess assessment_of
  assess-outcome a h =
      let (found, e1, h1) = >>=-eq-ok (discover_candidate L loaded inputs) _ h in
      let points = required_evidence_points loaded inputs.telemetry in
      let (evidence, e2, h2) = >>=-eq-ok (evidence_list inputs points) _ h1 in
      elim (Option-cases found) [
        | inl n ↦
            let h3 = rw n at h2 in
            subst Reported (ok-injective h3) (e1 ∙ ap ok n, inl (refl, refl, refl))
        | inr (c, s) ↦
            let (listed, decided) = assess_candidate-Decided points evidence c (rw s at h2) in
            (e1 ∙ ap ok (s ∙ sym listed), inr (λ n. cc, decided))
      ]
    where
      Reported : RestorationAssessment → Type 0
      Reported b =
          (discover_candidate L loaded inputs ≡ ok b.candidate)
          × (NoCandidate b ⊎ ((b.candidate ≢ none) × Decided b))
