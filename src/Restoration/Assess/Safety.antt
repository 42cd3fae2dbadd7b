-- ===== src/Restoration/Assess/Safety.antt =====
-- What is known of the network when an assessment permits the restoration.
use ot_engineering_demonstra.Base.{
  Bool, true, ◌&&◌, Option, none, some, List, [], ◌∷◌, All, ok, >>=-eq-ok, ok-injective, Bool-cases,
  ◌≡◌, refl, ap, ◌∙◌, subst, arith, String, ◌==◌, find, contains, lookup, Option-cases, ◌≤◌, ℕ, ◌+◌,
  or_raise, or_raise-eq-ok, key_error, stop_iteration, inl, inr,
}
use ot_engineering_demonstra.Domain.{
  permitted, is_available, is_closed, SwitchState, SourceAvailability, available, closed, radial,
  pass,
}
use ot_engineering_demonstra.Domain.Config.{LoadedConfiguration, Feeder}
use ot_engineering_demonstra.Topology.Models.{
  TopologyResult, IsolationProof, DerivedFeederLoad, SectionDerivedState,
}
use ot_engineering_demonstra.Telemetry.{TelemetryPoint}
use ot_engineering_demonstra.Restoration.{
  Libraries, RestorationCandidate, RestorationTelemetryEvidence, RestorationCalculation,
  PermissiveResult, RestorationAssessment, RestorationAssessmentInputs,
}
use ot_engineering_demonstra.Restoration.Candidate.{
  discover_candidate, proposed_topology, item, point_states,
}
use ot_engineering_demonstra.Restoration.Capacity.{calculate_capacity}
use ot_engineering_demonstra.Restoration.Capacity.Rounding.{calculate_capacity-pass}
use ot_engineering_demonstra.Restoration.Permissives.{
  alternate_permissive, alternate_result, capacity_permissive, capacity_of, capacity_result,
  all_supplied, proof_isolated, isolation_permissive, evaluate_radiality, telemetry_permissive,
  pass_if, attributed,
}
use ot_engineering_demonstra.Restoration.Assess.{
  assess, assess_candidate, assessment_of, evidence_list, required_evidence_points,
}
use ot_engineering_demonstra.Restoration.Assess.Outcome.{conclude-outcome}

-- The section is in the topology, and the feeder feeds it.
abbrev pub FedBy : TopologyResult → String → String → Type 0
FedBy t feeder id =
    (s : SectionDerivedState) × (find (λ s. s.section_id == id) t.sections ≡ some s)
    × (contains s.source_feeder_ids feeder ≡ true)

-- What the load of the alternate feeder becomes stays within its capacity.
abbrev pub WithinCapacity : LoadedConfiguration → TopologyResult → RestorationCandidate → Type 0
WithinCapacity loaded current c =
    (load : DerivedFeederLoad) × (feeder : Feeder) × (existing : ℕ) × (find
        (λ l. l.feeder_id == c.alternate_feeder_id) current.feeder_loads
      ≡ some load)
    × (find (λ f. f.entity_id == c.alternate_feeder_id) loaded.config.feeders ≡ some feeder)
    × (load.load_attribution_complete ≡ true)
    × (load.currently_supplied_load_kw ≡ some existing)
    × (existing + c.transferable_load_kw ≤ feeder.capacity_kw)

all_supplied-FedBy :
    (t : TopologyResult) (feeder : String) (ids : List String)
    → all_supplied t feeder ids ≡ ok true
    → All (FedBy t feeder) ids
unfolding all_supplied
all_supplied-FedBy t feeder [] h = tt
all_supplied-FedBy t feeder (id ∷ ids) h =
    let (s, e, h1) =
      >>=-eq-ok (or_raise (find (λ s. s.section_id == id) t.sections) stop_iteration) _ h in
    elim (Bool-cases (contains s.source_feeder_ids feeder)) [
      | inl y ↦
          ((s, or_raise-eq-ok _ stop_iteration e, y), all_supplied-FedBy t feeder ids (rw y at h1))
      | inr n ↦ let h2 = rw n at h1 in cc
    ]

abbrev InService : RestorationAssessmentInputs → TopologyResult → RestorationCandidate → Type 0
InService inputs proposed c =
    (lookup c.alternate_source_id inputs.source_availability ≡ some available)
    × (lookup c.alternate_source_breaker_id (point_states inputs) ≡ some closed)
    × All (FedBy proposed c.alternate_feeder_id) c.proposed_section_ids

available_of : (a : SourceAvailability) → is_available a ≡ true → a ≡ available
available_of a h = ground arith

closed_of : (s : SwitchState) → is_closed s ≡ true → s ≡ closed
closed_of s h = ground arith

all_three : (a b c : Bool) → pass_if (a && b && c) ≡ pass → (a ≡ true) × (b ≡ true) × (c ≡ true)
all_three a b c h = ground arith

alternate_permissive-pass :
    (inputs : RestorationAssessmentInputs) (proposed : TopologyResult) (c : RestorationCandidate)
    (p : PermissiveResult)
    → alternate_permissive inputs proposed c ≡ ok p
    → p.status ≡ pass
    → InService inputs proposed c
unfolding alternate_permissive alternate_result
alternate_permissive-pass inputs proposed c p h s =
    let (a, e1, h1) = >>=-eq-ok (item c.alternate_source_id inputs.source_availability) _ h in
    let (b, e2, h2) = >>=-eq-ok (item c.alternate_source_breaker_id (point_states inputs)) _ h1 in
    let (u, e3, h3) =
      >>=-eq-ok (all_supplied proposed c.alternate_feeder_id c.proposed_section_ids) _ h2 in
    let (ta, tb, tu) =
      all_three (is_available a) (is_closed b) u (ap (λ q. q.status) (ok-injective h3) ∙ s) in
    (
      or_raise-eq-ok _ key_error e1 ∙ ap some (available_of a ta),
      or_raise-eq-ok _ key_error e2 ∙ ap some (closed_of b tb),
      all_supplied-FedBy proposed c.alternate_feeder_id c.proposed_section_ids (e3 ∙ ap ok tu),
    )

pass_if-true : (b : Bool) → pass_if b ≡ pass → b ≡ true
pass_if-true b h = ground arith

capacity_of-pass :
    (feeder : Feeder) (c : RestorationCandidate) (load : Option ℕ)
    (r : Option RestorationCalculation × PermissiveResult)
    → capacity_of feeder c load ≡ ok r
    → r.1.status ≡ pass
    → (existing : ℕ) × (load ≡ some existing)
      × (existing + c.transferable_load_kw ≤ feeder.capacity_kw)
unfolding capacity_of capacity_result
capacity_of-pass feeder c none r h s = let e = ap (λ q. q.1.status) (ok-injective h) ∙ s in cc
capacity_of-pass feeder c (some existing) r h s =
    let (k, e, h1) =
      >>=-eq-ok
        (calculate_capacity feeder.entity_id existing c.transferable_load_kw feeder.capacity_kw) _
        h in
    let t = pass_if-true k.capacity_pass (ap (λ q. q.1.status) (ok-injective h1) ∙ s) in
    (
      existing,
      refl,
      calculate_capacity-pass feeder.entity_id existing c.transferable_load_kw feeder.capacity_kw k
          e t,
    )

attributed-some :
    (load : DerivedFeederLoad) (n : ℕ)
    → attributed load ≡ some n
    → (load.load_attribution_complete ≡ true) × (load.currently_supplied_load_kw ≡ some n)
attributed-some load n h = ground arith

capacity_permissive-pass :
    (loaded : LoadedConfiguration) (current : TopologyResult) (c : RestorationCandidate)
    (r : Option RestorationCalculation × PermissiveResult)
    → capacity_permissive loaded current c ≡ ok r
    → r.1.status ≡ pass
    → WithinCapacity loaded current c
unfolding capacity_permissive
capacity_permissive-pass loaded current c r h s =
    let (load, e1, h1) =
      >>=-eq-ok
        (or_raise (find (λ l. l.feeder_id == c.alternate_feeder_id) current.feeder_loads)
          stop_iteration)
        _ h in
    let (feeder, e2, h2) =
      >>=-eq-ok
        (or_raise (find (λ f. f.entity_id == c.alternate_feeder_id) loaded.config.feeders)
          stop_iteration)
        _ h1 in
    let (n, en, bound) = capacity_of-pass feeder c (attributed load) r h2 s in
    let (complete, known) = attributed-some load n en in
    (
      load,
      feeder,
      n,
      or_raise-eq-ok _ stop_iteration e1,
      or_raise-eq-ok _ stop_iteration e2,
      complete,
      known,
      bound,
    )

-- What an assessment that permits rests on.
pub record IsSafe (L : Libraries) (loaded : LoadedConfiguration)
    (inputs : RestorationAssessmentInputs) (a : RestorationAssessment) : Type 0 where
  pub candidate : RestorationCandidate
  pub candidate_eq : a.candidate ≡ some candidate
  pub discovered : discover_candidate L loaded inputs ≡ ok (some candidate)
  pub isolated : proof_isolated inputs.current_topology.isolation_proof ≡ true
  pub proposed : TopologyResult
  pub proposed_eq : proposed_topology L loaded inputs candidate ≡ ok proposed
  pub proposed_radial : proposed.radiality_status ≡ radial
  pub in_service : InService inputs proposed candidate
  pub within_capacity : WithinCapacity loaded inputs.current_topology candidate
  pub evidence_valid : All (λ e. e.overall_valid ≡ true) a.telemetry_evidence

telemetry_permissive-pass :
    (evidence : List RestorationTelemetryEvidence)
    → (telemetry_permissive evidence).status ≡ pass
    → All (λ e. e.overall_valid ≡ true) evidence
unfolding telemetry_permissive
telemetry_permissive-pass [] h = tt
telemetry_permissive-pass (e ∷ es) h = (ground arith, telemetry_permissive-pass es (ground arith))

radial_of :
    (t : TopologyResult) (ids : List String)
    → (evaluate_radiality t ids).status ≡ pass
    → t.radiality_status ≡ radial
unfolding evaluate_radiality
radial_of t ids h = ground arith

isolated_of :
    (p : Option IsolationProof) → (isolation_permissive p).status ≡ pass → proof_isolated p ≡ true
unfolding isolation_permissive
isolated_of p h = pass_if-true (proof_isolated p) h

module _ (L : Libraries) (loaded : LoadedConfiguration) (inputs : RestorationAssessmentInputs) where
  assess_candidate-IsSafe :
      (points : List TelemetryPoint) (evidence : List RestorationTelemetryEvidence)
      (c : RestorationCandidate) (a : RestorationAssessment)
      → discover_candidate L loaded inputs ≡ ok (some c)
      → assess_candidate L loaded inputs points evidence c ≡ ok a
      → a.outcome ≡ permitted
      → IsSafe L loaded inputs a
  unfolding assess_candidate assessment_of
  assess_candidate-IsSafe points evidence c a d h o =
      let (proposed, e1, h1) = >>=-eq-ok (proposed_topology L loaded inputs c) _ h in
      let (alternate, e2, h2) = >>=-eq-ok (alternate_permissive inputs proposed c) _ h1 in
      let (capacity, e3, h3) =
        >>=-eq-ok (capacity_permissive loaded inputs.current_topology c) _ h2 in
      let passes = (conclude-outcome _).2.0 (ap (λ b. b.outcome) (ok-injective h3) ∙ o) in
      subst (IsSafe L loaded inputs) (ok-injective h3) (record {
        candidate = c;
        candidate_eq = refl;
        discovered = d;
        isolated = isolated_of inputs.current_topology.isolation_proof passes.0;
        proposed = proposed;
        proposed_eq = e1;
        proposed_radial = radial_of proposed _ passes.1.1.0;
        in_service = alternate_permissive-pass inputs proposed c alternate e2 passes.1.0;
        within_capacity =
            capacity_permissive-pass loaded inputs.current_topology c capacity e3 passes.1.1.1.1.0;
        evidence_valid = telemetry_permissive-pass evidence passes.1.1.1.0;
      })

  -- An assessment that permits the restoration has a discovered candidate, and then: the fault is
  -- proven isolated; the topology with the tie closed was derived and is radial; the alternate
  -- source is available, its breaker closed, and it feeds every proposed section; the resulting
  -- load, from an attributable load, is within the feeder's capacity; and all evidence is valid.
  pub assess-IsSafe :
      (a : RestorationAssessment)
      → assess L loaded inputs ≡ ok a
      → a.outcome ≡ permitted
      → IsSafe L loaded inputs a
  unfolding assess assessment_of
  assess-IsSafe a h o =
      let (found, e1, h1) = >>=-eq-ok (discover_candidate L loaded inputs) _ h in
      let points = required_evidence_points loaded inputs.telemetry in
      let (evidence, e2, h2) = >>=-eq-ok (evidence_list inputs points) _ h1 in
      elim (Option-cases found) [
        | inl n ↦ let h3 = rw n at h2 in let w = ap (λ b. b.outcome) (ok-injective h3) ∙ o in cc
        | inr (c, s) ↦ assess_candidate-IsSafe points evidence c a (e1 ∙ ap ok s) (rw s at h2) o
      ]
