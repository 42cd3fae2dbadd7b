-- ===== src/Scenario/Gates/Isolation.antt =====
-- What an available isolation action rests on.
use ot_engineering_demonstra.Base.{
  String, ◌==◌, Bool, true, false, ◌&&◌, Option, none, some, List, [], ◌∷◌, ◌++◌, All, Dict,
  contains, find, and_true, Bool-cases, Option-cases, ◌⊎◌, inl, inr, ◌≡◌, refl, sym, ap, ◌∙◌, arith,
}
use ot_engineering_demonstra.Domain.{
  BoundaryProofStatus, proven_open, proven_closed, unproven, NetworkStateLabel, n1,
}
use ot_engineering_demonstra.Topology.Models.{TopologyResult, IsolationProof, BoundaryEvaluation}
use ot_engineering_demonstra.Scenario.{RunContext, FormalScenarioDefinition, is_n1}
use ot_engineering_demonstra.Scenario.Gates.{
  first_not_open, status_of, evaluation_by_id, next_isolation_target, ordered_isolation_boundaries,
  exploration_isolation_action_gate, seen_closed,
}

-- All boundaries before the target in the order are proven open, and the target is proven closed.
abbrev pub IsNext : Dict BoundaryEvaluation → List String → String → Type 0
IsNext evaluations ids id =
    (before : List String) × (after : List String) × (ids ≡ before ++ id ∷ after)
    × All (λ b. status_of evaluations b ≡ some proven_open) before
    × (status_of evaluations id ≡ some proven_closed)

status-cases :
    (o : Option BoundaryProofStatus)
    → (o ≡ some proven_open) ⊎ ((o ≡ some proven_closed) ⊎ ((o ≡ some unproven) ⊎ (o ≡ none)))
status-cases none = inr (inr (inr refl))
status-cases (some proven_open) = inl refl
status-cases (some proven_closed) = inr (inl refl)
status-cases (some unproven) = inr (inr (inl refl))

some-injective : {a b : String} → some a ≡ some b → a ≡ b
some-injective h = cc

first_not_open-IsNext :
    (evaluations : Dict BoundaryEvaluation) (ids : List String) (id : String)
    → first_not_open evaluations ids ≡ some id
    → IsNext evaluations ids id
unfolding first_not_open
first_not_open-IsNext evaluations [] id h = cc
first_not_open-IsNext evaluations (b ∷ ids) id h = elim (status-cases (status_of evaluations b)) [
  | inl o ↦
      let (before, after, e, opens, closes) =
        first_not_open-IsNext evaluations ids id (rw (o, first_not_open) at h) in
      (b ∷ before, after, ap (b ∷◌) e, (o, opens), closes)
  | inr (inl c) ↦
      let same = some-injective (rw (c, first_not_open) at h) in
      ([], ids, ap (◌∷ ids) same, tt, ap (status_of evaluations) (sym same) ∙ c)
  | inr (inr (inl u)) ↦ let w = rw (u, first_not_open) at h in cc
  | inr (inr (inr n)) ↦ let w = rw (n, first_not_open) at h in cc
]

is_n1-n1 : (l : NetworkStateLabel) → is_n1 l ≡ true → l ≡ n1
is_n1-n1 l h = ground arith

-- The next isolation target is offered in the state N1 only, with an isolation proof: every
-- boundary before it in the procedure's order is proven open, and it is proven closed itself.
pub next_isolation_target-IsNext :
    (definition : FormalScenarioDefinition) (run : RunContext) (topology : TopologyResult)
    (id : String)
    → next_isolation_target definition run topology ≡ some id
    → (run.network_state_label ≡ n1)
      × ((proof : IsolationProof) × (topology.isolation_proof ≡ some proof)
          × IsNext
              (evaluation_by_id proof)
              (ordered_isolation_boundaries definition run proof.incident_boundary_device_ids)
              id)
unfolding next_isolation_target
next_isolation_target-IsNext definition run topology id h =
    elim (Bool-cases (is_n1 run.network_state_label)) [
      | inr f ↦ let w = rw (f, next_isolation_target) at h in cc
      | inl t ↦
          let h1 = rw (t, next_isolation_target) at h in
          elim (Option-cases topology.isolation_proof) [
            | inl n ↦ let w = rw n at h1 in cc
            | inr (proof, e) ↦ (
              is_n1-n1 run.network_state_label t,
              (
                proof,
                e,
                first_not_open-IsNext (evaluation_by_id proof)
                    (ordered_isolation_boundaries definition run proof.incident_boundary_device_ids)
                    id (rw e at h1),
              ),
            )
          ]
    ]

and_false : (b : Bool) → (b && false) ≡ true → ⊥
and_false b h = ground arith

seen_closed_of :
    (o : Option BoundaryEvaluation)
    → seen_closed o ≡ true
    → (e : BoundaryEvaluation) × (o ≡ some e) × (e.proof_status ≡ proven_closed)
seen_closed_of none h = ground arith
seen_closed_of (some e) h = (e, refl, ground arith)

-- Where the gate of exploration is open for a target, the state is N1 and the target is an incident
-- boundary that is evaluated as proven closed.
pub exploration_isolation_action_gate-closed :
    (run : RunContext) (topology : TopologyResult) (target : String)
    → exploration_isolation_action_gate run topology (some target) ≡ true
    → (run.network_state_label ≡ n1)
      × ((proof : IsolationProof) × (e : BoundaryEvaluation) × (topology.isolation_proof
            ≡ some proof)
          × (contains proof.incident_boundary_device_ids target ≡ true)
          × (find (λ e. e.boundary_device_id == target) proof.boundary_evaluations ≡ some e)
          × (e.proof_status ≡ proven_closed))
unfolding exploration_isolation_action_gate
exploration_isolation_action_gate-closed run topology target h =
    elim (Option-cases topology.isolation_proof) [
      | inl n ↦ let w = rw (n, exploration_isolation_action_gate) at h in absurd (and_false _ w)
      | inr (proof, e) ↦
          let (a, b) = and_true _ _ (rw (e, exploration_isolation_action_gate) at h) in
          let (c, d) = and_true _ _ b in
          let (v, found, status) = seen_closed_of _ d in
          (is_n1-n1 run.network_state_label a, (proof, v, e, c, found, status))
    ]
