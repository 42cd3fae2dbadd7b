-- ===== src/Scenario/Gates.antt =====
-- application/scenario_coordinator.py: which isolation action is available.
pub mod Isolation
use ot_engineering_demonstra.Base.{
  String, ◌==◌, ℕ, suc, Bool, true, false, not, ◌&&◌, Option, none, some, List, [], ◌∷◌, length,
  find, contains, Dict, lookup, keys, dict_of, by_id, nat_eq, ltb, leb, str_leb, if◌then◌else◌,
}
use ot_engineering_demonstra.Base.Sort.{sort, sort_by}
use ot_engineering_demonstra.Domain.{proven_open, proven_closed, unproven, BoundaryProofStatus}
use ot_engineering_demonstra.Topology.Models.{TopologyResult, IsolationProof, BoundaryEvaluation}
use ot_engineering_demonstra.Scenario.{RunContext, FormalScenarioDefinition, is_exploration, is_n1}

abbrev enumerated : ℕ → List String → List (String × ℕ)
enumerated n [] = []
enumerated n (x ∷ xs) = (x, n) ∷ enumerated (suc n) xs

-- `procedure_index.get(device_id, len(procedure_index))`
abbrev procedure_index : List String → String → ℕ
procedure_index sequence id =
    let index = dict_of (enumerated 0 sequence) in
    elim (lookup id index) [ some n ↦ n | none ↦ length index ]

abbrev procedure_leb : List String → String → String → Bool
procedure_leb sequence a b =
    let i = procedure_index sequence a in
    let j = procedure_index sequence b in if nat_eq i j then str_leb a b else leb i j

-- `_ordered_isolation_boundaries`
unfoldable pub ordered_isolation_boundaries :
    FormalScenarioDefinition → RunContext → List String → List String
ordered_isolation_boundaries definition run ids =
    if is_exploration run.mode
    then sort ids
    else sort_by (procedure_leb definition.isolation_device_sequence) ids

abbrev pub evaluation_by_id : IsolationProof → Dict BoundaryEvaluation
evaluation_by_id proof = by_id (λ e. e.boundary_device_id) proof.boundary_evaluations

abbrev pub status_of : Dict BoundaryEvaluation → String → Option BoundaryProofStatus
status_of evaluations id = elim (lookup id evaluations) [
  | none ↦ none
  | some e ↦ some e.proof_status
]

-- The loop: past what is proven open, up to the first that is not.
unfoldable pub first_not_open : Dict BoundaryEvaluation → List String → Option String
first_not_open evaluations [] = none
first_not_open evaluations (id ∷ ids) = elim (status_of evaluations id) [
  | none ↦ none
  | some s ↦ elim s [
    | proven_open ↦ first_not_open evaluations ids
    | proven_closed ↦ some id
    | unproven ↦ none
  ]
]

-- `_next_isolation_target`
unfoldable pub next_isolation_target :
    FormalScenarioDefinition → RunContext → TopologyResult → Option String
next_isolation_target definition run topology = elim (is_n1 run.network_state_label) [
  | false ↦ none
  | true ↦ elim topology.isolation_proof [
    | none ↦ none
    | some proof ↦
        first_not_open (evaluation_by_id proof)
          (ordered_isolation_boundaries definition run proof.incident_boundary_device_ids)
  ]
]

abbrev seen_closed : Option BoundaryEvaluation → Bool
seen_closed none = false
seen_closed (some e) = elim e.proof_status [
  | proven_closed ↦ true
  | proven_open ↦ false
  | unproven ↦ false
]

-- `_exploration_isolation_action_gate`
unfoldable pub exploration_isolation_action_gate :
    RunContext → TopologyResult → Option String → Bool
exploration_isolation_action_gate run topology none = false
exploration_isolation_action_gate run topology (some target) =
    is_n1 run.network_state_label && elim topology.isolation_proof [
      | none ↦ false
      | some proof ↦
          contains proof.incident_boundary_device_ids target
          && seen_closed (find (λ e. e.boundary_device_id == target) proof.boundary_evaluations)
    ]
