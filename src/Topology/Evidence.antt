-- ===== src/Topology/Evidence.antt =====
-- What the isolation proof of topology/service.py rests on.
use ot_engineering_demonstra.Base.{
  String, ◌≡◌, ◌≢◌, ◌↔◌, refl, true, Option, none, some, List, [], ◌∷◌, map, all, Dict, lookup, All,
  arith, and_true,
}
use ot_engineering_demonstra.Domain.{
  opened, closed, good, fresh, trustworthy_open, trustworthy_closed, proven_open, proven_closed,
  unproven, none_satisfied, open_required, is_proven_open, SwitchState,
}
use ot_engineering_demonstra.Topology.Models.{BoundaryObservation, SourcePath}
use ot_engineering_demonstra.Topology.Boundary.{evaluate_boundary, isolation_of}

-- Evidence that a device was seen in a state, of good quality and fresh.
abbrev pub Seen : SwitchState → BoundaryObservation → Type 0
Seen s o = (o.observed_state ≡ some s) × (o.quality ≡ some good) × (o.freshness_status ≡ some fresh)

-- A boundary is PROVEN_OPEN exactly when it was seen open by good and fresh evidence, and
-- PROVEN_CLOSED exactly when it was seen closed by such evidence.
pub evaluate_boundary-proof_status :
    (id : String) (o : BoundaryObservation)
    → (((evaluate_boundary id (some o)).proof_status ≡ proven_open) ↔ Seen opened o)
      × (((evaluate_boundary id (some o)).proof_status ≡ proven_closed) ↔ Seen closed o)
      × ((evaluate_boundary id none).proof_status ≡ unproven)
unfolding evaluate_boundary
evaluate_boundary-proof_status id o = (ground arith, ground arith, refl)

-- The three fields of an evaluation agree on every branch, and a reason is always given.
pub evaluate_boundary-coherent :
    (id : String) (o : Option BoundaryObservation)
    → let e = evaluate_boundary id o in
      ((e.proof_status ≡ proven_open) ↔ (e.operation_need ≡ none_satisfied))
      × ((e.proof_status ≡ proven_open) ↔ (e.evidence_condition ≡ trustworthy_open))
      × ((e.proof_status ≡ proven_closed) ↔ (e.operation_need ≡ open_required))
      × ((e.proof_status ≡ proven_closed) ↔ (e.evidence_condition ≡ trustworthy_closed))
      × (e.reason_codes ≢ [])
unfolding evaluate_boundary
evaluate_boundary-coherent id o =
    (ground arith, ground arith, ground arith, ground arith, ground arith)

-- The device was observed, and seen open.
abbrev pub SeenOpen : Dict BoundaryObservation → String → Type 0
SeenOpen observations id =
    (o : BoundaryObservation) × (lookup id observations ≡ some o) × Seen opened o

SeenOpen-of :
    (id : String) (observations : Dict BoundaryObservation) (o : Option BoundaryObservation)
    → lookup id observations ≡ o
    → is_proven_open (evaluate_boundary id o).proof_status ≡ true
    → SeenOpen observations id
unfolding evaluate_boundary
SeenOpen-of id observations none e h = ground arith
SeenOpen-of id observations (some o) e h = (o, e, (ground arith, ground arith, ground arith))

proven_open_of :
    (id : String) (observations : Dict BoundaryObservation)
    → SeenOpen observations id
    → is_proven_open (evaluate_boundary id (lookup id observations)).proof_status ≡ true
unfolding evaluate_boundary
proven_open_of id observations (o, e, seen) = rw e (ground arith)

all_proven_open :
    (observations : Dict BoundaryObservation) (ids : List String)
    → (all
          (λ e. is_proven_open e.proof_status)
          (map (λ id. evaluate_boundary id (lookup id observations)) ids)
        ≡ true)
      ↔ All (SeenOpen observations) ids
all_proven_open observations [] = (λ h. tt, λ h. refl)
all_proven_open observations (id ∷ ids) =
    let rest = all_proven_open observations ids in
    (
      λ h.
          let (first, others) = and_true _ _ h in
          (SeenOpen-of id observations _ refl first, rest.0 others),
      λ h. rw (proven_open_of id observations h.0) (rest.1 h.1),
    )

-- A fault counts as isolated exactly when it has a boundary, every boundary was seen open by good
-- and fresh evidence, and no source path to the section is active.
pub isolation_of-isolated :
    (fault : String) (boundaries : List String) (observations : Dict BoundaryObservation)
    (paths : List SourcePath) (available : List String)
    → ((isolation_of fault boundaries observations paths available).isolated ≡ true)
      ↔ ((boundaries ≢ []) × All (SeenOpen observations) boundaries × (paths ≡ []))
unfolding isolation_of
isolation_of-isolated fault [] observations paths available = ground arith
isolation_of-isolated fault (b ∷ bs) observations [] available =
    let all_open = all_proven_open observations (b ∷ bs) in
    (λ h. (λ e. cc, all_open.0 (ground arith), refl), λ h. let t = all_open.1 h.1 in ground arith)
isolation_of-isolated fault (b ∷ bs) observations (p ∷ ps) available =
    (λ h. ground arith, λ h. ground arith)
