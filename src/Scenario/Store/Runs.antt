-- ===== src/Scenario/Store/Runs.antt =====
-- What insertions do to the table of runs, and where a stored result is found.
use ot_engineering_demonstra.Base.{
  Bool, true, false, not, List, [], ◌∷◌, ◌++◌, filter, find, any, length, nat_eq, nat_eq_iff, some,
  ok, guard-eq-ok, >>=-eq-ok, ok-injective, integrity_error, Bool-cases, inl, inr, ◌≡◌, refl, sym,
  ap, ◌∙◌, arith, ℕ, suc,
}
use ot_engineering_demonstra.Scenario.{RunContext, OperationalEvent}
use ot_engineering_demonstra.Topology.Models.{TopologyResult}
use ot_engineering_demonstra.Outage.{OutageResult}
use ot_engineering_demonstra.Scenario.Store.{
  Store, CommandRow, mutable, one_mutable, insert_run, insert_command_result, get_command_result,
  insert_event, insert_events, insert_derived_snapshots, same_snapshot, conflicts,
}

pub find-append {ℓ} :
    {A : Type ℓ} (p : A → Bool) (xs : List A) (x : A)
    → any p xs ≡ false
    → p x ≡ true
    → find p (xs ++ x ∷ []) ≡ some x
find-append p [] x absent passes = rw passes
find-append p (y ∷ xs) x absent passes = elim (Bool-cases (p y)) [
  | inl t ↦ let w = rw t at absent in cc
  | inr f ↦ rw f (find-append p xs x (rw f at absent) passes)
]

-- A stored result is found under its command, and the runs stay.
pub insert_command_result-found :
    (s t : Store) (row : CommandRow)
    → insert_command_result s row ≡ ok t
    → (get_command_result t row.command_id ≡ some row) × (t.runs ≡ s.runs)
unfolding insert_command_result get_command_result
insert_command_result-found s t row h =
    let (free, h1) =
      guard-eq-ok (not (any (λ r. nat_eq r.command_id row.command_id) s.command_results))
        integrity_error _ h in
    let absent : any (λ r. nat_eq r.command_id row.command_id) s.command_results ≡ false =
      ground arith in
    let rows = ap (λ u. u.command_results) (ok-injective h1) in
    (
      ap (find (λ r. nat_eq r.command_id row.command_id)) (sym rows)
          ∙ find-append (λ (r : CommandRow). nat_eq r.command_id row.command_id) s.command_results
              row absent ((nat_eq_iff row.command_id row.command_id).1 refl),
      ap (λ u. u.runs) (sym (ok-injective h1)),
    )

-- With room for one mutable run only, one that is added is the only one.
only_mutable :
    (runs : List RunContext) (run : RunContext)
    → mutable run ≡ true
    → one_mutable (runs ++ run ∷ []) ≡ true
    → filter mutable (runs ++ run ∷ []) ≡ run ∷ []
only_mutable [] run m one = rw m
only_mutable (r ∷ runs) run m one = elim (Bool-cases (mutable r)) [
  | inl t ↦ let one' = rw t at one in let n = more runs in ground arith
  | inr f ↦ rw f (only_mutable runs run m (rw f at one))
]
  where
    more : (rs : List RunContext) → (n : ℕ) × (length (filter mutable (rs ++ run ∷ [])) ≡ suc n)
    more [] = (0, rw m)
    more (q ∷ rs) = elim (Bool-cases (mutable q)) [
      | inl t ↦ rw t (length (filter mutable (rs ++ run ∷ [])), refl)
      | inr f ↦ rw f (more rs)
    ]

pub insert_run-only :
    (s t : Store) (run : RunContext)
    → mutable run ≡ true
    → insert_run s run ≡ ok t
    → (t.runs ≡ s.runs ++ run ∷ []) × (filter mutable t.runs ≡ run ∷ [])
unfolding insert_run
insert_run-only s t run m h =
    let (free, h1) =
      guard-eq-ok (not (any (λ r. nat_eq r.scenario_run_id run.scenario_run_id) s.runs))
        integrity_error _ h in
    let (one, h2) = guard-eq-ok (one_mutable (s.runs ++ run ∷ [])) integrity_error _ h1 in
    let rows = ap (λ u. u.runs) (sym (ok-injective h2)) in
    (rows, ap (filter mutable) rows ∙ only_mutable s.runs run m one)

pub insert_derived_snapshots-runs :
    (s t : Store) (id revision : ℕ) (topology : TopologyResult) (outage : OutageResult)
    → insert_derived_snapshots s id revision topology outage ≡ ok t
    → t.runs ≡ s.runs
unfolding insert_derived_snapshots
insert_derived_snapshots-runs s t id revision topology outage h =
    let (free, h1) =
      guard-eq-ok (not (any (same_snapshot id revision) s.snapshots)) integrity_error _ h in
    ap (λ u. u.runs) (sym (ok-injective h1))

pub insert_events-runs :
    (s t : Store) (es : List OperationalEvent) → insert_events s es ≡ ok t → t.runs ≡ s.runs
unfolding insert_events insert_event
insert_events-runs s t [] h = ap (λ u. u.runs) (sym (ok-injective h))
insert_events-runs s t (e ∷ es) h =
    let (u, e1, h1) = >>=-eq-ok (insert_event s e) _ h in
    let (free, h2) = guard-eq-ok (not (any (conflicts e) s.events)) integrity_error _ e1 in
    insert_events-runs u t es h1 ∙ ap (λ u. u.runs) (sym (ok-injective h2))
