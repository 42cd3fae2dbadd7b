-- ===== src/Scenario/Events/Sequence.antt =====
-- The events of a run are numbered without a gap, and only ever appended.
use ot_engineering_demonstra.Base.{
  String, ℕ, suc, ◌+◌, Bool, false, not, List, [], ◌∷◌, ◌++◌, map, filter, any, length, nat_eq,
  nat_eq_iff, if◌then◌else◌, Bool-cases, inl, inr, ok, guard-eq-ok, >>=-eq-ok, ok-injective,
  integrity_error, ◌≡◌, refl, sym, ap, ◌∙◌, subst, arith,
}
use ot_engineering_demonstra.Scenario.{RunContext, OperationalEvent, EventSpec}
use ot_engineering_demonstra.Scenario.Store.{
  Store, insert_event, insert_events, next_event_sequence, events_of, greatest, conflicts,
}
use ot_engineering_demonstra.Scenario.Events.{events_from_specs, numbered, event_of}

-- The sequence numbers count up by one from `k`.
abbrev pub Numbered : ℕ → List OperationalEvent → Type 0
Numbered k [] = Unit
Numbered k (e ∷ es) = (e.event_sequence ≡ k) × Numbered (suc k) es

append_assoc : (xs ys zs : List OperationalEvent) → (xs ++ ys) ++ zs ≡ xs ++ (ys ++ zs)
append_assoc [] ys zs = refl
append_assoc (x ∷ xs) ys zs = ap (x ∷◌) (append_assoc xs ys zs)

append-nil : (xs : List OperationalEvent) → xs ++ [] ≡ xs
append-nil [] = refl
append-nil (x ∷ xs) = ap (x ∷◌) (append-nil xs)

insert_event-events :
    (s t : Store) (e : OperationalEvent) → insert_event s e ≡ ok t → t.events ≡ s.events ++ e ∷ []
unfolding insert_event
insert_event-events s t e h =
    let (free, h1) = guard-eq-ok (not (any (conflicts e) s.events)) integrity_error _ h in
    ap (λ u. u.events) (sym (ok-injective h1))

insert_events-events :
    (s t : Store) (es : List OperationalEvent)
    → insert_events s es ≡ ok t
    → t.events ≡ s.events ++ es
unfolding insert_events
insert_events-events s t [] h =
    ap (λ u. u.events) (sym (ok-injective h)) ∙ sym (append-nil s.events)
insert_events-events s t (e ∷ es) h =
    let (u, e1, h1) = >>=-eq-ok (insert_event s e) _ h in
    insert_events-events u t es h1
    ∙ ap (◌++ es) (insert_event-events s u e e1)
    ∙ append_assoc s.events (e ∷ []) es

filter-append :
    (p : OperationalEvent → Bool) (xs ys : List OperationalEvent)
    → filter p (xs ++ ys) ≡ filter p xs ++ filter p ys
filter-append p [] ys = refl
filter-append p (x ∷ xs) ys = ground (arith, filter-append p xs ys)

Numbered-append :
    (k : ℕ) (xs ys : List OperationalEvent)
    → Numbered k xs
    → Numbered (k + length xs) ys
    → Numbered k (xs ++ ys)
Numbered-append k [] ys a b = subst (λ n. Numbered n ys) {x = k + 0} (omega arith) b
Numbered-append k (x ∷ xs) ys a b = (
  a.0,
  Numbered-append (suc k) xs ys a.1
      (subst (λ n. Numbered n ys) {x = k + suc (length xs)} (omega arith) b),
)

greatest-Numbered :
    (k : ℕ) (e : OperationalEvent) (es : List OperationalEvent)
    → Numbered (suc k) (e ∷ es)
    → greatest (map (λ x. x.event_sequence) (e ∷ es)) ≡ k + length (e ∷ es)
greatest-Numbered k e [] h = ground arith
greatest-Numbered k e (f ∷ es) h = let rest = greatest-Numbered (suc k) f es h.1 in ground arith

next-length :
    (s : Store) (id : ℕ)
    → Numbered 1 (events_of s id)
    → next_event_sequence s id ≡ 1 + length (events_of s id)
unfolding next_event_sequence
next-length s id h = of_list (events_of s id) h
  where
    of_list :
        (es : List OperationalEvent)
        → Numbered 1 es
        → suc (greatest (map (λ e. e.event_sequence) es)) ≡ 1 + length es
    of_list [] n = refl
    of_list (e ∷ es) n = let g = greatest-Numbered 0 e es n in omega arith

module _ (uuids : ℕ → ℕ) (run : RunContext) (command_id : ℕ) (actor : String) where
  numbered-Numbered :
      (position k : ℕ) (specs : List EventSpec)
      → Numbered k (numbered uuids run command_id actor position k specs)
  unfolding numbered
  numbered-Numbered position k [] = tt
  numbered-Numbered position k (spec ∷ specs) =
      (refl, numbered-Numbered (suc position) (suc k) specs)

  numbered-own :
      (position k id : ℕ) (specs : List EventSpec)
      → filter
          (λ e. nat_eq e.scenario_run_id id)
          (numbered uuids run command_id actor position k specs)
        ≡ (if nat_eq run.scenario_run_id id
            then numbered uuids run command_id actor position k specs
            else [])
  unfolding numbered
  numbered-own position k id [] = ground arith
  numbered-own position k id (spec ∷ specs) =
      let rest = numbered-own (suc position) (suc k) id specs in
      elim (Bool-cases (nat_eq run.scenario_run_id id)) [
        | inl y ↦
            rw y (ap (event_of run command_id actor (uuids position) k spec ∷◌) (rw y at rest))
        | inr n ↦ rw n (rw n at rest)
      ]

  -- When the events of some specifications are inserted, those of the run stay numbered from 1
  -- without a gap, the new ones follow the old ones, and those of other runs do not change.
  pub events_from_specs-Numbered :
      (s t : Store) (position : ℕ) (specs : List EventSpec)
      → Numbered 1 (events_of s run.scenario_run_id)
      → insert_events s (events_from_specs uuids s run command_id actor position specs) ≡ ok t
      → Numbered 1 (events_of t run.scenario_run_id)
        × (events_of t run.scenario_run_id
            ≡ events_of s run.scenario_run_id
              ++ events_from_specs uuids s run command_id actor position specs)
        × ((id : ℕ) → nat_eq run.scenario_run_id id ≡ false → events_of t id ≡ events_of s id)
  unfolding events_from_specs
  events_from_specs-Numbered s t position specs h ins =
      let own = run.scenario_run_id in
      let k = next_event_sequence s own in
      let new = numbered uuids run command_id actor position k specs in
      let all_events = insert_events-events s t new ins in
      let parts = λ (id : ℕ).
        ap (filter (λ e. nat_eq e.scenario_run_id id)) all_events
        ∙ filter-append (λ e. nat_eq e.scenario_run_id id) s.events new in
      let mine = (nat_eq_iff own own).1 refl in
      let added =
        parts own ∙ ap (events_of s own ++◌) (numbered-own position k own specs ∙ rw mine refl) in
      (
        subst (Numbered 1) (sym added) (
            Numbered-append 1 (events_of s own) new h (
              subst (λ n. Numbered n new) (next-length s own h)
                (numbered-Numbered position k specs))),
        added,
        λ id other.
            parts id
            ∙ ap (events_of s id ++◌) (numbered-own position k id specs ∙ rw other refl)
            ∙ append-nil _,
      )
