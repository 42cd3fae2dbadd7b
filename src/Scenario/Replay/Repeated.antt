-- ===== src/Scenario/Replay/Repeated.antt =====
-- What `_return_duplicate` leaves behind: the tables as they were, and one comparison that reports
-- nothing new.
use ot_engineering_demonstra.Base.{
  String, eq_refl, ℕ, nat_eq, nat_eq_iff, Bool, true, some, List, [], ◌∷◌, ◌++◌, any, ok, Result,
  Bool-cases, inl, inr, ◌⊎◌, ◌≡◌, refl, ap, ◌∙◌, arith, if◌then◌else◌,
}
use ot_engineering_demonstra.Scenario.{CommandResult}
use ot_engineering_demonstra.Scenario.Store.{CommandRow, get_command_result}
use ot_engineering_demonstra.Scenario.Snapshot.{Coordinator, State, ReplayComparison}
use ot_engineering_demonstra.Scenario.Replay.{
  same_comparison, comparison_of, compared, replayed, answered_or,
}

-- A comparison of a command and its result that found the same result, no new event and no new
-- invalidation.
abbrev pub NothingNew : Coordinator → ℕ → String → CommandResult → ReplayComparison → Type 0
NothingNew K command_id sha r c =
    (c.scenario_run_id ≡ r.snapshot.run.scenario_run_id)
    × (c.command_id ≡ command_id)
    × (c.request_sha256 ≡ sha)
    × (c.stored_result_sha256 ≡ K.result_sha r)
    × (c.replayed_result_sha256 ≡ K.result_sha r)
    × (c.same_result ≡ true)
    × (c.new_event_count ≡ 0)
    × (c.new_invalidation_count ≡ 0)

-- From `s` to `t` the tables and the UUIDs drawn stay, and of the comparisons at most that one is
-- appended, which is then among them.
abbrev pub IsReplay : Coordinator → ℕ → String → CommandResult → State → State → Type 0
IsReplay K command_id sha r s t =
    (t.store ≡ s.store)
    × (t.drawn ≡ s.drawn)
    × (c : ReplayComparison) × NothingNew K command_id sha r c
    × ((t.replay_comparisons ≡ s.replay_comparisons)
        ⊎ (t.replay_comparisons ≡ s.replay_comparisons ++ (c ∷ [])))
    × (any (same_comparison c) t.replay_comparisons ≡ true)

same_comparison_refl : (c : ReplayComparison) → same_comparison c c ≡ true
same_comparison_refl c =
    let n : (k : ℕ) → nat_eq k k ≡ true = λ k. (nat_eq_iff k k).1 refl in
    rw
      (
        n c.scenario_run_id,
        n c.command_id,
        eq_refl c.request_sha256,
        eq_refl c.stored_result_sha256,
        eq_refl c.replayed_result_sha256,
        n c.new_event_count,
        n c.new_invalidation_count,
      )
      (elim (Bool-cases c.same_result) [ inl e ↦ rw e refl | inr e ↦ rw e refl ])

any-last :
    (p : ReplayComparison → Bool) (cs : List ReplayComparison) (c : ReplayComparison)
    → p c ≡ true
    → any p (cs ++ (c ∷ [])) ≡ true
any-last p [] c h = rw h refl
any-last p (d ∷ cs) c h = let rest = any-last p cs c h in ground arith

module _ (K : Coordinator) where
  compared-listed :
      (s : State) (c : ReplayComparison)
      → any (same_comparison c) (compared K s c).replay_comparisons ≡ true
  compared-listed s c = elim (Bool-cases (any (same_comparison c) s.replay_comparisons)) [
    | inl e ↦ rw (e, compared) e
    | inr e ↦
        rw (e, compared)
          (any-last (same_comparison c) s.replay_comparisons c (same_comparison_refl c))
  ]

  compared-again :
      (s : State) (c : ReplayComparison)
      → any (same_comparison c) s.replay_comparisons ≡ true
      → compared K s c ≡ s
  compared-again s c e = rw (e, compared) refl

  pub replayed-store :
      (s : State) (i : ℕ) (sha : String) (r : CommandResult)
      → (replayed K s i sha r).store ≡ s.store
  replayed-store s i sha r =
      let c = comparison_of K s i sha r in
      elim (Bool-cases (any (same_comparison c) s.replay_comparisons)) [
        | inl e ↦
            ap
              (λ b.
                (if b
                  then s
                  else record s { replay_comparisons = s.replay_comparisons ++ (c ∷ []) }).store)
              e
        | inr e ↦
            ap
              (λ b.
                (if b
                  then s
                  else record s { replay_comparisons = s.replay_comparisons ++ (c ∷ []) }).store)
              e
      ]

  pub replayed-IsReplay :
      (s : State) (i : ℕ) (sha : String) (r : CommandResult)
      → IsReplay K i sha r s (replayed K s i sha r)
  replayed-IsReplay s i sha r =
      let c = comparison_of K s i sha r in
      let next : Bool → State =
        λ b. if b then s else record s { replay_comparisons = s.replay_comparisons ++ (c ∷ []) } in
      let test = any (same_comparison c) s.replay_comparisons in
      (
        replayed-store s i sha r,
        elim (Bool-cases test) [
          | inl e ↦ ap (λ b. (next b).drawn) e
          | inr e ↦ ap (λ b. (next b).drawn) e
        ],
        c,
        (refl, refl, refl, refl, refl, refl, omega arith, omega arith),
        elim (Bool-cases test) [
          | inl e ↦ inl (ap (λ b. (next b).replay_comparisons) e)
          | inr e ↦ inr (ap (λ b. (next b).replay_comparisons) e)
        ],
        compared-listed s c,
      )

  -- A comparison that is made twice is kept once.
  replayed-replayed :
      (s : State) (i : ℕ) (sha : String) (r : CommandResult)
      → replayed K (replayed K s i sha r) i sha r ≡ replayed K s i sha r
  replayed-replayed s i sha r =
      let c = comparison_of K s i sha r in
      let t = replayed K s i sha r in
      let same : comparison_of K t i sha r ≡ c =
        ap
          (λ store.
            comparison_of K (record { store = store; drawn = 0; replay_comparisons = [] }) i sha r)
          (replayed-store s i sha r) in
      ap (compared K t) same ∙ compared-again t c (compared-listed s c)

  -- The result of a command is in the table, under its digest.
  abbrev pub Answers : ℕ → String → CommandResult → State → Type 0
  Answers i sha r s =
      (row : CommandRow) × (get_command_result s.store i ≡ some row)
      × (row.request_sha256 ≡ sha)
      × (row.result ≡ r)

  answered_or-stored :
      (s : State) (i : ℕ) (sha : String) (body : Result (CommandResult × State)) (r : CommandResult)
      → Answers i sha r s
      → answered_or K s i sha body ≡ ok (r, replayed K s i sha r)
  answered_or-stored s i sha body r (row, found, same_sha, same) =
      rw (answered_or, found, same_sha, eq_refl sha, same) refl

  -- What two further calls of an answered command return.
  abbrev pub Repeats :
      ℕ → String → (State → Result (CommandResult × State)) → CommandResult × State → Type 0
  Repeats i sha call (r, s) =
      (t : State) × (call s ≡ ok (r, t)) × IsReplay K i sha r s t × (call t ≡ ok (r, t))

  pub Answers-Repeats :
      (i : ℕ) (sha : String) (call : State → Result (CommandResult × State))
      (body : State → Result (CommandResult × State)) (r : CommandResult) (s : State)
      → ((u : State) → call u ≡ answered_or K u i sha (body u))
      → Answers i sha r s
      → Repeats i sha call (r, s)
  Answers-Repeats i sha call body r s is_answered answers =
      let t = replayed K s i sha r in
      let kept : Answers i sha r t = (
        answers.0,
        ap (λ store. get_command_result store i) (replayed-store s i sha r) ∙ answers.1,
        answers.2,
        answers.3,
      ) in
      (
        t,
        is_answered s ∙ answered_or-stored s i sha (body s) r answers,
        replayed-IsReplay s i sha r,
        is_answered t
            ∙ answered_or-stored t i sha (body t) r kept
            ∙ ap (λ u. ok (r, u)) (replayed-replayed s i sha r),
      )
