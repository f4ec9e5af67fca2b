-- ===== src/Analysis/Coverage.antt =====
-- The loop of an analysis ends, with the pairs that its target asks for or with all that there are.
use src_move.Common.{
  ℕ, zero, suc, ◌+◌, ◌-◌, ◌*◌, ◌≤◌, ◌<◌, ◌≡◌, refl, ◌∙◌, ◌⊎◌, inl, inr, Option, none, some, List,
  String, length, arith, get_elem?-lt,
}
use src_move.Common.Checked.{valid}
use src_move.Database.Rows.{Analysis}
use src_move.Analysis.Advance.{next_turn, plans, next_turn-PlansWell}
use src_move.Analysis.Loop.{
  Planned, LoopState, Calls, committed_analysis, ended, failed, one_turn, run_loop,
}
use src_move.Analysis.Chain.{
  plan_refused, plan-FitsChain, committed-OnChain, planned-OnChain, selected_commits, FitsChain,
  OnChain, goal, ListsRest, next_turn-executes, turn_cases, goal-leaves, goal_step, RaisedBy,
  returns_or_raises, pending_turns, by_verify, by_freeze, by_add, by_execute, by_commit,
}

module _ (chain : List String) (calls : Calls) (desired : Option ℕ) where
  -- The loop ends, on the chain, with as many pairs as the goal.
  abbrev pub EndsAtGoal : ℕ → LoopState → Type 0
  EndsAtGoal fuel s =
      (final : LoopState) × (run_loop calls desired fuel s ≡ ended final)
      × OnChain chain desired final
      × (final.pending ≡ none)
      × (final.analysis.completed_pair_count
          ≡ goal desired s.analysis.completed_pair_count (length chain - 1))

  -- The loop raises what one of its calls has raised, or ends at the goal.
  abbrev pub Settles : ℕ → LoopState → Type 0
  Settles fuel s =
      ((message : String) × (run_loop calls desired fuel s ≡ failed message)
        × RaisedBy calls message)
      ⊎ EndsAtGoal fuel s

  turned :
      (fuel : ℕ) (s next : LoopState)
      → run_loop calls desired (suc fuel) s ≡ run_loop calls desired fuel next
      → goal desired next.analysis.completed_pair_count (length chain - 1)
        ≡ goal desired s.analysis.completed_pair_count (length chain - 1)
      → Settles fuel next
      → Settles (suc fuel) s
  turned fuel s next e g (inl (message, r, by)) = inl (message, e ∙ r, by)
  turned fuel s next e g (inr (final, r, there, nothing, total)) =
      inr (final, e ∙ r, there, nothing, total ∙ g)

  -- A turn with a pending batch, when the rest of the loop settles.
  settle_pending :
      (fuel : ℕ) (a : Analysis) (b : Planned)
      → OnChain chain desired (record { analysis = a; pending = some b })
      → Settles fuel (record { analysis = committed_analysis a b; pending = none })
      → Settles (suc fuel) (record { analysis = a; pending = some b })
  unfolding run_loop one_turn
  settle_pending fuel a b on rest =
      let (some_pairs, at, root, within) = on.fits in
      let inside = get_elem?-lt _ chain at in
      let turn = next_turn-executes a desired b.pair_count within in
      elim (returns_or_raises (calls.verify a)) [
        | inr (m, v) ↦ inl (m, rw v refl, by_verify a v)
        | inl v ↦ elim (returns_or_raises (calls.execute a b)) [
          | inr (m, x) ↦ inl (m, rw (v, turn, x) refl, by_execute a b x)
          | inl x ↦ elim (returns_or_raises (calls.commit a b)) [
            | inr (m, c) ↦ inl (m, rw (v, turn, x, c) refl, by_commit a b c)
            | inl c ↦
                turned fuel (record { analysis = a; pending = some b })
                  (record { analysis = committed_analysis a b; pending = none })
                  (rw (v, turn, x, c) refl)
                  (goal_step desired a.completed_pair_count b.pair_count (length chain - 1) within
                    (omega (arith, inside)))
                  rest
          ]
        ]
      ]

  -- A turn that plans a batch of this size, when the rest of the loop settles for each that fits.
  settle_planning :
      (fuel : ℕ) (a : Analysis) (size : ℕ)
      → ListsRest calls.history_of chain
      → OnChain chain desired (record { analysis = a; pending = none })
      → calls.verify a ≡ valid tt
      → next_turn a desired none ≡ plans size
      → ((b : Planned)
          → FitsChain chain desired a.completed_pair_count (some b)
          → Settles fuel
              (record { analysis = record a { revision = a.revision + 1 }; pending = some b }))
      → Settles (suc fuel) (record { analysis = a; pending = none })
  unfolding run_loop one_turn
  settle_planning fuel a size lists on v h rest =
      let inside = get_elem?-lt _ chain on.frontier in
      let well = next_turn-PlansWell a desired size h in
      let more : a.completed_pair_count + 1 < length chain =
        ground (arith, well.not_exhausted, on.exhausted_when, inside) in
      elim (returns_or_raises (calls.freeze a (selected_commits chain calls desired a size))) [
        | inr (m, f) ↦
            let e =
              plan_refused chain calls desired a size m lists on.frontier more well.some_pairs f in
            inl (m, rw (v, h, e) refl, by_freeze a _ f)
        | inl f ↦
            let (b, made, fits) =
              plan-FitsChain chain calls desired a size lists on.frontier more well.some_pairs f
                (well.not_beyond size (omega arith)) in
            elim (returns_or_raises (calls.add a b)) [
              | inr (m, d) ↦ inl (m, rw (v, h, made, d) refl, by_add a b d)
              | inl d ↦
                  turned fuel (record { analysis = a; pending = none })
                    (record { analysis = record a { revision = a.revision + 1 }; pending = some b })
                    (rw (v, h, made, d) refl) refl (rest b fits)
            ]
      ]

  settle_idle :
      (fuel : ℕ) (a : Analysis)
      → ListsRest calls.history_of chain
      → OnChain chain desired (record { analysis = a; pending = none })
      → ((b : Planned)
          → FitsChain chain desired a.completed_pair_count (some b)
          → Settles fuel
              (record { analysis = record a { revision = a.revision + 1 }; pending = some b }))
      → Settles (suc fuel) (record { analysis = a; pending = none })
  unfolding run_loop one_turn
  settle_idle fuel a lists on rest = elim (returns_or_raises (calls.verify a)) [
    | inr (m, v) ↦ inl (m, rw v refl, by_verify a v)
    | inl v ↦ elim (turn_cases a desired) [
      | inl l ↦
          let inside = get_elem?-lt _ chain on.frontier in
          inr (
            record { analysis = a; pending = none },
            rw (v, l) refl,
            on,
            refl,
            goal-leaves a desired chain (omega (arith, inside)) on.exhausted_when l,
          )
      | inr (size, h) ↦ settle_planning fuel a size lists on v h rest
    ]
  ]

  loop-Settles :
      (fuel : ℕ) (a : Analysis) (pending : Option Planned)
      → ListsRest calls.history_of chain
      → OnChain chain desired (record { analysis = a; pending = pending })
      → 2 * length chain ≤ fuel + 2 * a.completed_pair_count + pending_turns pending
      → Settles fuel (record { analysis = a; pending = pending })
  loop-Settles zero a none lists on enough =
      absurd (omega (arith, get_elem?-lt _ chain on.frontier))
  loop-Settles zero a (some b) lists on enough =
      absurd (omega (arith, get_elem?-lt _ chain on.frontier))
  loop-Settles (suc fuel) a (some b) lists on enough =
      let (some_pairs, at, root, within) = on.fits in
      settle_pending fuel a b on (
        loop-Settles fuel (committed_analysis a b) none lists
          (committed-OnChain chain calls desired a b at root)
          (unfold committed_analysis in omega (arith, enough, some_pairs)))
  loop-Settles (suc fuel) a none lists on enough = settle_idle fuel a lists on (λ b fits.
      loop-Settles fuel (record a { revision = a.revision + 1 }) (some b) lists
        (planned-OnChain chain calls desired a b on fits) (omega (arith, enough)))

-- When git lists from each commit of the chain the rest of the chain, and the analysis stands on the
-- chain with a pending batch, if any, that fits it and the desired total, the loop ends with as much
-- fuel as twice the commits of the chain, whichever of its calls raise. Either it raises, with a message
-- that one of its calls has raised: a verification, a freezing of selected commits, an execution, or the
-- writing of a planned batch or of its commit to the database. Or it ends on the chain, without a
-- pending batch, and the completed pairs are those of the whole chain without a desired total, and
-- otherwise the desired total as far as the chain goes, or what was completed before when that is more.
pub run_loop-Settles :
    (chain : List String) (calls : Calls) (desired : Option ℕ) (fuel : ℕ) (s : LoopState)
    → ListsRest calls.history_of chain
    → OnChain chain desired s
    → 2 * length chain ≤ fuel
    → Settles chain calls desired fuel s
run_loop-Settles chain calls desired fuel s lists on enough =
    loop-Settles chain calls desired fuel s.analysis s.pending lists on (omega arith)
