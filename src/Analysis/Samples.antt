-- ===== src/Analysis/Samples.antt =====
-- The theorems of this folder at concrete inputs.
use src_move.Common.{
  zero, suc, String, str_eq, if◌then◌else◌, arith, ◌<◌, ◌↔◌, ◌≡◌, refl, true, false, none, some,
  List, [], ◌∷◌,
}
use src_move.Database.Rows.{Analysis}
use src_move.Common.Int.{pos}
use src_move.Analysis.Target.{total_pairs, desired_total, progress_finish_result}
use src_move.Analysis.Finish.{reports_exhaustion, reports_failures, leaves_reports}
use src_move.Analysis.Advance.{leaves, next_turn, batch_size, plans, PlansWell, next_turn-PlansWell}
use src_move.Common.Checked.{valid}
use src_move.Database.Store.{boundary}
use src_move.Analysis.Loop.{LoopState, Calls}
use src_move.Analysis.Chain.{ListsRest, OnChain}
use src_move.Analysis.Coverage.{Settles, run_loop-Settles}
use src_move.Analysis.Observer.{
  Event, analysis_started, pair_published, analysis_finished, Response, returns, raises_exception,
  raises_other, SafeObserver, until_exception, ToldInOrder, call_each-ToldInOrder,
}

abbrev state : Analysis
state = record {
  revision = 2;
  definition_sha256 = "definition";
  newest_commit = "z";
  oldest_completed_commit = some "m";
  completed_pair_count = 100;
  history_exhausted = false;
}

plans_rest : next_turn state (some 130) none ≡ plans 30
unfolding next_turn batch_size
plans_rest = refl

next_turn-PlansWell_example : PlansWell state (some 130) 30
next_turn-PlansWell_example = next_turn-PlansWell state (some 130) 30 plans_rest

abbrev raises_at_pairs : List Event → Event → Response
raises_at_pairs before (analysis_started name) = raises_other
raises_at_pairs before (pair_published covered) = raises_exception
raises_at_pairs before (analysis_finished result) = returns

abbrev observer : SafeObserver
observer = record { disabled = false; called = []; escaped = [] }

abbrev events : List Event
events =
    analysis_started "a" ∷ pair_published 1 ∷ pair_published 2 ∷ analysis_finished "complete" ∷ []

told_once : until_exception raises_at_pairs [] events ≡ analysis_started "a" ∷ pair_published 1 ∷ []
unfolding until_exception
told_once = refl

call_each-ToldInOrder_example : ToldInOrder raises_at_pairs observer events
call_each-ToldInOrder_example = call_each-ToldInOrder raises_at_pairs observer events refl

exhausted : Analysis
exhausted = record state { history_exhausted = true }

leaves_early :
    next_turn exhausted (desired_total (λ newest commit. 0) exhausted (total_pairs (pos 130))) none
    ≡ leaves
unfolding next_turn desired_total exhausted
leaves_early = refl

leaves_reports_example :
    ((reports_exhaustion (progress_finish_result exhausted 2 (total_pairs (pos 130))) ≡ true)
      ↔ (exhausted.completed_pair_count < 130))
    × ((reports_failures (progress_finish_result exhausted 2 (total_pairs (pos 130))) ≡ true)
        ↔ (0 < 2))
leaves_reports_example = leaves_reports (λ newest commit. 0) exhausted 2 (pos 130) leaves_early

abbrev chain : List String
chain = "z" ∷ "y" ∷ "x" ∷ "w" ∷ []

abbrev history_of : String → List String
history_of c =
    if str_eq c "z"
    then "z" ∷ "y" ∷ "x" ∷ "w" ∷ []
    else if str_eq c "y"
    then "y" ∷ "x" ∷ "w" ∷ []
    else if str_eq c "x"
    then "x" ∷ "w" ∷ []
    else "w" ∷ []

some_inj : (a b : String) → some a ≡ some b → a ≡ b
some_inj a b h = cc

history_of-ListsRest : ListsRest history_of chain
history_of-ListsRest zero c h = rw (← some_inj "z" c h) refl
history_of-ListsRest (suc zero) c h = rw (← some_inj "y" c h) refl
history_of-ListsRest (suc (suc zero)) c h = rw (← some_inj "x" c h) refl
history_of-ListsRest (suc (suc (suc zero))) c h = rw (← some_inj "w" c h) refl
history_of-ListsRest (suc (suc (suc (suc d)))) c h = cc

abbrev begun : LoopState
begun = record {
  analysis = record state { completed_pair_count = 0; oldest_completed_commit = none };
  pending = some (record { oldest_commit = "y"; pair_count = 1; reaches_root = false });
}

begun-OnChain : OnChain chain (some 3) begun
unfolding boundary
begun-OnChain = record {
  frontier = refl;
  exhausted_when = refl;
  fits = (omega arith, refl, refl, omega arith);
}

-- Calls that all return.
abbrev calls : Calls
calls = record {
  verify = λ a. valid tt;
  history_of = history_of;
  freeze = λ a commits. valid tt;
  add = λ a b. valid tt;
  execute = λ a b. valid tt;
  commit = λ a b. valid tt;
}

run_loop-Settles_example : Settles chain calls (some 3) 8 begun
run_loop-Settles_example =
    run_loop-Settles chain calls (some 3) 8 begun history_of-ListsRest begun-OnChain (omega arith)
