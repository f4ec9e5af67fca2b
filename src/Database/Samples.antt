-- ===== src/Database/Samples.antt =====
-- An analysis of two commit pairs, from its creation to the commit of its batch, and a batch of five
-- pairs that is resumed at its last one.
use src_move.Common.{String, ℕ, ◌≡◌, refl, sym, subst, false, Option, none, some, List, [], ◌∷◌}
use src_move.Common.Checked.{valid}
use src_move.Contracts.{PairWorkItem, PairOutcome}
use src_move.Database.Compacting.{Files, compacted, EachCompacts}
use src_move.Coordinator.Samples.{
  item, outcome, published, finished_run, published_log, finished_log, run_published, run_finished,
  ends_done,
}
use src_move.Database.Rows.{
  total_pairs, batch_pending, running, Manifest, Digests, StoredBatch, Seal, PairRow, Database,
  last_commit, work_from, build_pair_work_items, pending_rows, is_valid_target,
}
use src_move.Database.Store.{
  ok, has_pending, has_batch, inserts, boundary, new_batch, insert_pending_batch, add_pending_batch,
  create, is_running, find_row, find_pair, seal_row, seal_batch, same_identity, seal_found,
  record_outcome, prefix_of,
}
use src_move.Database.Commit.{
  rows_of, completed_prefix, find_batch, same_target, same_batch, manifest_fits, verify_pairs,
  load_manifest, pending_manifest, complete_batch, committed, commit_pending_batch, interrupt,
  has_invocation, begin_invocation,
}
use src_move.Database.History.{records, commits, begins, DbReach, created, continued}
use src_move.Database.Coverage.{Covers, reach-Covers}
use src_move.Database.Persistence.{DbRun, stays, goes_on, outcome_at, run_keeps_sealed}
use src_move.Database.Publishing.{DatabasePublisher, Ready, publish_each}
use src_move.Database.Resume.{Taken, run-Taken, resume_completes}

abbrev digests : Digests
digests = record { definition = λ m. "definition"; pair = λ m old new. old }

abbrev manifest : Manifest
manifest = record {
  repository = "/repository";
  oldest = "a";
  newer = "b" ∷ "c" ∷ [];
  selected_directory = none;
  excluded_suffixes = [];
  srcdiff = "/srcdiff";
  srcmove = "/srcmove";
  srcdiff_timeout = 1;
  srcmove_timeout = 1;
  use_position = false;
  source_encoding = "UTF-8";
}

-- The results file of every pair.
abbrev files : Files
files = record {
  read_file = λ path. valid (b'{' ∷ b'}' ∷ []);
  digest = λ bytes. "digest";
  compact_results = λ content metrics. valid tt;
}

abbrev outcome_of : ℕ → String → String → PairOutcome
outcome_of q old new = record outcome {
  work_item = record item { sequence = q; old_commit = old; new_commit = new; fingerprint = old };
}

abbrev stored : StoredBatch
stored = record {
  batch_id = "batch";
  base_revision = 0;
  target = total_pairs 2;
  oldest_commit = "a";
  newest_commit = "c";
  pair_count = 2;
  reaches_root = false;
  status = batch_pending;
}

program : Unit {0}
unfolding last_commit work_from build_pair_work_items pending_rows is_valid_target has_pending
    has_batch inserts boundary new_batch insert_pending_batch add_pending_batch create is_running
    find_row find_pair seal_row seal_batch same_identity seal_found compacted record_outcome
    prefix_of rows_of completed_prefix find_batch same_target same_batch manifest_fits verify_pairs
    load_manifest pending_manifest complete_batch committed commit_pending_batch interrupt
    has_invocation begin_invocation outcome_at
program = tt

record Stored : Type 0 where
  last : Database
  reach : DbReach digests last

sealed_once : Stored
unfolding program
sealed_once = record {
  last = _;
  reach =
      continued
        (continued (created manifest "batch" (total_pairs 2) false refl)
          (begins "run" (total_pairs 2) 3 refl))
        (records files stored (outcome_of 0 "a" "b") "run" refl);
}

record After : Type 0 where
  last : Database
  run : DbRun digests sealed_once.last last

completed_run : After
unfolding program sealed_once
completed_run = record {
  last = _;
  run =
      goes_on (goes_on stays (records files stored (outcome_of 1 "b" "c") "run" refl))
        (commits stored refl);
}

committed_after : completed_run.last.analysis.completed_pair_count ≡ 2
unfolding program sealed_once completed_run
committed_after = refl

first_seal : Seal
first_seal = record { invocation_id = "run"; outcome = outcome_of 0 "a" "b" }

first_sealed : outcome_at "batch" 0 sealed_once.last.batches ≡ some first_seal
unfolding program sealed_once first_seal
first_sealed = refl

reach-Covers_example : Covers sealed_once.last
reach-Covers_example = reach-Covers sealed_once.reach

run_keeps_sealed_example : outcome_at "batch" 0 completed_run.last.batches ≡ some first_seal
run_keeps_sealed_example = run_keeps_sealed "batch" 0 completed_run.run first_sealed

abbrev row : ℕ → Option Seal → PairRow
row q seal = record {
  batch_sequence = q;
  distance_from_newest = 4;
  old_commit = "a";
  new_commit = "b";
  pair_fingerprint = "f";
  sealed = seal;
}

abbrev earlier : ℕ → PairRow
earlier q = row q (some (record { invocation_id = "old"; outcome = outcome }))

abbrev item_of : ℕ → PairWorkItem
item_of q = record item { sequence = q }

abbrev items : List PairWorkItem
items = item_of 0 ∷ item_of 1 ∷ item_of 2 ∷ item_of 3 ∷ item ∷ []

abbrev half_done : Database
half_done = record {
  analysis = record {
    revision = 1;
    definition_sha256 = "definition";
    newest_commit = "c";
    oldest_completed_commit = none;
    completed_pair_count = 0;
    history_exhausted = false;
  };
  batches =
      record {
        stored = record stored { pair_count = 5 };
        manifest = manifest;
        pairs = earlier 0 ∷ earlier 1 ∷ earlier 2 ∷ earlier 3 ∷ row 4 none ∷ [];
      }
      ∷ [];
  invocations = record { invocation_id = "run"; result = running } ∷ [];
}

abbrev publisher : DatabasePublisher
publisher = record {
  batch = record stored { pair_count = 5 };
  next_sequence = 4;
  invocation_id = "run";
  committed_before = 0;
}

publisher-Ready : Ready items publisher half_done
unfolding program
publisher-Ready = record { at_prefix = refl; rows_match = refl; running = refl }

one_compacts : EachCompacts (λ i. files) (outcome ∷ [])
unfolding compacted
one_compacts = ((_, refl), tt)

run-Taken_example : Taken (λ i. files) publisher half_done published.last.log
run-Taken_example =
    run-Taken (λ i. files) publisher-Ready run_published
      (subst (EachCompacts (λ i. files)) (sym published_log) one_compacts)

resume_completes_example :
    (after : Database) × (publish_each (λ i. files) publisher half_done finished_run.last.log
      ≡ ok after)
    × (completed_prefix after publisher.batch ≡ ok 5)
resume_completes_example =
    resume_completes (λ i. files) publisher-Ready run_finished ends_done
      (subst (EachCompacts (λ i. files)) (sym finished_log) one_compacts)
