-- ===== src/Lib.antt =====
-- srcMove: a verification library for the Python programs around the srcMove move detector.
--
-- The history runner analyses the adjacent commit pairs of a repository: the coordinator schedules
-- the pairs on worker threads and publishes their outcomes in order, and each worker supervises
-- child processes whose output streams it captures within a limit. The publisher seals outcomes in an
-- SQLite database, from which an interrupted analysis resumes. The detector's results documents are
-- checked for consistency before they are admitted, and a benchmark compares them with moves that it has
-- made itself.
--
--   Common          tests on numbers, lists, association lists, counting, occurrences and integers
--   Contracts       srcmove_history/contracts.py: the values that the threads exchange
--   Coordinator     srcmove_history/coordinator.py: `run_pairs_from_sequence`. State holds the queues,
--                   the semaphore and the local variables; Worker has a step for every access that
--                   `_worker_loop` and `_execute_worker_items` make of a shared object, Publisher one
--                   for each stage of the caller's loop, Admission the checks before it, System
--                   their interleavings. Invariant has what every reachable state satisfies, Safety
--                   the theorems.
--   Capture         srcmove_runtime/process_supervision.py: `_BoundedCapture` and `_drain`. The digest
--                   is a parameter with the law that hashlib documents.
--   Database        srcmove_history/database.py, the publisher of analysis.py and the work items of
--                   inputs.py. Rows has the rows of the schema, Store and Commit the operations, each
--                   a function to the next database or to the reason of its refusal (a transaction is
--                   one step); Compacting what sealing asks of compact.py, History the runs of
--                   operations, Invariant what they keep, Coverage, Persistence, Publishing and Resume the
--                   theorems. Resume joins the publisher with the coordinator: the log of a run is what the
--                   publisher has been called with.
--   Analysis        srcmove_history/analysis.py: Target the targets, Advance the decision of a turn,
--                   Loop the `while True` of `_advance_analysis` on the stored analysis and its pending
--                   batch, Planning, Chain and Coverage where it ends (fuel: twice the commits of the
--                   history, since a batch of at least one pair takes two turns), Finish what its end
--                   reports, Observer the observer that is disabled when it raises. Distances in
--                   the repository are parameters, and for the loop what git lists and whether the
--                   calls of a turn return or raise: its verifications, freeze_analysis_inputs, the
--                   operations of the database and the execution of a batch. Loop says what the two operations make of the analysis.
--   Results         srcmove_runtime/results_schema.py: Document has the records that `_validate_records`
--                   reads, Groups and Items its two loops up to the summary, Owners and Partition what a
--                   document that passes is; Comparisons and Thresholds the Type-3 part of its
--                   diagnostics. The regular expressions of `check_xpath` are a parameter.
--   Git             srcmove_history/git.py: Inventory and Materialize the changed paths and the writing of
--                   one side, Admitted that the second accepts what the first admits; History the
--                   first-parent selections and Selection how they agree; Blob one answer of
--                   `git cat-file --batch`, Stream its copy loop (fuel: the size, which every turn
--                   reduces) and Answers its round trip. What git prints is an argument.
--   Execution       srcmove_history/worker.py, process.py and compact.py: Artifacts and Process what is
--                   admitted of a tool's run, Environment what a session asks of the world, Session
--                   `_WorkerSession.__call__`, Promise and Terminal what each status promises, Owned the
--                   directories of a pair until it is acknowledged, Evidence what `compact_pair_outcome`
--                   keeps and Compaction how this fits captures. An exception is the text of its type
--                   and message, and `_compact_results` is an argument of compaction.
--   Lock            srcmove_history/locking.py: Activity what `__enter__` and `__exit__` publish, Protocol
--                   the steps of operations on a root, Truth what the activity says in every state. The
--                   record of the past in a state is not in the code.
--   Inputs          srcmove_history/inputs.py: Frozen the manifest, the record of a pair's fingerprint and
--                   `verify_resume_inputs`, Resume what a verified resume keeps. Database has a manifest of
--                   its own, with the fields that the work items and the digests read.
--   Oracle          bigMoveBench/oracle.py and the outcome of evaluate.py: Texts and Positions what a move
--                   is compared by, Scan what the moves are assessed as, Assessment
--                   `assess_positive_case`; Ranges, Scanned, Verdict and Admission what they mean. The
--                   normalization of texts and the reading of a position are parameters.
--   Categories      bigMoveBench/categories.py: `benchmark_category` and `expected_category`.
--
-- hashlib and the canonical JSON that it digests are parameters of Database. An identifier is one that
-- its validation has admitted.
--
-- Naturals are unbounded as Python's integers are. The relations need no fuel: a run is any finite
-- sequence of steps, and executors, publishers and acknowledgers may return or raise at every call.
--
-- Not modelled: the operating system's processes, signals and files, the processes of git and of the
-- tools, the command line, queries and reports, the catalog and selection of the benchmark, the shape
-- check of results documents and the native detector; an iterator of work items that raises.
-- A path is its text and a duration is a natural number of microseconds.
pub mod Analysis
pub mod Capture
pub mod Categories
pub mod Common
pub mod Contracts
pub mod Coordinator
pub mod Database
pub mod Execution
pub mod Git
pub mod Inputs
pub mod Lock
pub mod Oracle
pub mod Results
