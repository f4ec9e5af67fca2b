-- ===== src/Execution.antt =====
-- srcmove_history/process.py and worker.py: the execution of one commit pair by a worker session, the
-- tools it runs, the artifacts it admits, and the evidence of compact.py that is kept of its outcome.
pub mod Artifacts
pub mod Process
pub mod Environment
pub mod Session
pub mod Promise
pub mod Terminal
pub mod Evidence
pub mod Owned
pub mod Compaction
mod Samples
