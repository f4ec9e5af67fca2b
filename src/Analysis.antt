-- ===== src/Analysis.antt =====
-- srcmove_history/analysis.py: the targets of an analysis, what its loop does next, and the observer.
pub mod Target
pub mod Advance
pub mod Loop
pub mod Planning
pub mod Chain
pub mod Coverage
pub mod Observer
pub mod Finish
mod Samples
