-- ===== src/Lock.antt =====
-- srcmove_history/locking.py: the operation lock of an analysis and the activity that its owner publishes.
pub mod Activity
pub mod Protocol
pub mod Truth
mod Samples
