-- ===== src/Database.antt =====
-- srcmove_history/database.py and inputs.py: the durable state of one analysis, and the operations
-- that plan a batch of commit pairs, seal their outcomes and commit the batch.
pub mod Compacting
pub mod Rows
pub mod Store
pub mod Commit
pub mod History
pub mod Invariant
pub mod Coverage
pub mod Prefix
pub mod Publishing
pub mod Resume
pub mod Samples
pub mod Persistence
