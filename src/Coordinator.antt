-- ===== src/Coordinator.antt =====
-- srcmove_history/coordinator.py: worker threads execute commit pairs in any order, and the calling
-- thread publishes their outcomes in order, under bounded queues and a semaphore of outcome slots.
-- `State` has the shared objects and the threads' positions, `Worker` the steps of a worker thread,
-- `Publisher` those of the calling thread, `System` their interleavings. The proofs are in the other
-- modules.
pub mod Samples
pub mod State
pub mod Worker
pub mod Publisher
pub mod System
pub mod Admission
pub mod Safety
pub mod Invariant
