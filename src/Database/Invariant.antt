-- ===== src/Database/Invariant.antt =====
-- The operations keep `WellFormed`.
pub mod Sealing
pub mod Planning
pub mod Committing
pub mod Reached
