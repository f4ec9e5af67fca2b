-- ===== src/Coordinator/Invariant.antt =====
-- The invariants of the coordinator, one module each: the slots, the items in flight, how often each
-- sequence number is in flight, and what has been published.
pub mod Moves
pub mod Slots
pub mod Items
pub mod ItemsMain
pub mod ConservationMain
pub mod Queue
pub mod Publication
pub mod PublicationMain
pub mod Ending
pub mod All
pub mod Conservation
