-- ===== src/Results.antt =====
-- srcmove_runtime/results_schema.py: the cross-record checks of a results document.
pub mod Document
pub mod Groups
pub mod Items
pub mod Owners
pub mod Partition
pub mod Comparisons
pub mod Thresholds
mod Samples
mod DiagnosticSamples
