-- ===== src/Oracle.antt =====
-- bigMoveBench/oracle.py: whether the detector's moves show the move that a benchmark case has made.
pub mod Texts
pub mod Positions
pub mod Scan
pub mod Assessment
pub mod Scanned
pub mod Verdict
pub mod Admission
pub mod Ranges
mod Samples
