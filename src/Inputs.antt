-- ===== src/Inputs.antt =====
-- srcmove_history/inputs.py: the frozen inputs of an analysis, the identity of its pairs and the check of
-- the inputs of a resumed analysis.
pub mod Frozen
pub mod Resume
mod Samples
