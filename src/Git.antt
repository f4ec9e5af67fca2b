-- ===== src/Git.antt =====
-- srcmove_history/git.py: the selection of a first-parent history, the inventory of changed paths and
-- the materialization of their blobs. What git prints is an argument; Python's text functions are a
-- parameter.
pub mod Inventory
pub mod Materialize
pub mod Admitted
pub mod Blob
pub mod Stream
pub mod Answers
pub mod Samples
pub mod History
pub mod Selection
