-- ===== src/Reducers.antt =====
-- packages/core/src/reducers.ts: the reducers of the slices of a document's state, and their
-- combination.
pub mod Chain
pub mod Slices
pub mod Epochs
pub mod Document
