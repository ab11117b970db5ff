-- ===== src/FingerTree.antt =====
-- packages/finger-tree/src: the persistent sequence with cached monoidal measures.
pub mod Types
pub mod Tree
pub mod Fold
pub mod Concat
pub mod Split
pub mod Contents
pub mod Ends
pub mod Joins
pub mod Measures
pub mod Splitting
pub mod Results
