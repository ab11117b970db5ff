-- ===== src/Facts.antt =====
-- packages/core/src/facts.ts: the facts, the state of a document, and its derived views.
pub mod Types
pub mod Views
