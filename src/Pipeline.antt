-- ===== src/Pipeline.antt =====
-- packages/pipeline: from the stream of events to the rows of the analytics store.
pub mod Transform
pub mod Consumer
