-- ===== src/Collector.antt =====
-- packages/collector: the intake of events.
pub mod App
pub mod Redact
pub mod Sink
