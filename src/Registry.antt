-- ===== src/Registry.antt =====
-- packages/registry and packages/registry-service: the registry of events and its backend.
pub mod Schema
pub mod SeamMap
pub mod Crypto
pub mod Taxonomy
pub mod Inputs
pub mod Findings
pub mod Requests
pub mod Trials
pub mod Table
pub mod Shapes
pub mod Events
pub mod Store
