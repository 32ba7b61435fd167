-- ===== src/Sdk.antt =====
-- packages/sdk: the analytics client that applications embed.
pub mod Client
