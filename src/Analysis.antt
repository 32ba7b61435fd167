-- ===== src/Analysis.antt =====
-- packages/analysis and packages/analysis-agent: what is computed from the rows of queries.
pub mod Clusters
pub mod Runs
