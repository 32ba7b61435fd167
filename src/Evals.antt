-- ===== src/Evals.antt =====
-- packages/evals: scorers of trajectories, suites over datasets, and the gate.
pub mod Scorers
pub mod Suite
