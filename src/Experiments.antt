-- ===== src/Experiments.antt =====
-- packages/experiments and packages/experiment-agent: experiments and their guarded rollout.
pub mod Sequential
pub mod Trial
pub mod Agent
pub mod Rollout
