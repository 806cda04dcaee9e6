-- ===== src/Remediation.antt =====
-- The write path (core/remediation, agent/actor): plans, signed jobs, the actor and its executor.
pub mod Plan
pub mod Os
pub mod Drift
pub mod Recheck
pub mod Mutation
pub mod Planner
pub mod Executor
pub mod Job
pub mod Nonce
pub mod JobQueue
pub mod Signing
pub mod Dispatch
pub mod Orchestrator
pub mod Sample
pub mod Listener
mod Tests
