-- ===== src/Controller.antt =====
-- pkg/controller: the handlers that a reconciliation runs for a cluster, one after another.
pub mod Types
pub mod Objects
pub mod Migrations
pub mod Rollout
pub mod Cleanup
pub mod Traces
pub mod Pipeline
pub mod Credentials
pub mod Secrets
pub mod Spec
pub mod Validation
