-- ===== src/Updates.antt =====
-- pkg/updates: the update graph, and what the operator asks of it.
pub mod Types
pub mod Memory
pub mod Graph
pub mod Target
pub mod Available
