-- ===== src/Examples.antt =====
-- Concrete graphs and clusters, the tests on them, and a use of each theorem.
mod Graphs
mod Conditions
mod Handlers
mod Configs
mod Workloads
