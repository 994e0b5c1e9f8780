-- ===== src/Api.antt =====
-- pkg/apis/authzed/v1alpha1: the types of the SpiceDBCluster resource.
pub mod Version
pub mod Condition
pub mod Cluster
pub mod Laws
