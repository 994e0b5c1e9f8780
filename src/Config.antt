-- ===== src/Config.antt =====
-- pkg/config: the configuration of a cluster, from the raw values of its spec to the objects that
-- the controller applies.
pub mod Values
pub mod Keys
pub mod Types
pub mod Defaults
pub mod Credentials
pub mod Passthrough
pub mod Patches
pub mod Stages
pub mod Readings
pub mod Literals
pub mod NewConfig
pub mod Labels
pub mod Volumes
pub mod Env
pub mod Workloads
pub mod Objects
pub mod Budget
pub mod Owned
pub mod Tried
