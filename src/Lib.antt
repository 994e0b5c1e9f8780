-- ===== src/Lib.antt =====
-- A model of the SpiceDB operator: the graph of updates that says which release a cluster runs
-- next, and the reconciliation that takes a cluster there.
--
-- The parts, and the files that model them:
--
--  - Base: tests on numbers and texts, lists measured by native numbers, Go maps as association
--    lists (Base/Map; the order of a map's entries stands for the order of a `range`), and results
--    that keep errors, panics and loops out of fuel apart (Base/Results).
--  - Api (pkg/apis/authzed/v1alpha1: types.go, status.go, conditions.go): `SpiceDBCluster`,
--    `SpiceDBVersion`, the conditions of a status, and the comparisons of statuses. The functions
--    of apimachinery that edit a list of conditions are the record `ConditionOps`, with what they
--    document. A message is kept as its format and arguments, so two messages are equal here when
--    the formats and the arguments are. The transition time of a condition is left out: `Equals`
--    compares it with `slices.Equal`, so two statuses that are equal here may differ there in
--    these times only.
--  - Updates (pkg/updates): Updates/Memory is `MemorySource` (memory.go), one function for each
--    method (`next_version` for `NextVersion`, and so on); Updates/Graph, Updates/Target and
--    Updates/Available are `SourceForChannel`, `ComputeTarget` and `AvailableVersions` of file.go.
--    `ComputeTarget` is cut at its early returns: `compute_target`, `from_channel`, `from_source`,
--    `locate_current`, `unless_rolling`, `narrow`, `next_step`, `take_step`, in this order, pass
--    on a record of the local variables (`Plan`). A method call on a nil source is a panic.
--  - Config (pkg/config): Config/Values and Config/Keys are the raw configuration and its typed
--    keys (keys.go); Config/Credentials, Stages, Readings, Passthrough, Literals and NewConfig are
--    `NewConfig` (config.go), cut into the stages that it goes through: `read_first`, `target_for`
--    (`ComputeTarget` of Updates), `draft`, whose parts are `read_settings`,
--    `resolve_credentials`, `own_settings` and `finish_passthrough`, and `finish`. The errors and
--    warnings of a stage are its results, and are put together in the order in which the code
--    appends them. Config/Patches is `ApplyPatches` (patch.go) and `fixDeploymentPatches`; the
--    libraries for JSON, YAML and patches are the record `PatchLibrary`. Config/Labels, Volumes,
--    Env, Workloads, Objects, Budget and Owned are the labels, the pods, the migration job, the
--    deployment, the disruption budget and the other objects (config.go, pkg/metadata/keys.go);
--    what the patches leave of an object is a function of it, and the functions of other packages
--    by which the objects are built are the record `ObjectLibrary`. Config/Tried is the list of
--    objects on which `NewConfig` tries the patches; `new_config` takes it as an argument.
--  - UpgradePath (tools/validate-upgrade-path/main.go): `validateUpgrade`, with what it prints as
--    its result.
--  - Controller (pkg/controller): Controller/Types has the objects, the context, the calls that
--    leave the process and the ways to end. A handler is a function from the calls made so far to
--    a run. The API server is a function from the calls so far to an answer, so that a statement
--    about all servers is one about all orders of failures. Controller/Migrations, Rollout,
--    Cleanup, Secrets and Spec are check_migrations.go, run_migration.go and
--    wait_for_migrations.go, ensure_deployment.go, cleanup_job.go, config_change.go and
--    validate_spec.go; Controller/Credentials is the lists of secrets of controller.go,
--    Controller/Validation is validate_config.go (what `NewConfig` answers is an argument of it),
--    and Controller/Pipeline the chain of controller.go from the migration check to the
--    deployment. Controller/Traces has the rules to prove what a run may do.
--  - Examples: small graphs and clusters, on which the definitions are run.
--
-- A handler reads the update graph only through the configuration, and that of a cluster is
-- computed with `ComputeTarget`; the two meet in the status, whose hashes and conditions
-- (`rollout_in_progress`) decide whether the target may move.
--
-- Fuel: the loop of `validateAllNodesPathToHead` has one round more than there are keys in the
-- edge set, and one again, which is enough on every graph. The loop of `validateUpgrade` takes its
-- fuel as an argument, since it need not end.
--
-- Numbers are natural, but for the replicas of a configuration (Base/Int): the code only compares
-- generations and replicas. The range of an int32 is an argument of `parse_int`. `equal_fold`
-- folds ASCII letters, where `strings.EqualFold` folds all. `size` and `prefix`, by which names
-- and labels are cut to their longest length, count characters, where Go counts bytes; on ASCII
-- text they are the same. Hashes (`hash.Object`, `hash.SecureObject`), the comparison of hashes,
-- the sort of the credential keys and the rendering of numbers are parameters. To the deployment
-- handler, the deployment that the configuration asks for is known by its hash only. A status
-- patch carries the whole cluster here; the code sends its metadata and status.
--
-- Not modelled: constants of the pod specs, such as the times of the probes, and the JSON of the
-- objects (config.go), the resolver of patch metadata (patchmeta.go), the adoption of secrets, the
-- handlers that apply the other owned objects, pause and self pause (handlers of
-- controller-idioms), the generator of update graphs, process start, and generated code.
pub mod Base
pub mod Api
pub mod Updates
pub mod UpgradePath
pub mod Config
pub mod Controller
pub mod Examples
