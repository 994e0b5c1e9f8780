-- ===== src/Controller/Migrations.antt =====
-- The migration handlers (pkg/controller/check_migrations.go, run_migration.go,
-- wait_for_migrations.go).
pub mod Routing
pub mod Jobs
pub mod Waiting
use Prim.Native.String.{◌++◌}
use spicedb_operator.Base.{
  Bool, List, Option, String, [], false, if◌then◌else◌, none, not, some, true, ◌==◌, ◌||◌, ◌∷◌,
}
use spicedb_operator.Base.Map.{Map}
use spicedb_operator.Api.Version.{Version, attribute_migration}
use spicedb_operator.Api.Condition.{
  new_migrating_condition, new_migration_failed_condition, condition_true,
}
use spicedb_operator.Api.Cluster.{Cluster, set_status_condition}
use spicedb_operator.Controller.Types.{
  Job, Deployment, Context, Trace, Run, Server, Env, perform, finish, record_event, self_pause,
  run_migration, wait_for_migrations, deployment_chain, next_handler, requeue_after, requeue_err,
  requeue_api_err, hand_on, patch_status, apply_job, delete_job,
}
use spicedb_operator.Controller.Objects.{
  when_nil, migration_requirements_key, annotation, find_job_condition, job_condition_has_status,
}

-- `annotations != nil && hash.SecureEqual(annotations[requirements], migrationHash)`
unfoldable pub carries_hash : Env → Option (Map String) → String → Bool
carries_hash env none hash = false
carries_hash env (some m) hash =
    env.secure_equal (annotation (some m) migration_requirements_key) hash

-- The loop over the deployments of `MigrationCheckHandler.Handle`.
unfoldable pub has_deployment : Env → List Deployment → String → Bool
has_deployment env [] hash = false
has_deployment env (d ∷ ds) hash = carries_hash env d.annotations hash || has_deployment env ds hash

-- The loop over its jobs: the first that carries the hash.
unfoldable pub find_job : Env → List Job → String → Option Job
find_job env [] hash = none
find_job env (j ∷ js) hash =
    if carries_hash env j.annotations hash then some j else find_job env js hash

unfoldable pub with_job : Context → Option Job → Context
with_job ctx none = ctx
with_job ctx (some j) = record ctx { current_job = some j }

-- `slices.Contains`
unfoldable pub contains : List String → String → Bool
contains [] x = false
contains (y ∷ ys) x = y == x || contains ys x

-- `status.CurrentVersion != nil && !slices.Contains(status.CurrentVersion.Attributes, migration)`
unfoldable pub version_needs_no_migration : Option Version → Bool
version_needs_no_migration none = false
version_needs_no_migration (some v) = not (contains v.attributes attribute_migration)

-- The last tests of the handler: what it does about the job of the migration.
unfoldable pub route_job : Bool → Option Job → Context → Trace → Run
route_job true job ctx t = finish (hand_on deployment_chain (with_job ctx job)) t
route_job false none ctx t = record_event "RunningMigrations" (finish (hand_on run_migration ctx)) t
route_job false (some j) ctx t = finish (hand_on wait_for_migrations (with_job ctx (some j))) t

-- `MigrationCheckHandler.Handle`
unfoldable pub check_migrations : Env → Context → Trace → Run
check_migrations env ctx t =
    let found = has_deployment env ctx.deployments ctx.migration_hash in
    let job = find_job env ctx.jobs ctx.migration_hash in
    if ctx.config.skip_migrations || ctx.config.datastore_engine == "memory"
    then finish (hand_on deployment_chain (with_job ctx job)) t
    else if version_needs_no_migration ctx.cluster.status.current_version
    then finish (hand_on deployment_chain (with_job ctx job)) t
    else route_job found job ctx t

-- The loop of `MigrationRunHandler.Handle` that sorts the jobs: those that match, and the extra ones.
-- A job without annotations is put among the extra ones, and then compared like any other.
unfoldable pub matching_jobs : List Job → String → List Job
matching_jobs [] hash = []
matching_jobs (j ∷ js) hash =
    let rest = matching_jobs js hash in
    if annotation j.annotations migration_requirements_key == hash then j ∷ rest else rest

unfoldable pub extra_jobs : List Job → String → List Job
extra_jobs [] hash = []
extra_jobs (j ∷ js) hash =
    let rest = extra_jobs js hash in
    when_nil j j.annotations
      (if annotation j.annotations migration_requirements_key == hash then rest else j ∷ rest)

-- `for _, o := range extraObjs { if err := m.deleteJob(…); err != nil { …; return } }`
unfoldable pub delete_jobs : Server → List Job → (Trace → Run) → Trace → Run
delete_jobs server [] rest = rest
delete_jobs server (j ∷ js) rest =
    perform server (delete_job j.namespace j.name) requeue_api_err (delete_jobs server js rest)

-- The rest of `MigrationRunHandler.Handle`, once its jobs are sorted.
unfoldable pub settle_jobs : Server → Context → List Job → List Job → Trace → Run
settle_jobs server ctx [] extra =
    perform server (apply_job ctx.migration_hash) requeue_api_err
      (delete_jobs server extra (finish (requeue_after 5)))
settle_jobs server ctx (j ∷ js) extra =
    delete_jobs server extra (finish (hand_on next_handler (record ctx { current_job = some j })))

-- `currentStatus.SetStatusCondition(NewMigratingCondition(…))`
unfoldable pub migrating_cluster : Env → Context → Cluster
migrating_cluster env ctx =
    set_status_condition env.conditions ctx.cluster
      (new_migrating_condition ctx.config.datastore_engine ctx.config.target_migration)

-- `MigrationRunHandler.Handle`
unfoldable pub run_migrations : Env → Server → Context → Trace → Run
run_migrations env server ctx =
    let cluster = migrating_cluster env ctx in
    perform server (patch_status cluster) requeue_err (
      settle_jobs server (record ctx { cluster = cluster })
        (matching_jobs ctx.jobs ctx.migration_hash) (extra_jobs ctx.jobs ctx.migration_hash))

-- The message of the condition `Failed` of the job, when that condition is true.
unfoldable pub failure_of : Option Job → Option String
failure_of job = elim (find_job_condition job "Failed") [
  | none ↦ none
  | some c ↦ if c.status == condition_true then some c.message else none
]

-- The rest of `WaitForMigrationsHandler.Handle`, of a job that did not fail.
unfoldable pub wait_for_job : Context → Bool → Trace → Run
wait_for_job ctx true t =
    record_event "MigrationsCompleted" (finish (hand_on deployment_chain ctx)) t
wait_for_job ctx false t = finish (requeue_after 5) t

-- Its two halves: a job that failed, or did not.
unfoldable pub wait_or_pause : Env → Context → Option String → Trace → Run
wait_or_pause env ctx (some message) t =
    let failed =
      new_migration_failed_condition ctx.config.datastore_engine "head"
        ("migration job failed: " ++ message) in
    let cluster = set_status_condition env.conditions ctx.cluster failed in
    finish (hand_on self_pause (record ctx { cluster = cluster })) t
wait_or_pause env ctx none t =
    wait_for_job ctx (job_condition_has_status ctx.current_job "Complete" condition_true) t

-- `WaitForMigrationsHandler.Handle`
unfoldable pub wait_migrations : Env → Context → Trace → Run
wait_migrations env ctx t = wait_or_pause env ctx (failure_of ctx.current_job) t
