-- ===== src/Controller/Cleanup.antt =====
-- `JobCleanupHandler` (pkg/controller/cleanup_job.go).
pub mod Safety
use spicedb_operator.Base.{
  Bool, List, Option, String, [], eqb, false, if◌then◌else◌, length, none, some, ◌&&◌, ◌+◌, ◌∷◌,
}
use spicedb_operator.Base.Map.{Map, lookup}
use spicedb_operator.Api.Condition.{condition_true}
use spicedb_operator.Controller.Types.{
  Job, Pod, Trace, Run, Server, Env, perform, finish, requeue, requeue_api_err, done, delete_job,
  delete_pod,
}
use spicedb_operator.Controller.Objects.{
  migration_requirements_key, annotation, job_condition_has_status,
}
use spicedb_operator.Controller.Migrations.{contains}

unfoldable pub job_names : List Job → List String
job_names [] = []
job_names (j ∷ js) = j.name ∷ job_names js

-- The test of the loop over the jobs: the job has annotations, carries the hash of the deployment,
-- and is complete.
unfoldable pub is_finished : Env → String → Job → Option (Map String) → Bool
is_finished env hash j none = false
is_finished env hash j (some m) =
    env.secure_equal (annotation (some m) migration_requirements_key) hash
    && job_condition_has_status (some j) "Complete" condition_true

-- The loop over the jobs.
unfoldable pub delete_finished : Env → Server → String → List Job → (Trace → Run) → Trace → Run
delete_finished env server hash [] rest = rest
delete_finished env server hash (j ∷ js) rest =
    let next = delete_finished env server hash js rest in
    if is_finished env hash j j.annotations
    then perform server (delete_job j.namespace j.name) requeue_api_err next
    else next

-- `labels["job-name"]`, none without labels or without the label
unfoldable pub job_of : Option (Map String) → Option String
job_of none = none
job_of (some labels) = lookup "job-name" labels

-- The body of the loop over the pods, of a pod and the name of its job, before the rest of the loop.
unfoldable pub remove_pod : Server → List String → Pod → Option String → (Trace → Run) → Trace → Run
remove_pod server names p none next = next
remove_pod server names p (some job) next =
    if contains names job
    then finish requeue
    else perform server (delete_pod p.namespace p.name) requeue_api_err next

-- The loop over the pods.
unfoldable pub delete_pods : Server → List String → List Pod → Trace → Run
delete_pods server names [] = finish done
delete_pods server names (p ∷ ps) =
    remove_pod server names p (job_of p.labels) (delete_pods server names ps)

-- `JobCleanupHandler.Handle`, of the jobs, the pods and the deployment it reads
unfoldable pub cleanup_jobs : Env → Server → List Job → List Pod → Option (Map String) → Trace → Run
cleanup_jobs env server jobs pods none = finish done
cleanup_jobs env server jobs pods (some m) =
    if eqb (length jobs + length pods) 0
    then finish done
    else delete_finished env server (annotation (some m) migration_requirements_key) jobs
        (delete_pods server (job_names jobs) pods)
